-- ===== src/Frame/RoundTrip.antt =====
-- A frame that was built parses back.
use arduino_yun_bridge.Base.{
  ◌≤◌, ℕ, ◌+◌, ◌-◌, ◌%◌, ◌^◌, ◌<◌, ◌≡◌, refl, false, Option, none, some, ◌++◌, arith, ltb,
  if◌then◌else◌, Bytes, length, length-append, take, drop, take-append, drop-append, Option-cases,
  ◌⊎◌, inl, inr, [], ==_refl,
}
use arduino_yun_bridge.Base.Ints.{to_bytes_le, from_bytes_le, length-to_bytes_le, from-to_bytes_le}
use arduino_yun_bridge.Frame.Crc.{crc32}
use arduino_yun_bridge.Frame.{
  err, nonce_or_zeros, FrameError, active_key, Result, Payload, bytes, message, Envelope, ok, Wire,
  IsWire, payload_bytes, header_aad, seal, put_plain, with_crc, new_envelope, fill, build_frame,
  open_payload, read_envelope, parse_frame,
}

pub Result-cases {ℓ} :
    {A : Type ℓ} (r : Result A) → ((a : A) × (r ≡ ok a)) ⊎ ((x : FrameError) × (r ≡ err x))
Result-cases (ok a) = inl (a, refl)
Result-cases (err x) = inr (x, refl)

module _ (w : Wire) where
  -- What the receiver hands on: the text of a sealed payload, or the payload itself; a message that
  -- the envelope has no field for is lost.
  abbrev pub delivered : Option Bytes → Payload w.Message → Payload w.Message
  delivered (some key) p = bytes (payload_bytes w p)
  delivered none (bytes b) = bytes b
  delivered none (message m) = if w.has_field m then message m else bytes []

  split_frame :
      (body : Bytes) (c : ℕ)
      → c < 256 ^ 4
      → (length (body ++ to_bytes_le 4 c) ≡ length body + 4)
        × (take (length body) (body ++ to_bytes_le 4 c) ≡ body)
        × (from_bytes_le (drop (length body) (body ++ to_bytes_le 4 c)) ≡ c)
  split_frame body c fits = (
    omega (arith, length-append body (to_bytes_le 4 c), length-to_bytes_le 4 c),
    take-append (length body) body (to_bytes_le 4 c) refl,
    rw (drop-append (length body) body (to_bytes_le 4 c) refl) (from-to_bytes_le 4 c fits),
  )

  module _ (iw : IsWire w) where
    parse-with_crc :
        (e : Envelope w.Message) (key : Option Bytes)
        → e.version < 2 ^ 32
        → e.command_id < 2 ^ 32
        → e.sequence_id < 2 ^ 32
        → parse_frame w (with_crc w e) key ≡ read_envelope w key (some e)
    parse-with_crc e key v c s =
        let body = w.serialize e in
        let (len, front, back) = split_frame body (crc32 body % 2 ^ 32) (omega arith) in
        let cut : length (with_crc w e) - 4 ≡ length body = unfold with_crc in omega (arith, len) in
        let short : ltb (length (with_crc w e)) 4 ≡ false =
          unfold with_crc in ground (arith, len) in
        unfold parse_frame in
        rw (short, cut)
          (unfold with_crc in
            rw (front, back, iw.parse-serialize e v c s, ==_refl (crc32 body % 2 ^ 32)))

    fill_header :
        (key : Option Bytes) (p : Payload w.Message) (e : Envelope w.Message)
        {f : Envelope w.Message}
        → fill w key p e ≡ ok f
        → (f.version ≡ e.version)
          × (f.command_id ≡ e.command_id)
          × (f.sequence_id ≡ e.sequence_id)
          × (f.nonce ≡ e.nonce)
    fill_header none (bytes b) e h = unfold fill put_plain in ground arith
    fill_header none (message m) e h = unfold fill put_plain in ground arith
    fill_header (some key) p e h = unfold fill seal in ground arith

    open-fill :
        (key : Option Bytes) (p : Payload w.Message) (c s : ℕ) (given : Option Bytes)
        {f : Envelope w.Message}
        → fill w key p (new_envelope w c s given) ≡ ok f
        → open_payload w key f ≡ ok (f, delivered key p)
    open-fill none (bytes b) c s given h = unfold fill put_plain open_payload in ground arith
    open-fill none (message m) c s given h = unfold fill put_plain open_payload in ground arith
    open-fill (some key) p c s given h =
        let e = new_envelope w c s given in
        elim (Option-cases (w.encrypt key e.nonce (payload_bytes w p) (header_aad w e))) [
          | inl none_sealed ↦ unfold fill seal in ground (arith, none_sealed)
          | inr (c', sealed) ↦
              let opens =
                iw.decrypt-encrypt key e.nonce (payload_bytes w p) (header_aad w e) sealed in
              unfold fill seal open_payload in ground (arith, sealed, opens)
        ]

    build_inv :
        (c n : ℕ) (p : Payload w.Message) (given key : Option Bytes) {raw : Bytes}
        → build_frame w c n p given key ≡ ok raw
        → (f : Envelope w.Message) × (fill w (active_key key c) p (new_envelope w c n given) ≡ ok f)
          × (raw ≡ with_crc w f)
          × (c ≤ 65535)
          × (n ≤ 4294967295)
    build_inv c n p given key built =
        elim (Result-cases (fill w (active_key key c) p (new_envelope w c n given))) [
          | inl (f, e) ↦
              unfold build_frame in
              (f, ground (arith, e), ground (arith, e), ground (arith, e), ground (arith, e))
          | inr (x, e) ↦ unfold build_frame in absurd (ground (arith, e))
        ]

    -- A frame that was built parses under the same session key: the header fields come back, the nonce
    -- is the given one or zeros, and the payload is the one given (as bytes, if it was sealed; empty, if
    -- it was a message that the envelope has no field for).
    pub parse-build_frame :
        (command_id sequence_id : ℕ) (payload : Payload w.Message) (given key : Option Bytes)
        {raw : Bytes}
        → build_frame w command_id sequence_id payload given key ≡ ok raw
        → (e : Envelope w.Message) × (parse_frame w raw key
            ≡ ok (e, delivered (active_key key command_id) payload))
          × (e.command_id ≡ command_id)
          × (e.sequence_id ≡ sequence_id)
          × (e.nonce ≡ nonce_or_zeros given)
    parse-build_frame c s p given key {raw} built =
        let (f, filled, shape, small, narrow) = build_inv c s p given key built in
        let (version, command, sequence, nonce) =
          fill_header (active_key key c) p (new_envelope w c s given) filled in
        let read =
          parse-with_crc f key (omega (arith, version)) (omega (arith, command))
            (omega (arith, sequence)) in
        let opened = open-fill (active_key key c) p c s given filled in
        (
          f,
          rw (shape, read) (unfold read_envelope in rw (version, command) opened),
          command,
          sequence,
          nonce,
        )
