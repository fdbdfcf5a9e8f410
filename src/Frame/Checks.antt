-- ===== src/Frame/Checks.antt =====
-- What a parsed frame has been checked for, and when a frame can be built.
use arduino_yun_bridge.Base.{
  ℕ, ◌-◌, ◌%◌, ◌^◌, ◌≤◌, ◌≡◌, ◌↔◌, Option, none, some, arith, ◌==◌, Bytes, length, take, drop,
  Option-cases, Bool-cases, inl, inr, Bool-cases, ap, sym, ==_iff,
}
use arduino_yun_bridge.Frame.RoundTrip.{Result-cases}
use arduino_yun_bridge.Frame.{
  encrypted_payload_with_tag, field, with_crc, build_frame, seal, put_plain, from_bytes_le, crc32,
  Payload, bytes, message, Envelope, ok, Wire, active_key, payload_bytes, header_aad, sealed_bytes,
  seal, put_plain, with_crc, new_envelope, fill, build_frame, open_payload, read_envelope,
  parse_frame,
}

module _ (w : Wire) where
  -- What the receiver knows of a frame that it took: the checksum is that of the bytes before it,
  -- the envelope is what these bytes hold and has the protocol's version, and under an active key
  -- the payload is what the cipher opened with the header as associated data.
  pub record IsAccepted (raw : Bytes) (key : Option Bytes) (e : Envelope w.Message)
      (p : Payload w.Message) : Type 0 where
    pub long : 4 ≤ length raw
    pub checksum :
        crc32 (take (length raw - 4) raw) % 2 ^ 32 ≡ from_bytes_le (drop (length raw - 4) raw)
    pub envelope : w.parse (take (length raw - 4) raw) ≡ some e
    pub version : e.version ≡ 2
    pub opened :
        (k : Bytes)
        → active_key key e.command_id ≡ some k
        → (t : Bytes) × (w.decrypt k e.nonce (sealed_bytes w e.body) (header_aad w e) ≡ some t)
          × (p ≡ bytes t)

  open_payload_inv :
      (k : Bytes) (e f : Envelope w.Message) (p : Payload w.Message)
      → open_payload w (some k) e ≡ ok (f, p)
      → (t : Bytes) × (w.decrypt k e.nonce (sealed_bytes w e.body) (header_aad w e) ≡ some t)
        × (p ≡ bytes t)
  open_payload_inv k e f p h =
      elim (Option-cases (w.decrypt k e.nonce (sealed_bytes w e.body) (header_aad w e))) [
        | inl x ↦ absurd (unfold open_payload in ground (arith, x))
        | inr (t, x) ↦ unfold open_payload in (t, x, ground (arith, x))
      ]

  open_payload_keeps :
      (key : Option Bytes) (e f : Envelope w.Message) (p : Payload w.Message)
      → open_payload w key e ≡ ok (f, p)
      → f ≡ e
  open_payload_keeps none e f p h = unfold open_payload in ground arith
  open_payload_keeps (some k) e f p h = unfold open_payload in ground arith

  read_envelope_inv :
      (key : Option Bytes) (o : Option (Envelope w.Message)) (e : Envelope w.Message)
      (p : Payload w.Message)
      → read_envelope w key o ≡ ok (e, p)
      → (o ≡ some e)
        × (e.version ≡ 2)
        × (open_payload w (active_key key e.command_id) e ≡ ok (e, p))
  read_envelope_inv key none e p h = absurd (unfold read_envelope in ground arith)
  read_envelope_inv key (some f) e p h = elim (Bool-cases (f.version == 2)) [
    | inl v ↦
        let opened : open_payload w (active_key key f.command_id) f ≡ ok (e, p) =
          unfold read_envelope in ground (arith, v) in
        let same : e ≡ f = open_payload_keeps (active_key key f.command_id) f e p opened in
        (ap some (sym same), rw same ((==_iff f.version 2).0 v), rw same (rw same at opened))
    | inr v ↦ absurd (unfold read_envelope in ground (arith, v))
  ]

  -- A frame that `parse_frame` takes has passed every check: the length, the checksum, the parse, the
  -- version, and under an active session key the authentication of payload and header.
  pub parse_frame-IsAccepted :
      (raw : Bytes) (key : Option Bytes) {e : Envelope w.Message} {p : Payload w.Message}
      → parse_frame w raw key ≡ ok (e, p)
      → IsAccepted raw key e p
  parse_frame-IsAccepted raw key {e} {p} h =
      let body = take (length raw - 4) raw in
      let read : read_envelope w key (w.parse body) ≡ ok (e, p) =
        unfold parse_frame in ground arith in
      let (parsed, version, opened) = read_envelope_inv key (w.parse body) e p read in
      record {
        long = unfold parse_frame in ground arith;
        checksum = unfold parse_frame in ground arith;
        envelope = parsed;
        version = version;
        opened = λ k active. open_payload_inv k e e p (rw active at opened);
      }

  -- What `build_frame` asks of the payload, under the active key if there is one.
  abbrev pub Takes : Option Bytes → Payload w.Message → Envelope w.Message → Type 0
  Takes none (bytes b) e = length b ≤ 64
  Takes none (message m) e = Unit {0}
  Takes (some k) p e =
      (length (payload_bytes w p) ≤ 64)
      × ((t : Bytes) × (w.encrypt k e.nonce (payload_bytes w p) (header_aad w e) ≡ some t))

  fill_iff :
      (key : Option Bytes) (p : Payload w.Message) (e : Envelope w.Message)
      → ((f : Envelope w.Message) × (fill w key p e ≡ ok f)) ↔ Takes key p e
  fill_iff none (bytes b) e =
      unfold fill put_plain in
      (
        λ (f, h). ground arith,
        λ small. (record e { body = encrypted_payload_with_tag b }, ground arith),
      )
  fill_iff none (message m) e =
      unfold fill put_plain in
      (
        λ h. tt,
        λ h. elim (Bool-cases (w.has_field m)) [
          | inl known ↦ (record e { body = field m }, ground (arith, known))
          | inr unknown ↦ (e, ground (arith, unknown))
        ],
      )
  fill_iff (some k) p e =
      unfold fill seal in
      (
        λ (f, h). elim (Option-cases (w.encrypt k e.nonce (payload_bytes w p) (header_aad w e))) [
          | inl x ↦ absurd (ground (arith, x))
          | inr (t, x) ↦ (ground (arith, x), (t, x))
        ],
        λ (small, (t, sealed)).
            (record e { body = encrypted_payload_with_tag t }, ground (arith, sealed)),
      )

  -- `build_frame` succeeds exactly if the command id fits 16 bits, the sequence id 32, and the payload
  -- is taken: raw or sealed bytes of at most 64 (and sealing works), or any unsealed message.
  pub build_frame_iff :
      (c s : ℕ) (p : Payload w.Message) (given key : Option Bytes)
      → ((raw : Bytes) × (build_frame w c s p given key ≡ ok raw))
        ↔ ((c ≤ 65535) × (s ≤ 4294967295) × Takes (active_key key c) p (new_envelope w c s given))
  build_frame_iff c s p given key =
      let e = new_envelope w c s given in
      let k = active_key key c in
      (
        λ (raw, h). elim (Result-cases (fill w k p e)) [
          | inl (f, x) ↦ (
            unfold build_frame in ground (arith, x),
            unfold build_frame in ground (arith, x),
            (fill_iff k p e).0 (f, x),
          )
          | inr (x, y) ↦ absurd (unfold build_frame in ground (arith, y))
        ],
        λ (narrow, wide, taken).
            let (f, x) = (fill_iff k p e).1 taken in
            (with_crc w f, unfold build_frame in ground (arith, x)),
      )
