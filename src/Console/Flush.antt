-- ===== src/Console/Flush.antt =====
-- The flush of the console queue.
use arduino_yun_bridge.Base.{◌∙◌, ◌≡◌, refl, ap, true, false, List, [], ◌∷◌, ◌++◌, arith, Bytes}
use mathlib.Core.List.{append-nil, append_assoc}
use arduino_yun_bridge.Protocol.{max_payload_size}
use arduino_yun_bridge.Console.{
  queue, flush_console_queue, flush_loop, iter_chunks, Send, Console, send_chunks,
}

-- Sends that work and leave the line open.
abbrev pub Works : Send → Type 0
Works o = (o.sent_ok ≡ true) × (o.paused_after ≡ false)

-- The chunks of all buffers, in their order.
abbrev pub chunks_of : List Bytes → List Bytes
chunks_of [] = []
chunks_of (buf ∷ bufs) = iter_chunks buf max_payload_size ++ chunks_of bufs

-- As many good outcomes as there are chunks, before the others.
abbrev pub fed : List Bytes → List Send → List Send
fed [] others = others
fed (c ∷ cs) others = record { sent_ok = true; paused_after = false } ∷ fed cs others

fed-append :
    (xs ys : List Bytes) (others : List Send) → fed (xs ++ ys) others ≡ fed xs (fed ys others)
fed-append [] ys others = refl
fed-append (x ∷ xs) ys others =
    ap (λ r. record { sent_ok = true; paused_after = false } ∷ r) (fed-append xs ys others)

abbrev wrote : List Bytes → List Send → Console → Console
wrote chunks others s = record s {
  mcu_is_paused = false;
  written = s.written ++ chunks;
  sends = others;
}

send_chunks_lem :
    (chunks : List Bytes) (others : List Send) (s : Console)
    → s.mcu_is_paused ≡ false
    → s.sends ≡ fed chunks others
    → send_chunks chunks s ≡ (wrote chunks others s, true)
unfolding send_chunks
send_chunks_lem [] others s live e = ground (arith, append-nil s.written)
send_chunks_lem (c ∷ cs) others s live e =
    let s' = record s {
      written = s.written ++ (c ∷ []);
      sends = fed cs others;
      mcu_is_paused = false;
    } in
    let rest = send_chunks_lem cs others s' refl refl in
    let joined = append_assoc s.written (c ∷ []) cs in ground (arith, rest, joined)

loop_lem :
    (bufs : List Bytes) (others : List Send) (s : Console)
    → s.mcu_is_paused ≡ false
    → s.sends ≡ fed (chunks_of bufs) others
    → flush_loop bufs s ≡ queue [] (wrote (chunks_of bufs) others s)
unfolding flush_loop
loop_lem [] others s live e = ground (arith, append-nil s.written)
loop_lem (buf ∷ bufs) others s live e =
    let here = iter_chunks buf max_payload_size in
    let s' = wrote here (fed (chunks_of bufs) others) s in
    let first =
      send_chunks_lem here (fed (chunks_of bufs) others) s live
        (e ∙ fed-append here (chunks_of bufs) others) in
    let rest = loop_lem bufs others s' refl refl in
    let joined = append_assoc s.written here (chunks_of bufs) in ground (arith, first, rest, joined)

-- While the line is open and every send works, a flush writes the chunks of all queued buffers in
-- their order, uses one send for each, and leaves the queue empty.
pub flush_writes_all :
    (others : List Send) (s : Console)
    → s.mcu_is_paused ≡ false
    → s.sends ≡ fed (chunks_of s.console_to_mcu_queue) others
    → let s' = flush_console_queue s in
      (s'.written ≡ s.written ++ chunks_of s.console_to_mcu_queue)
      × (s'.console_to_mcu_queue ≡ [])
      × (s'.sends ≡ others)
flush_writes_all others s live e =
    let all = loop_lem s.console_to_mcu_queue others s live e in
    unfold flush_console_queue in rw all (refl, refl, refl)

-- A buffer whose second chunk cannot be sent goes back whole, though its first chunk has been written:
-- the flush that follows writes that chunk again.
pub interrupted_buffer_goes_back :
    (buf first second : Bytes) (chunks bufs : List Bytes) (o o' : Send) (os : List Send)
    (s : Console)
    → s.mcu_is_paused ≡ false
    → s.console_to_mcu_queue ≡ buf ∷ bufs
    → iter_chunks buf max_payload_size ≡ first ∷ second ∷ chunks
    → s.sends ≡ o ∷ o' ∷ os
    → o.sent_ok ≡ true
    → o'.sent_ok ≡ false
    → let s' = flush_console_queue s in
      (s'.written ≡ s.written ++ (first ∷ [])) × (s'.console_to_mcu_queue ≡ buf ∷ bufs)
unfolding flush_console_queue flush_loop send_chunks
interrupted_buffer_goes_back buf first second chunks bufs o o' os s live queued cut outcomes good
      bad =
    ground arith
