-- ===== src/Console.antt =====
-- The console towards the MCU in mcubridge/mcubridge/services/runtime.py: the flow control by XON and
-- XOFF, the queue of console input and its flush, with `iter_chunks` of
-- mcubridge/mcubridge/protocol/structures.py. The outcomes of the sends are an argument, one for each.
pub mod Chunks
mod Flush
use arduino_yun_bridge.Base.{
  ℕ, ◌-◌, zero, suc, Bool, true, false, ◌||◌, not, List, [], ◌∷◌, ◌++◌, if◌then◌else◌, is_empty,
  Bytes, take, drop, length,
}
use arduino_yun_bridge.Protocol.{max_payload_size}

-- The slices from the start to the end; the length is fuel enough for chunks that are not empty.
unfoldable pub chunks_from : ℕ → ℕ → Bytes → List Bytes
chunks_from zero chunk_size whole = []
chunks_from (suc left) chunk_size whole =
    let rest = chunks_from left chunk_size (drop chunk_size whole) in
    if is_empty whole then [] else take chunk_size whole ∷ rest

unfoldable pub iter_chunks : Bytes → ℕ → List Bytes
unfolding chunks_from
iter_chunks whole chunk_size = chunks_from (length whole) chunk_size whole

-- What a send meets: whether it works, and whether the MCU has paused the line when it is over.
pub record Send : Type 0 where
  pub sent_ok : Bool
  pub paused_after : Bool

pub record Console : Type 0 where
  pub mcu_is_paused : Bool
  pub serial_tx_allowed : Bool
  pub console_to_mcu_queue : List Bytes
  -- the `maxlen` that `configure` gives the queue
  pub mailbox_queue_limit : ℕ
  -- the data of the ConsoleWrite packets that went out, the first one first
  pub written : List Bytes
  -- the outcomes of the sends to come; none stands for a failure
  pub sends : List Send

-- One `serial.send` of a chunk.
abbrev send_chunk : Bytes → Console → Console × Bool
send_chunk chunk s = elim s.sends [
  | [] ↦ (s, false)
  | o ∷ os ↦
      if o.sent_ok
      then (
        record s {
          written = s.written ++ (chunk ∷ []);
          sends = os;
          mcu_is_paused = o.paused_after;
        },
        true,
      )
      else (record s { sends = os; mcu_is_paused = o.paused_after }, false)
]

unfoldable pub send_chunks : List Bytes → Console → Console × Bool
send_chunks [] s = (s, true)
send_chunks (chunk ∷ chunks) s =
    let (s', done) = send_chunk chunk s in
    elim done [ true ↦ send_chunks chunks s' | false ↦ (s', false) ]

-- `console_to_mcu_queue.append(pl)`; a full deque drops its first item.
abbrev pub push : Bytes → Console → Console
push payload s =
    let longer = s.console_to_mcu_queue ++ (payload ∷ []) in
    record s { console_to_mcu_queue = drop (length longer - s.mailbox_queue_limit) longer }

abbrev queue : List Bytes → Console → Console
queue bufs s = record s { console_to_mcu_queue = bufs }

-- The loop over the queued buffers. A buffer whose sending stops goes back whole.
unfoldable pub flush_loop : List Bytes → Console → Console
unfolding send_chunks
flush_loop [] s = queue [] s
flush_loop (buf ∷ bufs) s =
    if s.mcu_is_paused
    then queue (buf ∷ bufs) s
    else (let (s', done) = send_chunks (iter_chunks buf max_payload_size) s in
        elim done [ true ↦ flush_loop bufs s' | false ↦ queue (buf ∷ bufs) s' ])

unfoldable pub flush_console_queue : Console → Console
unfolding flush_loop
flush_console_queue s = flush_loop s.console_to_mcu_queue s

unfoldable pub handle_mcu_xon : Console → Console
unfolding flush_console_queue
handle_mcu_xon s =
    flush_console_queue (record s { mcu_is_paused = false; serial_tx_allowed = true })

unfoldable pub handle_mcu_xoff : Console → Console
handle_mcu_xoff s = record s { mcu_is_paused = true; serial_tx_allowed = false }
