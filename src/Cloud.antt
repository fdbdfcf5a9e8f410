-- ===== src/Cloud.antt =====
-- The way of a message to the cloud in mcubridge/mcubridge/services/runtime.py: `enqueue_cloud`, the
-- publication and the spool that keeps what could not be sent. The protobuf coding of a message is a
-- parameter; the outcome of each send and each database access is an argument. The cloud's sends are
-- kept in a list, the first one first.
mod Flush
mod Spooling
mod Handover
pub mod Context
mod Session
mod Answers
mod Tests
use arduino_yun_bridge.Base.{
  set_elem, get_elem?, map, codes, contains_text, ℕ, zero, suc, ◌+◌, ◌≡◌, Bool, true, false, ◌&&◌,
  not, Option, none, some, List, [], ◌∷◌, ◌++◌, leb, ltb, ◌==◌, if◌then◌else◌, Bytes, Text, any,
  text_eq, is_empty,
}
use arduino_yun_bridge.Base.Assoc.{lookup, insert, text_key}
use arduino_yun_bridge.Storage.{
  Database, works, Outcome, returns, index_error, storage_error, Deque, append, popleft, peek,
}

-- `pb.CloudQueuedPublish`, as far as this code reads it
pub record Publish : Type 0 where
  pub topic_name : Text
  pub payload : Bytes
  pub correlation_data : Option Bytes
  pub user_properties : List (Text × Text)

-- `SerializeToString` and `FromString`; `none` is a `DecodeError`.
pub record Codec : Type 0 where
  pub encode : Publish → Bytes
  pub decode : Bytes → Option Publish

-- The documented behaviour of protobuf.
pub record IsCodec (c : Codec) : Type 0 where
  pub decode-encode : (m : Publish) → c.decode (c.encode m) ≡ some m

pub record Cloud : Type 0 where
  -- `_cloud_stream` is set
  pub connected : Bool
  pub cloud_queue_limit : ℕ
  pub spool : Deque
  pub cloud_spool_degraded : Bool
  pub cloud_spool_pending_messages : ℕ
  pub cloud_spool_dropped_limit : ℕ
  pub cloud_spool_trim_events : ℕ
  pub cloud_spool_corrupt_dropped : ℕ
  pub cloud_drop_counts : List (Text × ℕ)
  pub cloud_dropped_messages : ℕ
  -- the numbers of the queues of the local clients that wait, by correlation
  pub ipc_requests : List (Bytes × ℕ)
  -- all queues made for local clients; each holds one message at most, and that of a client that is
  -- gone stays
  pub ipc_queues : List (Option Publish)
  -- the queues of the local clients that read the console
  pub console_queues : List (List Publish)
  -- how many calls of `enqueue_cloud` have a message in `cloud_publish_queue`
  pub cloud_publish_queue : ℕ
  pub sent : List Publish

-- What one turn of the flush meets.
pub record Turn : Type 0 where
  pub peek_db : Database
  pub pop_db : Database
  pub send_ok : Bool

abbrev with_spool : Deque → Cloud → Cloud
with_spool d cl = record cl { spool = d }

abbrev degrade : Cloud → Cloud
degrade cl = record cl { cloud_spool_degraded = true }

abbrev or_zero : Option ℕ → ℕ
or_zero none = 0
or_zero (some n) = n

unfoldable pub record_cloud_drop : Text → Cloud → Cloud
record_cloud_drop topic_name cl = record cl {
  cloud_drop_counts =
      insert topic_name (or_zero (lookup topic_name cl.cloud_drop_counts) + 1) cl.cloud_drop_counts;
  cloud_dropped_messages = cl.cloud_dropped_messages + 1;
}

-- The result of `_publish_cloud_message`, whose envelope holds the message's payload. A send that is not
-- well raises one of the three exceptions that are caught there; any other leaves `enqueue_cloud`, and is
-- not modelled.
unfoldable pub publish_cloud_message : Bool → Publish → Cloud → Cloud × Bool
publish_cloud_message send_ok m cl =
    if cl.connected && send_ok
    then (record cl { sent = cl.sent ++ (m ∷ []) }, true)
    else (cl, false)

-- Whether the loop goes on.
pub data Next : Type 0 where
  again stop : Cloud → Next

abbrev pop_sent : Deque × Outcome Bytes → Cloud → Next
pop_sent (d, returns item) cl = again (with_spool d cl)
pop_sent (d, index_error) cl = stop (with_spool d cl)
pop_sent (d, storage_error) cl = stop (degrade (with_spool d cl))

abbrev pop_corrupt : Deque × Outcome Bytes → Cloud → Next
pop_corrupt (d, returns item) cl =
    again
      (record cl { spool = d; cloud_spool_corrupt_dropped = cl.cloud_spool_corrupt_dropped + 1 })
pop_corrupt (d, index_error) cl = stop (with_spool d cl)
pop_corrupt (d, storage_error) cl = stop (with_spool d cl)

abbrev after_publish : Turn → Cloud × Bool → Next
after_publish turn (cl, true) = pop_sent (popleft turn.pop_db cl.spool) cl
after_publish turn (cl, false) = stop cl

module _ (c : Codec) where
  abbrev on_decoded : Turn → Option Publish → Cloud → Next
  on_decoded turn none cl = pop_corrupt (popleft turn.pop_db cl.spool) cl
  on_decoded turn (some m) cl = after_publish turn (publish_cloud_message turn.send_ok m cl)

  abbrev on_peeked : Turn → Deque × Outcome Bytes → Cloud → Next
  on_peeked turn (d, returns encoded) cl = on_decoded turn (c.decode encoded) (with_spool d cl)
  on_peeked turn (d, index_error) cl = stop (with_spool d cl)
  on_peeked turn (d, storage_error) cl = stop (degrade (with_spool d cl))

  unfoldable pub flush_turn : Turn → Cloud → Next
  flush_turn turn cl = on_peeked turn (peek turn.peek_db cl.spool) cl

  -- Every turn that goes on removes a message, so that the count of the spool is fuel enough.
  unfoldable pub flush_loop : ℕ → (ℕ → Turn) → Cloud → Cloud
  unfolding flush_turn
  flush_loop zero turns cl = cl
  flush_loop (suc left) turns cl =
      if cl.spool.count == 0 then cl else elim (flush_turn (turns left) cl) [
        | again cl' ↦ flush_loop left turns cl'
        | stop cl' ↦ cl'
      ]

  abbrev pub settle : Cloud → Cloud
  settle cl = record cl { cloud_spool_pending_messages = cl.spool.count }

  -- The vacuum behind it changes no row.
  unfoldable pub flush_cloud_spool : (ℕ → Turn) → Cloud → Cloud
  unfolding flush_loop
  flush_cloud_spool turns cl =
      if cl.connected then settle (flush_loop cl.spool.count turns cl) else cl

  abbrev trimmed : Deque × Outcome Bytes → Cloud → Next
  trimmed (d, returns item) cl =
      again (record cl { spool = d; cloud_spool_dropped_limit = cl.cloud_spool_dropped_limit + 1 })
  trimmed (d, index_error) cl = stop (with_spool d cl)
  trimmed (d, storage_error) cl = stop (with_spool d cl)

  -- The loop that makes room; the count of the spool is fuel enough.
  unfoldable pub trim_loop : ℕ → (ℕ → Database) → Cloud → Cloud
  trim_loop zero dbs cl = cl
  trim_loop (suc left) dbs cl =
      if leb cl.cloud_queue_limit cl.spool.count
      then elim (trimmed (popleft (dbs left) cl.spool) cl) [
        | again cl' ↦ trim_loop left dbs cl'
        | stop cl' ↦ cl'
      ]
      else cl

  abbrev count_trim : Cloud → Cloud
  count_trim cl =
      if ltb 0 cl.cloud_spool_dropped_limit
      then record cl { cloud_spool_trim_events = cl.cloud_spool_trim_events + 1 }
      else cl

  abbrev pub make_room : (ℕ → Database) → Cloud → Cloud
  make_room dbs cl =
      if ltb 0 cl.cloud_queue_limit then count_trim (trim_loop cl.spool.count dbs cl) else cl

  abbrev pub spooled : Deque × Outcome Bytes → Cloud → Cloud × Bool
  spooled (d, returns item) cl = (
    record cl { spool = d; cloud_spool_degraded = false; cloud_spool_pending_messages = d.count },
    true,
  )
  spooled (d, index_error) cl = (with_spool d cl, false)
  spooled (d, storage_error) cl = (degrade (with_spool d cl), false)

  unfoldable pub spool_cloud_message : (ℕ → Database) → Database → Publish → Cloud → Cloud × Bool
  unfolding trim_loop
  spool_cloud_message dbs db m cl =
      let roomy = make_room dbs cl in spooled (append db (c.encode m) roomy.spool) roomy

  abbrev or_drop : Publish → Cloud × Bool → Cloud
  or_drop m (cl, true) = cl
  or_drop m (cl, false) = record_cloud_drop m.topic_name cl

  abbrev or_spool : (ℕ → Database) → Database → Publish → Cloud × Bool → Cloud
  or_spool dbs db m (cl, true) = cl
  or_spool dbs db m (cl, false) = or_drop m (spool_cloud_message dbs db m cl)

  abbrev pub numbered : ℕ → Option (Option Publish) → Option (ℕ × Option Publish)
  numbered number none = none
  numbered number (some held) = some (number, held)

  abbrev held_by : List (Option Publish) → Option ℕ → Option (ℕ × Option Publish)
  held_by queues none = none
  held_by queues (some number) = numbered number (get_elem? queues number)

  -- The queue of the client that waits for an answer with this correlation, by its number, and what it
  -- holds; none if there is none. An empty correlation is not looked up.
  abbrev pub waiting : Publish → Cloud → Option (ℕ × Option Publish)
  waiting m cl = elim m.correlation_data [
    | none ↦ none
    | some key ↦ if is_empty key then none else held_by cl.ipc_queues (lookup key cl.ipc_requests)
  ]

  abbrev publish_to_console : Publish → Cloud → Cloud
  publish_to_console m cl =
      if contains_text (codes "console") m.topic_name
      then record cl { console_queues = map (λ q. q ++ (m ∷ [])) cl.console_queues }
      else cl

  -- The message is in `cloud_publish_queue` from here to the end, so that its size is as before.
  abbrev pub to_cloud : (ℕ → Turn) → Bool → (ℕ → Database) → Database → Publish → Cloud → Cloud
  to_cloud turns send_ok dbs db m cl =
      or_spool dbs db m (publish_cloud_message send_ok m (flush_cloud_spool turns cl))

  abbrev is_full : Cloud → Bool
  is_full cl = ltb 0 cl.cloud_queue_limit && leb cl.cloud_queue_limit cl.cloud_publish_queue

  abbrev pub answer_or_publish :
      (ℕ → Turn)
      → Bool
      → (ℕ → Database)
      → Database
      → Publish
      → Cloud
      → Option (ℕ × Option Publish)
      → Cloud × Bool
  answer_or_publish turns send_ok dbs db m cl (some (number, none)) =
      (record cl { ipc_queues = set_elem number (some m) cl.ipc_queues }, false)
  answer_or_publish turns send_ok dbs db m cl (some (number, some earlier)) = (cl, true)
  answer_or_publish turns send_ok dbs db m cl none =
      if is_full cl
      then (publish_to_console m cl, true)
      else (to_cloud turns send_ok dbs db m (publish_to_console m cl), false)

  -- `message` is the message with its reply context resolved. The truth value tells that `QueueFull`
  -- was raised.
  unfoldable pub enqueue_cloud :
      (ℕ → Turn) → Bool → (ℕ → Database) → Database → Publish → Cloud → Cloud × Bool
  unfolding flush_cloud_spool publish_cloud_message spool_cloud_message record_cloud_drop
  enqueue_cloud turns send_ok dbs db message cl =
      answer_or_publish turns send_ok dbs db message cl (waiting message cl)
