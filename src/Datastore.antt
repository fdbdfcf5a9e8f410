-- ===== src/Datastore.antt =====
-- The datastore and the mailbox in mcubridge/mcubridge/services/runtime.py: the handlers of the MCU's
-- frames and of the cloud's requests. The packets that go to the MCU and the messages that are handed
-- to `enqueue_cloud` are kept in lists, the last one first. The serial link is up. A database that
-- fails twice raises out of every handler, which `raised` records.
mod Laws
use arduino_yun_bridge.Base.{
  ℕ, ◌+◌, Bool, true, false, ◌&&◌, not, Option, none, some, List, [], ◌∷◌, ◌++◌, leb, ltb,
  if◌then◌else◌, is_empty, Bytes, Text, codes, text_eq, take, length,
}
use arduino_yun_bridge.Protocol.Command
use arduino_yun_bridge.Storage.{
  Database, works, fails_once, fails, Outcome, returns, index_error, storage_error, Deque, append,
  popleft, cache_set, cache_get, cache_find,
}
use arduino_yun_bridge.Topics.{join}

-- A message for the cloud: the value of a key, with its error text; or data of the mailbox.
pub data Message : Type 0 where
  datastore_value : Text → Bytes → Option Text → Message
  mailbox_data : Bytes → Message

pub record Exchange : Type 0 where
  pub datastore_cache : Option (List (Text × Bytes))
  pub mailbox_queue : Deque
  pub mailbox_incoming_queue : Deque
  -- the command and the value of each packet
  pub to_mcu : List (ℕ × Bytes)
  pub to_cloud : List Message
  pub raised : Bool

abbrev publish : Message → Exchange → Exchange
publish m s = record s { to_cloud = m ∷ s.to_cloud }

abbrev send : ℕ → Bytes → Exchange → Exchange
send command_id value s = record s { to_mcu = (command_id, value) ∷ s.to_mcu }

abbrev put_in : Database → Text → Bytes → Exchange → Exchange × Bool
put_in db key value s = elim s.datastore_cache [
  | none ↦ (s, true)
  | some rows ↦
      let (rows', out) = cache_set db key value rows in
      elim out [
        | returns v ↦ (record s { datastore_cache = some rows' }, true)
        | index_error ↦ (record s { datastore_cache = some rows' }, true)
        | storage_error ↦ (record s { datastore_cache = some rows'; raised = true }, false)
      ]
]

abbrev publish_if : Message → Exchange × Bool → Exchange
publish_if m (s, true) = publish m s
publish_if m (s, false) = s

unfoldable pub on_mcu_datastore_put : Database → Text → Bytes → Exchange → Exchange
unfolding cache_set
on_mcu_datastore_put db key value s =
    publish_if (datastore_value key value none) (put_in db key value s)

-- The cache of a false truth value does not exist, so that any cache is asked.
unfoldable pub on_mcu_datastore_get : Database → Text → Exchange → Exchange
unfolding cache_get
on_mcu_datastore_get db key s = elim s.datastore_cache [
  | none ↦ send Command.datastore_get_resp [] s
  | some rows ↦
      let (rows', value) = cache_get db key [] rows in
      send Command.datastore_get_resp (take 255 value) (record s { datastore_cache = some rows' })
]

-- `len(key.encode())`: UTF-8
unfoldable pub encoded_length : Text → ℕ
encoded_length [] = 0
encoded_length (c ∷ cs) =
    let rest = encoded_length cs in
    (if ltb c 128 then 1 else if ltb c 2048 then 2 else if ltb c 65536 then 3 else 4) + rest

-- The PUT request of the cloud; `remainder` is what follows the action in the topic.
unfoldable pub handle_datastore_put : Database → List Text → Bytes → Exchange → Exchange
unfolding on_mcu_datastore_put encoded_length
handle_datastore_put db remainder payload s =
    let key = join remainder in
    if is_empty key
    then s
    else if leb (encoded_length key) 255 && leb (length payload) 255
    then on_mcu_datastore_put db key payload s
    else s

abbrev ends_in_request : List Text → Bool
ends_in_request [] = false
ends_in_request (t ∷ []) = text_eq t (codes "request")
ends_in_request (t ∷ u ∷ ts) = ends_in_request (u ∷ ts)

abbrev publish_found : List Text → Option Bytes → Exchange → Exchange
publish_found remainder (some value) s = publish (datastore_value (join remainder) value none) s
publish_found remainder none s =
    if ends_in_request remainder
    then publish (datastore_value (join remainder) [] (some (codes "datastore-miss"))) s
    else s

-- The GET request of the cloud.
unfoldable pub handle_datastore_get : Database → List Text → Exchange → Exchange
unfolding cache_find
handle_datastore_get db remainder s =
    if is_empty (join remainder) then s else elim s.datastore_cache [
      | none ↦ publish_found remainder none s
      | some rows ↦
          let (rows', value) = cache_find db (join remainder) rows in
          publish_found remainder value (record s { datastore_cache = some rows' })
    ]

abbrev fetched : Deque × Outcome Bytes → Option Bytes
fetched (d, returns item) = some item
fetched (d, index_error) = some []
fetched (d, storage_error) = none

unfoldable pub on_mcu_mailbox_push : Database → Bytes → Exchange → Exchange
on_mcu_mailbox_push db item s =
    let (d, out) = append db item s.mailbox_incoming_queue in
    let s' = record s { mailbox_incoming_queue = d } in
    elim out [
      | returns v ↦ publish (mailbox_data item) s'
      | index_error ↦ s'
      | storage_error ↦ record s' { raised = true }
    ]

-- The count of the answer.
unfoldable pub on_mcu_mailbox_available : Exchange → ℕ
on_mcu_mailbox_available s = s.mailbox_queue.count

unfoldable pub on_mcu_mailbox_read : Database → Exchange → Exchange
on_mcu_mailbox_read db s =
    let (d, out) = popleft db s.mailbox_queue in
    let s' = record s { mailbox_queue = d } in
    elim (fetched (d, out)) [
      | none ↦ record s' { raised = true }
      | some content ↦ send Command.mailbox_read_resp content s'
    ]

-- The WRITE and the READ request of the cloud.
unfoldable pub handle_mailbox_write : Database → Bytes → Exchange → Exchange
handle_mailbox_write db payload s =
    let (d, out) = append db payload s.mailbox_queue in
    let s' = record s { mailbox_queue = d } in
    elim out [
      | returns v ↦ send Command.mailbox_push payload s'
      | index_error ↦ s'
      | storage_error ↦ record s' { raised = true }
    ]

unfoldable pub handle_mailbox_read : Database → Exchange → Exchange
handle_mailbox_read db s =
    let (d, out) = popleft db s.mailbox_incoming_queue in
    let s' = record s { mailbox_incoming_queue = d } in
    elim (fetched (d, out)) [
      | none ↦ record s' { raised = true }
      | some content ↦ publish (mailbox_data content) s'
    ]
