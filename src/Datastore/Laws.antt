-- ===== src/Datastore/Laws.antt =====
-- What is put into the datastore or the mailbox is what comes out.
use arduino_yun_bridge.Base.{◌≡◌, none, some, List, [], ◌∷◌, arith, Bytes, Text, take}
use arduino_yun_bridge.Base.Assoc.{text_key, lookup-insert, beq_refl}
use arduino_yun_bridge.Protocol.Command
use arduino_yun_bridge.Storage.{works, append, popleft}
use arduino_yun_bridge.Storage.Fifo.{IsCounted}
use arduino_yun_bridge.Datastore.{
  Exchange, on_mcu_datastore_put, on_mcu_datastore_get, on_mcu_mailbox_available,
  on_mcu_mailbox_read, handle_mailbox_write,
}

-- Where there is a cache and its database works, a value that the MCU puts under a key is what it then
-- gets for that key, cut to 255 bytes.
pub get-put :
    (key : Text) (value : Bytes) (rows : List (Text × Bytes)) (s : Exchange)
    → s.datastore_cache ≡ some rows
    → (on_mcu_datastore_get works key (on_mcu_datastore_put works key value s)).to_mcu
      ≡ (Command.datastore_get_resp, take 255 value) ∷ s.to_mcu
get-put key value rows s cached =
    let found = lookup-insert key key value rows in
    let same = beq_refl key in
    unfold on_mcu_datastore_put on_mcu_datastore_get in ground (arith, found, same)

-- A message that the cloud writes into an empty mailbox without a limit, in a file whose database works,
-- is announced to the MCU, counted as one, and read by the MCU, which leaves the mailbox empty.
pub read-write :
    (payload : Bytes) (s : Exchange)
    → IsCounted s.mailbox_queue
    → s.mailbox_queue.rows ≡ []
    → s.mailbox_queue.maxlen ≡ none
    → let written = handle_mailbox_write works payload s in
      let read = on_mcu_mailbox_read works written in
      (on_mcu_mailbox_available written ≡ 1)
      × (read.to_mcu
          ≡ (Command.mailbox_read_resp, payload) ∷ (Command.mailbox_push, payload) ∷ s.to_mcu)
      × (on_mcu_mailbox_available read ≡ 0)
      × (read.mailbox_queue.rows ≡ [])
read-write payload s i empty unlimited =
    unfold handle_mailbox_write on_mcu_mailbox_read on_mcu_mailbox_available append popleft in
    ground arith
