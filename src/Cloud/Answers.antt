-- ===== src/Cloud/Answers.antt =====
-- An answer goes to whom the request came from.
use arduino_yun_bridge.Base.{
  ◌∙◌, text_eq_refl, ap, ◌++◌, set_elem, get_elem?, Option, Bool, List, refl, ◌∷◌, [], none, some,
  take_all, arith, take, ◌^◌, some, length, ◌≡◌, ◌<◌, ◌≤◌, Text, Bytes, ℕ,
}
use arduino_yun_bridge.Base.Assoc.{lookup, lookup-insert, lookup-remove, text_key}
use arduino_yun_bridge.Base.Ints.{to_bytes_be, from_bytes_be, from-to_bytes_be, length-to_bytes_be}
use arduino_yun_bridge.Cloud.{waiting, Database, enqueue_cloud, Turn, Codec, Cloud, Publish}
use arduino_yun_bridge.Cloud.Session.{
  publish_for, taken, unregister, register, publish, local_request,
}
use arduino_yun_bridge.Cloud.Context.{
  command_response, resolve_cloud_context, request_of, envelope_of, Envelope,
}
use arduino_yun_bridge.Service.Pins.{Request}

response_of :
    (device_id : Text) (payload key : Bytes) (m : Publish)
    → 1 ≤ length key
    → m.correlation_data ≡ some key
    → m.payload ≡ payload
    → envelope_of device_id m ≡ record {
      protocol_version = 2;
      device_id = device_id;
      sequence_id = from_bytes_be (take 8 key);
      content = command_response 200 payload;
    }
unfolding envelope_of
response_of device_id payload [] m h e p = absurd (omega arith)
response_of device_id payload (b ∷ bs) m h e p = rw (e, p) refl

resolve-correlation :
    (m : Publish) (q : Request) (key : Bytes)
    → q.correlation_data ≡ some key
    → ((resolve_cloud_context m (some q)).correlation_data ≡ some key)
      × ((resolve_cloud_context m (some q)).payload ≡ m.payload)
resolve-correlation m q key e = unfold resolve_cloud_context in ground (arith, e)

requested :
    (prefix : Text) (e : Envelope) (q : Request)
    → request_of prefix e ≡ some q
    → q.correlation_data ≡ some (to_bytes_be 8 e.sequence_id)
requested prefix e q made = unfold request_of in ground (arith, made)

-- An answer to a command of the cloud, whatever it says, goes out as a command response with the
-- sequence id of that command, which is below 2 ^ 64, and with the answer's payload.
pub answer_has_sequence :
    (prefix device_id : Text) (e : Envelope) (q : Request) (answer : Publish)
    → e.sequence_id < 256 ^ 8
    → request_of prefix e ≡ some q
    → envelope_of device_id (resolve_cloud_context answer (some q)) ≡ record {
      protocol_version = 2;
      device_id = device_id;
      sequence_id = e.sequence_id;
      content = command_response 200 answer.payload;
    }
answer_has_sequence prefix device_id e q answer small made =
    let key = to_bytes_be 8 e.sequence_id in
    let full = length-to_bytes_be 8 e.sequence_id in
    let r = resolve-correlation answer q key (requested prefix e q made) in
    let same =
      response_of device_id answer.payload key (resolve_cloud_context answer (some q))
        (omega (arith, full)) r.0 r.1 in
    rw (same, take_all 8 key (omega (arith, full)), from-to_bytes_be 8 e.sequence_id small) refl

module _ (c : Codec) where
  -- The handling of a request by one answer to it, after other work that leaves the clients' queues alone.
  abbrev pub answers_with :
      (Cloud → Cloud)
      → (ℕ → Turn)
      → Bool
      → (ℕ → Database)
      → Database
      → Publish
      → Request
      → Cloud
      → Cloud
  answers_with work turns send_ok dbs db answer q cl =
      (enqueue_cloud c turns send_ok dbs db (resolve_cloud_context answer (some q)) (work cl)).0

  pub record LeavesQueues (work : Cloud → Cloud) : Type 0 where
    pub requests : (cl : Cloud) → (work cl).ipc_requests ≡ cl.ipc_requests
    pub queues : (cl : Cloud) → (work cl).ipc_queues ≡ cl.ipc_queues

  answered :
      (m : Publish) (number : ℕ) (turns : ℕ → Turn) (send_ok : Bool) (dbs : ℕ → Database)
      (db : Database) (cl : Cloud)
      → waiting c m cl ≡ some (number, none)
      → (enqueue_cloud c turns send_ok dbs db m cl).0
        ≡ record cl { ipc_queues = set_elem number (some m) cl.ipc_queues }
  unfolding enqueue_cloud
  answered m number turns send_ok dbs db cl e = rw e refl

  new_queue :
      (queues : List (Option Publish))
      → get_elem? (queues ++ (none ∷ [])) (length queues) ≡ some none
  new_queue [] = refl
  new_queue (queue ∷ queues) = new_queue queues

  set_new :
      (m : Publish) (queues : List (Option Publish))
      → set_elem (length queues) (some m) (queues ++ (none ∷ [])) ≡ queues ++ (some m ∷ [])
  set_new m [] = refl
  set_new m (queue ∷ queues) = ap (λ r. queue ∷ r) (set_new m queues)

  get_new :
      (m : Publish) (queues : List (Option Publish))
      → get_elem? (queues ++ (some m ∷ [])) (length queues) ≡ some (some m)
  get_new m [] = refl
  get_new m (queue ∷ queues) = get_new m queues

  waiting_new :
      (m : Publish) (b : ℕ) (bs : Bytes) (cl after : Cloud)
      → m.correlation_data ≡ some (b ∷ bs)
      → after.ipc_requests ≡ (register (b ∷ bs) cl).ipc_requests
      → after.ipc_queues ≡ (register (b ∷ bs) cl).ipc_queues
      → waiting c m after ≡ some (length cl.ipc_queues, none)
  waiting_new m b bs cl after e r q =
      rw
        (
          e,
          r,
          q,
          lookup-insert (b ∷ bs) (b ∷ bs) (length cl.ipc_queues) cl.ipc_requests,
          text_eq_refl (b ∷ bs),
          new_queue cl.ipc_queues,
        )
        refl

  waits :
      (fresh key : Bytes) (work : Cloud → Cloud) (turns : ℕ → Turn) (send_ok : Bool)
      (dbs : ℕ → Database) (db : Database) (m answer : Publish) (b : ℕ) (bs : Bytes) (cl : Cloud)
      → LeavesQueues work
      → m.correlation_data ≡ some (b ∷ bs)
      → answers_with work turns send_ok dbs db answer (local_request fresh m) (register (b ∷ bs) cl)
        ≡ record (work (register (b ∷ bs) cl)) {
          ipc_queues =
              cl.ipc_queues
              ++ (some (resolve_cloud_context answer (some (local_request fresh m))) ∷ []);
        }
  waits fresh key work turns send_ok dbs db m answer b bs cl leaves e =
      let k = b ∷ bs in
      let begun = work (register k cl) in
      let q = local_request fresh m in
      let reply = resolve_cloud_context answer (some q) in
      let keyed : q.correlation_data ≡ some k = unfold local_request in rw e refl in
      let r = resolve-correlation answer q k keyed in
      let found =
        waiting_new reply b bs cl begun r.0 (leaves.requests (register k cl))
          (leaves.queues (register k cl)) in
      answered reply (length cl.ipc_queues) turns send_ok dbs db begun found
      ∙ ap (λ queues. record begun { ipc_queues = queues })
          (ap (set_elem (length cl.ipc_queues) (some reply)) (leaves.queues (register k cl))
            ∙ set_new reply cl.ipc_queues)

  publish_keyed :
      (fresh : Bytes) (handle : Request → Cloud → Cloud) (m : Publish) (key : Bytes) (cl : Cloud)
      → m.correlation_data ≡ some key
      → publish fresh handle (λ x. x) m cl ≡ (
        unregister key (handle (local_request fresh m) (register key cl)),
        taken (
            get_elem?
              (handle (local_request fresh m) (register key cl)).ipc_queues
              (length cl.ipc_queues)),
      )
  unfolding publish
  publish_keyed fresh handle m key cl e =
      ap (λ o. publish_for o (handle (local_request fresh m)) (λ x. x) cl) e

  -- A local client that gives a correlation, of one byte at least, receives the answer to its request, and
  -- nobody else does, if the other work of the request leaves the clients' queues alone and nothing else
  -- happens: the queues of the other clients are as before, and all else, the queues of the console
  -- subscribers, what is sent and what is spooled, is as that other work left it. The correlation is free
  -- again after that.
  pub publish_answers_client :
      (fresh : Bytes) (work : Cloud → Cloud) (turns : ℕ → Turn) (send_ok : Bool)
      (dbs : ℕ → Database) (db : Database) (m answer : Publish) (b : ℕ) (bs : Bytes) (cl : Cloud)
      → LeavesQueues work
      → m.correlation_data ≡ some (b ∷ bs)
      → let reply = resolve_cloud_context answer (some (local_request fresh m)) in
        let worked = work (register (b ∷ bs) cl) in
        (publish fresh (answers_with work turns send_ok dbs db answer) (λ x. x) m cl ≡ (
          unregister (b ∷ bs) (record worked { ipc_queues = cl.ipc_queues ++ (some reply ∷ []) }),
          reply,
        ))
        × (lookup
              (b ∷ bs)
              (publish fresh
                (answers_with work turns send_ok dbs db answer)
                (λ x. x)
                m
                cl).0.ipc_requests
            ≡ none)
  publish_answers_client fresh work turns send_ok dbs db m answer b bs cl leaves e =
      let done = waits fresh [] work turns send_ok dbs db m answer b bs cl leaves e in
      let q = resolve_cloud_context answer (some (local_request fresh m)) in
      let keyed =
        publish_keyed fresh (answers_with work turns send_ok dbs db answer) m (b ∷ bs) cl e in
      rw (keyed, done, get_new q cl.ipc_queues)
        (
          refl,
          rw
              (
                lookup-remove (b ∷ bs) (b ∷ bs) (work (register (b ∷ bs) cl)).ipc_requests,
                text_eq_refl (b ∷ bs),
              )
              refl,
        )
