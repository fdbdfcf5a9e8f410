-- ===== src/Cloud/Tests.antt =====
-- A spool of two messages whose text is the payload.
use arduino_yun_bridge.Base.{
  arith, zero, suc, drop-append, suc, take-append, drop, length, ◌==◌, map, codes, take, Text, ℕ,
  ◌≡◌, refl, true, false, none, some, List, [], ◌∷◌, ◌++◌, Option, Bytes,
}
use arduino_yun_bridge.Base.Assoc.{lookup, text_key}
use arduino_yun_bridge.Base.Ints.{to_bytes_be}
use arduino_yun_bridge.Service.Pins.{Request}
use arduino_yun_bridge.Cloud.Context.{
  command_response, resolve_cloud_context, envelope_of, request_of, command_request, Envelope,
}
use arduino_yun_bridge.Cloud.Session.{register, unregister, publish, local_request}
use arduino_yun_bridge.Cloud.Answers.{answers_with, answer_has_sequence, publish_answers_client}
use arduino_yun_bridge.Topics.{lstrip, rstrip}
use arduino_yun_bridge.Storage.{works}
use arduino_yun_bridge.Cloud.{Publish, Codec, IsCodec, Cloud, Turn, flush_cloud_spool}
use arduino_yun_bridge.Cloud.Flush.{IsQueued, IsFlushed, flush-IsFlushed, flush_empties}

-- Each part behind its length; none for a correlation is 0, and some behind 1.
abbrev write_text : Text → Bytes → Bytes
write_text t rest = length t ∷ (t ++ rest)

abbrev write_pairs : List (Text × Text) → Bytes
write_pairs [] = []
write_pairs ((k, v) ∷ ps) = write_text k (write_text v (write_pairs ps))

abbrev write : Publish → Bytes
write m = write_text m.topic_name (
    write_text m.payload (elim m.correlation_data [
      | none ↦ 0 ∷ (length m.user_properties ∷ write_pairs m.user_properties)
      | some key ↦ 1 ∷ write_text key (length m.user_properties ∷ write_pairs m.user_properties)
    ]))

abbrev text_of : Bytes → Text
text_of [] = []
text_of (n ∷ rest) = take n rest

abbrev behind_text : Bytes → Bytes
behind_text [] = []
behind_text (n ∷ rest) = drop n rest

abbrev read_pairs : ℕ → Bytes → List (Text × Text)
read_pairs zero rest = []
read_pairs (suc k) rest =
    (text_of rest, text_of (behind_text rest)) ∷ read_pairs k (behind_text (behind_text rest))

abbrev counted_pairs : Bytes → List (Text × Text)
counted_pairs [] = []
counted_pairs (k ∷ rest) = read_pairs k rest

abbrev message_of : Text → Bytes → Bytes → Option Publish
message_of topic payload [] = none
message_of topic payload (zero ∷ rest) = some record {
  topic_name = topic;
  payload = payload;
  correlation_data = none;
  user_properties = counted_pairs rest;
}
message_of topic payload (suc n ∷ rest) = some record {
  topic_name = topic;
  payload = payload;
  correlation_data = some (text_of rest);
  user_properties = counted_pairs (behind_text rest);
}

abbrev read : Bytes → Option Publish
read bytes =
    message_of (text_of bytes) (text_of (behind_text bytes)) (behind_text (behind_text bytes))

take_text : (t : Text) (rest : Bytes) → take (length t) (t ++ rest) ≡ t
take_text t rest = take-append (length t) t rest refl

drop_text : (t : Text) (rest : Bytes) → drop (length t) (t ++ rest) ≡ rest
drop_text t rest = drop-append (length t) t rest refl

read-write_pairs : (ps : List (Text × Text)) → read_pairs (length ps) (write_pairs ps) ≡ ps
read-write_pairs [] = refl
read-write_pairs ((k, v) ∷ ps) =
    let rest = write_pairs ps in
    let tail = write_text v rest in
    rw (take_text k tail, drop_text k tail, take_text v rest, drop_text v rest, read-write_pairs ps)
      refl

read-write_correlation :
    (topic : Text) (payload : Bytes) (key : Option Bytes) (ps : List (Text × Text))
    → message_of topic payload (elim key [
      | none ↦ 0 ∷ (length ps ∷ write_pairs ps)
      | some k ↦ 1 ∷ write_text k (length ps ∷ write_pairs ps)
    ])
      ≡ some record {
        topic_name = topic;
        payload = payload;
        correlation_data = key;
        user_properties = ps;
      }
read-write_correlation topic payload none ps = rw (read-write_pairs ps) refl
read-write_correlation topic payload (some k) ps =
    let rest = length ps ∷ write_pairs ps in
    rw (take_text k rest, drop_text k rest, read-write_pairs ps) refl

read-write : (m : Publish) → read (write m) ≡ some m
read-write m =
    let coda : Bytes = elim m.correlation_data [
      | none ↦ 0 ∷ (length m.user_properties ∷ write_pairs m.user_properties)
      | some key ↦ 1 ∷ write_text key (length m.user_properties ∷ write_pairs m.user_properties)
    ] in
    let tail = write_text m.payload coda in
    rw
      (
        take_text m.topic_name tail,
        drop_text m.topic_name tail,
        take_text m.payload coda,
        drop_text m.payload coda,
      )
      (read-write_correlation m.topic_name m.payload m.correlation_data m.user_properties)

abbrev pub code : Codec
code = record { encode = write; decode = read }

pub code-IsCodec : IsCodec code
code-IsCodec = record { decode-encode = read-write }

abbrev first : Publish
first = record {
  topic_name = codes "br/d/13/value";
  payload = 49 ∷ [];
  correlation_data = none;
  user_properties = [];
}

abbrev second : Publish
second = record {
  topic_name = codes "br/system/status";
  payload = [];
  correlation_data = some (1 ∷ 2 ∷ []);
  user_properties = (codes "a", codes "bc") ∷ [];
}

abbrev both : List Publish
both = first ∷ second ∷ []

abbrev cloud : Cloud
cloud = record {
  connected = true;
  cloud_queue_limit = 8;
  spool = record { in_file = true; rows = map code.encode both; count = 2; maxlen = some 8 };
  cloud_spool_degraded = false;
  cloud_spool_pending_messages = 2;
  cloud_spool_dropped_limit = 0;
  cloud_spool_trim_events = 0;
  cloud_spool_corrupt_dropped = 0;
  cloud_drop_counts = [];
  cloud_dropped_messages = 0;
  ipc_requests = [];
  ipc_queues = [];
  console_queues = [];
  cloud_publish_queue = 0;
  sent = [];
}

cloud-IsQueued : IsQueued code both cloud
cloud-IsQueued = record { file = refl; rows = refl; counted = refl }

-- The first send, with two messages left, works; the second, with one left, fails.
abbrev half : ℕ → Turn
half n = record { peek_db = works; pop_db = works; send_ok = n == 1 }

abbrev fine : ℕ → Turn
fine n = record { peek_db = works; pop_db = works; send_ok = true }

flush-IsFlushed_example : IsFlushed code both cloud (flush_cloud_spool code half cloud)
flush-IsFlushed_example =
    flush-IsFlushed code code-IsCodec both half cloud (λ n. (refl, refl)) refl cloud-IsQueued

flush_empties_example :
    ((flush_cloud_spool code fine cloud).spool.rows ≡ [])
    × ((flush_cloud_spool code fine cloud).cloud_spool_pending_messages ≡ 0)
    × ((flush_cloud_spool code fine cloud).sent ≡ both)
flush_empties_example =
    flush_empties code code-IsCodec both fine cloud (λ n. ((refl, refl), refl)) refl cloud-IsQueued

abbrev command : Envelope
command = record {
  protocol_version = 2;
  device_id = codes "yun";
  sequence_id = 513;
  content = command_request (codes "d/13/read") [];
}

abbrev command_q : Request
command_q = record {
  topic = codes "br/d/13/read";
  payload = [];
  correlation_data = some (0 ∷ 0 ∷ 0 ∷ 0 ∷ 0 ∷ 0 ∷ 2 ∷ 1 ∷ []);
  response_topic = some (codes "cloud");
}

command_requests : request_of (codes "br") command ≡ some command_q
unfolding request_of to_bytes_be rstrip lstrip
command_requests = refl

answer_has_sequence_example :
    envelope_of (codes "yun") (resolve_cloud_context first (some command_q)) ≡ record {
      protocol_version = 2;
      device_id = codes "yun";
      sequence_id = 513;
      content = command_response 200 (49 ∷ []);
    }
answer_has_sequence_example =
    answer_has_sequence (codes "br") (codes "yun") command command_q first (omega arith)
      command_requests

abbrev plain_work : Cloud → Cloud
plain_work cl = cl

publish_answers_client_example :
    (publish []
        (answers_with code plain_work fine true (λ n. works) works first)
        (λ x. x)
        second
        cloud
      ≡ (
        unregister (1 ∷ 2 ∷ []) (record (register (1 ∷ 2 ∷ []) cloud) {
          ipc_queues = some (resolve_cloud_context first (some (local_request [] second))) ∷ [];
        }),
        resolve_cloud_context first (some (local_request [] second)),
      ))
    × (lookup
          (1 ∷ 2 ∷ [])
          (publish []
            (answers_with code plain_work fine true (λ n. works) works first)
            (λ x. x)
            second
            cloud).0.ipc_requests
        ≡ none)
publish_answers_client_example =
    publish_answers_client code [] plain_work fine true (λ n. works) works second first 1 (2 ∷ [])
      cloud (record { requests = λ cl. refl; queues = λ cl. refl }) refl

abbrev spool_empty : Cloud
spool_empty = record cloud {
  spool = record { in_file = true; rows = []; count = 0; maxlen = some 8 };
}
