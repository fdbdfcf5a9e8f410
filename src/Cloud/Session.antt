-- ===== src/Cloud/Session.antt =====
-- The local clients in mcubridge/mcubridge/services/runtime.py: `LocalBridgeService`. What the other tasks
-- do while a call handles its request, and while it waits for the answer, are functions on the cloud.
use arduino_yun_bridge.Base.{get_elem?, length, ◌∷◌, some, none, ◌++◌, Option, Bytes, []}
use arduino_yun_bridge.Base.Assoc.{insert, remove, text_key}
use arduino_yun_bridge.Cloud.{Cloud, Publish}
use arduino_yun_bridge.Service.Pins.{Request}

-- `pb.CloudQueuedPublish()`
abbrev pub empty_publish : Publish
empty_publish = record {
  topic_name = [];
  payload = [];
  correlation_data = none;
  user_properties = [];
}

-- `fresh` is what `secrets.token_bytes` returns.
unfoldable pub local_request : Bytes → Publish → Request
local_request fresh m = record {
  topic = m.topic_name;
  payload = m.payload;
  correlation_data = some (elim m.correlation_data [ none ↦ fresh | some key ↦ key ]);
  response_topic = none;
}

-- A new queue, registered under the correlation.
abbrev pub register : Bytes → Cloud → Cloud
register key cl = record cl {
  ipc_requests = insert key (length cl.ipc_queues) cl.ipc_requests;
  ipc_queues = cl.ipc_queues ++ (none ∷ []);
}

-- `ipc_requests.pop(key, None)`
abbrev pub unregister : Bytes → Cloud → Cloud
unregister key cl = record cl { ipc_requests = remove key cl.ipc_requests }

-- What the client receives: the answer, if it is in the queue in time.
abbrev pub taken : Option (Option Publish) → Publish
taken none = empty_publish
taken (some none) = empty_publish
taken (some (some m)) = m

-- The handling of the request, then the wait for the answer of a client that gives a correlation.
abbrev pub publish_for : Option Bytes → (Cloud → Cloud) → (Cloud → Cloud) → Cloud → Cloud × Publish
publish_for none handle wait cl = (handle cl, empty_publish)
publish_for (some key) handle wait cl =
    let waited = wait (handle (register key cl)) in
    (unregister key waited, taken (get_elem? waited.ipc_queues (length cl.ipc_queues)))

-- `Publish`. The first function is the handling of the request, the second the wait. A connection that is
-- closed meanwhile changes no more than what the client receives.
unfoldable pub publish :
    Bytes → (Request → Cloud → Cloud) → (Cloud → Cloud) → Publish → Cloud → Cloud × Publish
unfolding local_request
publish fresh handle wait m cl =
    publish_for m.correlation_data (handle (local_request fresh m)) wait cl

-- `SubscribeConsole`: the queue of a new client.
unfoldable pub subscribe_console : Cloud → Cloud
subscribe_console cl = record cl { console_queues = cl.console_queues ++ ([] ∷ []) }
