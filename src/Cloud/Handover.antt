-- ===== src/Cloud/Handover.antt =====
-- What `enqueue_cloud` makes of a message that no local client waits for: it goes out behind the spool, or
-- into it.
use arduino_yun_bridge.Base.{
  ◌++◌, ◌&&◌, ◌≤◌, ◌+◌, suc, Bool, true, false, [], ◌∷◌, List, length, ◌≡◌,
}
use arduino_yun_bridge.Base.Assoc.{text_key}
use arduino_yun_bridge.Cloud.{Cloud, Codec, Publish}
use arduino_yun_bridge.Cloud.Flush.{others, IsQueued}

module _ (c : Codec) where
  -- Behind a send that works, the message is sent last, and nothing was trimmed; else it is the last one in
  -- the spool, which is within its limit.
  abbrev pub IsEnded :
      Bool → Publish → List Publish → List Publish → List Publish → Cloud → Cloud → Type 0
  IsEnded true m done lost rest before after =
      (after.sent ≡ (before.sent ++ done) ++ (m ∷ [])) × IsQueued c rest after × (lost ≡ [])
  IsEnded false m done lost rest before after =
      (after.sent ≡ before.sent ++ done)
      × IsQueued c (rest ++ (m ∷ [])) after
      × (suc (length rest) ≤ before.cloud_queue_limit)

  -- Of the spooled messages, the oldest ones went out, those behind them were trimmed and counted, and the
  -- newest ones are still queued, each part in its order; the clients' queues are as before.
  pub record IsHandled (messages : List Publish) (m : Publish) (send_ok : Bool)
      (before after : Cloud) : Type 0 where
    pub done : List Publish
    pub lost : List Publish
    pub rest : List Publish
    pub parts : messages ≡ done ++ (lost ++ rest)
    pub trim_counted :
        after.cloud_spool_dropped_limit ≡ before.cloud_spool_dropped_limit + length lost
    pub ended : IsEnded (before.connected && send_ok) m done lost rest before after
    pub untouched : others after ≡ others before
