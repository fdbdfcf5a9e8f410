-- ===== src/Service/Node/Sessions.antt =====
-- The sessions of the serial line over the whole node.
use arduino_yun_bridge.Base.{◌≢◌, none, All, false, ◌≡◌, List, ℕ, refl}
use arduino_yun_bridge.Link.{is_synchronized}
use arduino_yun_bridge.Transport.{Config}
use arduino_yun_bridge.Transport.Session.{Course, escaped, run}
use arduino_yun_bridge.Transport.Session.Tidy.{run_keeps}
use arduino_yun_bridge.Service.Files.{FileSystem}
use arduino_yun_bridge.Service.Requests.{Codecs}
use arduino_yun_bridge.Service.Node.{Node}
use arduino_yun_bridge.Service.Node.Lifecycle.{on_serial_disconnected}

module _ (fs : FileSystem) (c : Codecs) where
  -- No session is open: the link is not synchronised, and waits for no answer.
  pub record IsApart (n : Node fs c) : Type 0 where
    pub off : is_synchronized n.manager.link ≡ false
    pub no_challenge : n.manager.link.link_handshake_nonce ≡ none

  disconnected-IsApart : (n : Node fs c) → IsApart (on_serial_disconnected fs c n)
  disconnected-IsApart n =
      unfold on_serial_disconnected is_synchronized in record { off = refl; no_challenge = refl }

  -- However the sessions of the line go and end, a fatal handshake and a cancellation included, and whatever
  -- each makes of the node: if no read task ends with an exception that the read loop does not catch, and
  -- the other tasks, between the sessions, neither synchronise the link nor begin a handshake, then the link
  -- is left unsynchronised and without a pending challenge, as it was before the first session.
  pub sessions_leave-IsApart :
      (connected waited : ℕ → Node fs c → Node fs c) (cfg : Config) (courses : List Course)
      (n : Node fs c)
      → ((number : ℕ) (m : Node fs c) → IsApart m → IsApart (waited number m))
      → All (λ course. course.reader ≢ escaped) courses
      → IsApart n
      → IsApart (run connected (on_serial_disconnected fs c) waited cfg courses n)
  sessions_leave-IsApart connected waited cfg courses n others tidy apart =
      run_keeps connected (on_serial_disconnected fs c) waited cfg IsApart courses n
        (λ m. disconnected-IsApart m) others tidy apart
