-- ===== src/Gateway/Sessions.antt =====
-- The connections that the gateway knows.
use arduino_yun_bridge.Base.{text_eq_refl, false, ◌≡◌, text_eq, Text, ℕ, none, some, refl}
use arduino_yun_bridge.Base.Assoc.{lookup, insert, lookup-insert, lookup-remove, text_key}
use arduino_yun_bridge.Gateway.{Gateway, open_session, close_session}

-- A device that connects is known by its stream until its session ends, and then no more; other devices
-- are known as before all the while.
pub session_known :
    (device other : Text) (stream : ℕ) (g : Gateway)
    → text_eq device other ≡ false
    → (lookup device (open_session device stream g).connections ≡ some stream)
      × (lookup device (close_session device (open_session device stream g)).connections ≡ none)
      × (lookup other (close_session device (open_session device stream g)).connections
          ≡ lookup other g.connections)
unfolding open_session close_session
session_known device other stream g differs =
    let opened = insert device stream g.connections in
    (
      rw (lookup-insert device device stream g.connections, text_eq_refl device) refl,
      rw (lookup-remove device device opened, text_eq_refl device) refl,
      rw
          (
            lookup-remove device other opened,
            lookup-insert device other stream g.connections,
            differs,
          )
          refl,
    )

-- When a device connects anew before its old session ends, the end of the old session makes it unknown,
-- though the new session goes on.
pub old_session_removes_new :
    (device : Text) (old new : ℕ) (g : Gateway)
    → lookup device
        (close_session device (open_session device new (open_session device old g))).connections
      ≡ none
unfolding open_session close_session
old_session_removes_new device old new g =
    rw
      (
        lookup-remove device device (insert device new (insert device old g.connections)),
        text_eq_refl device,
      )
      refl
