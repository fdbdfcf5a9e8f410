-- ===== src/Transport/Session/Tidy.antt =====
-- What a session leaves behind.
use arduino_yun_bridge.Base.{ℕ, not, All, if-holds, ◌≢◌, List, refl, [], ◌∷◌}
use arduino_yun_bridge.Transport.{Config}
use arduino_yun_bridge.Transport.Session.{
  baud_refused, session, outcome, unless_returned, Course, ReadTask, running, ended, escaped, Ended,
  returned, raised, given_up, clean_up, connect_and_run, run,
}

module _ {S : Type 0} (connected : ℕ → S → S) (disconnected : S → S) (waited : ℕ → S → S)
    (cfg : Config) where
  cleaned :
      (P : S → Type 0) (r : ReadTask) (e : Ended) (s : S)
      → ((s' : S) → P (disconnected s'))
      → r ≢ escaped
      → P (clean_up connected disconnected waited cfg r e s).0
  cleaned P running e s p h = p s
  cleaned P ended e s p h = p s
  cleaned P escaped e s p h = absurd (h refl)

  either :
      (P : S → Type 0) (e : Ended) (s next : S)
      → P s
      → P next
      → P (unless_returned connected disconnected waited cfg e s next)
  either P returned s next k l = k
  either P raised s next k l = l
  either P given_up s next k l = k

  session_keeps :
      (P : S → Type 0) (course : Course) (s : S)
      → ((s' : S) → P (disconnected s'))
      → course.reader ≢ escaped
      → P s
      → P (connect_and_run connected disconnected waited cfg course s).0
  unfolding connect_and_run
  session_keeps P course s p h k =
      let done = outcome connected disconnected waited cfg course in
      if-holds {A = S × Ended} (λ r. P r.0) (not course.opened) (s, raised)
        (session connected disconnected waited cfg course s) (λ e. k)
        (λ e.
          if-holds {A = S × Ended} (λ r. P r.0)
            (baud_refused connected disconnected waited cfg course)
            (clean_up connected disconnected waited cfg course.reader raised s)
            (clean_up connected disconnected waited cfg course.reader done
              (connected course.number s))
            (λ e'. cleaned P course.reader raised s p h)
            (λ e'. cleaned P course.reader done (connected course.number s) p h))

  -- If no read task ends with an exception that the read loop does not catch, what every disconnect gives,
  -- what the other tasks keep between the sessions, and what held at first, holds after the last session.
  pub run_keeps :
      (P : S → Type 0) (courses : List Course) (s : S)
      → ((s' : S) → P (disconnected s'))
      → ((number : ℕ) (s' : S) → P s' → P (waited number s'))
      → All (λ course. course.reader ≢ escaped) courses
      → P s
      → P (run connected disconnected waited cfg courses s)
  unfolding run
  run_keeps P [] s p q h k = k
  run_keeps P (course ∷ courses) s p q (h, hs) k =
      let begun = waited course.number s in
      let (after, e) = connect_and_run connected disconnected waited cfg course begun in
      let kept = session_keeps P course begun p h (q course.number s k) in
      either P e after (run connected disconnected waited cfg courses after) kept
        (run_keeps P courses after p q hs kept)
