-- ===== src/Power/Task.antt =====
-- power_state.py: `wait_until_reachable` and `running_for_task`. The loop has fuel for every poll
-- that its timeout leaves time for; `none` is a loop out of fuel.
use cs_image_system.Base.{
  ℕ, zero, suc, ◌+◌, ◌/◌, String, Bool, true, false, not, Option, none, some, [], ◌∷◌, ◌++◌, leb,
  num_eq, if◌then◌else◌,
}
use cs_image_system.Power.{
  is_off, Outcome, done, raised, Session, returned, failed, Runtime, Call, start, probe, pause,
  body, stop, Scene,
}

unfoldable pub reached : Session → Bool
reached (returned rc) = num_eq rc 0
reached (failed what) = false

-- The polls of a timeout: one at once, and one after each pause.
unfoldable pub rounds : ℕ → ℕ
rounds timeout = suc (timeout / 10 + 1)

-- What the caller does inside the `with` block, told whether to proceed.
abbrev pub Work : Type 0 → Type 0
Work W = Bool → W → W × Outcome

module _ {W : Type 0} where
  unfoldable pub call : Scene W → Call → W → Scene W
  call s c w = record { world = w; calls = s.calls ++ c ∷ [] }

  unfoldable pub poll : Runtime W → (deadline : ℕ) → ℕ → Scene W → Option (Bool × Scene W)
  unfolding call reached
  poll rtb deadline zero s = none
  poll rtb deadline (suc fuel) s =
      let (w, answer) = rtb.run_session_command s.world in
      let probed = call s (probe (reached answer)) w in
      let later = poll rtb deadline fuel (call probed (pause 10) (rtb.sleep 10 w)) in
      if reached answer
      then some (true, probed)
      else if leb deadline (rtb.time w)
      then some (false, probed)
      else later

  unfoldable pub wait_until_reachable : Runtime W → ℕ → Scene W → Option (Bool × Scene W)
  unfolding poll rounds
  wait_until_reachable rtb timeout s = poll rtb (rtb.time s.world + timeout) (rounds timeout) s

  unfoldable pub yielded : Work W → Bool → Scene W → Outcome × Scene W
  unfolding call
  yielded work proceed s = let (w, o) = work proceed s.world in (o, call s (body proceed o) w)

  -- The `finally` clause: the machine is stopped, and a failure to stop it is only reported.
  unfoldable pub put_back : Runtime W → ℕ → Outcome × Scene W → Outcome × Scene W
  unfolding call
  put_back rtb timeout (o, s) =
      let (w, end) = rtb.stop_instance timeout s.world in (o, call s (stop timeout end) w)

  -- From the start of the machine on; the wait for it gives the value that is yielded.
  unfoldable pub started :
      Runtime W
      → (timeout : ℕ) → (reachable_timeout : ℕ) → Work W
      → Outcome
      → Scene W
      → Option (Outcome × Scene W)
  unfolding wait_until_reachable yielded
  started rtb timeout reachable_timeout work (raised e) s = some (raised e, s)
  started rtb timeout reachable_timeout work done s =
      elim (wait_until_reachable rtb reachable_timeout s) [
        | none ↦ none
        | some (proceed, s') ↦ some (yielded work proceed s')
      ]

  unfoldable pub start_and_put_back :
      Runtime W
      → (timeout : ℕ) → (reachable_timeout : ℕ) → Work W
      → Scene W
      → Option (Outcome × Scene W)
  unfolding call started put_back
  start_and_put_back rtb timeout reachable_timeout work s =
      let (w, o) = rtb.start_instance timeout s.world in
      elim (started rtb timeout reachable_timeout work o (call s (start timeout o) w)) [
        | none ↦ none
        | some r ↦ some (put_back rtb timeout r)
      ]

  -- The answer to the query, when the runtime can be asked.
  unfoldable pub queried_state : Runtime W → W → Option String
  queried_state rtb w =
      if rtb.can_query_instance_power_state then rtb.query_instance_power_state w else none

  unfoldable pub running_for_task :
      Runtime W
      → (timeout : ℕ) → (reachable_timeout : ℕ) → Work W
      → Scene W
      → Option (Outcome × Scene W)
  unfolding queried_state yielded start_and_put_back is_off
  running_for_task rtb timeout reachable_timeout work s = elim (queried_state rtb s.world) [
    | none ↦ some (yielded work true s)
    | some state ↦
        if not (is_off (some state))
        then some (yielded work true s)
        else if not rtb.can_set_instance_power_state
        then some (yielded work false s)
        else start_and_put_back rtb timeout reachable_timeout work s
  ]
