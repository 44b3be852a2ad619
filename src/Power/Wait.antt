-- ===== src/Power/Wait.antt =====
-- power_state.py, `wait_until_reachable`: the wait ends, and its last call is the poll it answers.
use cs_image_system.Base.{
  ℕ, zero, suc, ◌+◌, ◌*◌, ◌/◌, ◌≤◌, ◌≡◌, refl, ◌∙◌, inl, inr, Bool, true, false, Option, some, List,
  [], ◌∷◌, ◌++◌, append_assoc, arith, leb, All, Bool-cases,
}
use cs_image_system.Power.{Runtime, Call, probe, pause, Scene}
use cs_image_system.Power.Task.{call, reached, poll, rounds, wait_until_reachable}

-- A poll without an answer, or a pause.
abbrev pub IsWait : Call → Type 0
IsWait (probe reached) = reached ≡ false
IsWait (pause seconds) = Unit
IsWait _ = ⊥

-- The clock does not run backwards, and a pause lasts as long as it is asked to.
pub record IsClock {W : Type 0} (rtb : Runtime W) : Type 0 where
  pub session_ahead : (w : W) → rtb.time w ≤ rtb.time (rtb.run_session_command w).0
  pub sleep_ahead : (n : ℕ) (w : W) → rtb.time w + n ≤ rtb.time (rtb.sleep n w)

leb-false : (a b : ℕ) → leb a b ≡ false → b ≤ a
leb-false a b h = ground (arith, h)

module _ {W : Type 0} where
  -- The wait answered `b` in the scene `s'`, after polls that failed and a last one that gave `b`.
  abbrev pub IsWaited : Scene W → Option (Bool × Scene W) → Type 0
  IsWaited s r =
      (b : Bool) × (s' : Scene W) × (r ≡ some (b, s'))
      × (waits : List Call) × All IsWait waits
      × (s'.calls ≡ s.calls ++ (waits ++ probe b ∷ []))

  -- The scene after a poll that failed and the pause.
  unfoldable again : Runtime W → Scene W → Scene W
  unfolding call
  again rtb s =
      let w = (rtb.run_session_command s.world).0 in
      call (call s (probe false) w) (pause 10) (rtb.sleep 10 w)

  poll-step :
      (rtb : Runtime W) (deadline fuel : ℕ) (s : Scene W)
      → (leb deadline (rtb.time (rtb.run_session_command s.world).0) ≡ false
          → IsWaited (again rtb s) (poll rtb deadline fuel (again rtb s)))
      → IsWaited s (poll rtb deadline (suc fuel) s)
  unfolding poll call again
  poll-step rtb deadline fuel s next =
      let up = reached (rtb.run_session_command s.world).1 in
      let now = rtb.time (rtb.run_session_command s.world).0 in
      elim (Bool-cases up) [
        | inl up_now ↦ rw up_now (true, _, refl, [], tt, refl)
        | inr down ↦ rw down (elim (Bool-cases (leb deadline now)) [
          | inl late ↦ rw late (false, _, refl, [], tt, refl)
          | inr early ↦
              let (b, s', e, waits, quiet, at) = next early in
              rw early (
                b,
                s',
                e,
                probe false ∷ pause 10 ∷ waits,
                ((refl, (tt, quiet))),
                at ∙ append_assoc _ (pause 10 ∷ []) _ ∙ append_assoc s.calls _ _,
              )
        ])
      ]

  poll-IsWaited :
      (rtb : Runtime W) (clock : IsClock rtb) (deadline fuel : ℕ) (s : Scene W)
      → deadline ≤ rtb.time s.world + 10 * fuel
      → IsWaited s (poll rtb deadline (suc fuel) s)
  unfolding again
  poll-IsWaited rtb clock deadline zero s h =
      poll-step rtb deadline zero s (λ early.
        absurd (ground (arith, clock.session_ahead s.world, h, leb-false deadline _ early)))
  poll-IsWaited rtb clock deadline (suc fuel) s h =
      let w = (rtb.run_session_command s.world).0 in
      poll-step rtb deadline (suc fuel) s (λ early.
        poll-IsWaited rtb clock deadline fuel (again rtb s)
          (omega (arith, clock.session_ahead s.world, clock.sleep_ahead 10 w, h)))

  -- Over such a clock the wait ends, and its last call is the poll whose answer it gives, after polls
  -- that failed.
  pub wait_until_reachable-IsWaited :
      (rtb : Runtime W) (clock : IsClock rtb) (timeout : ℕ) (s : Scene W)
      → IsWaited s (wait_until_reachable rtb timeout s)
  unfolding wait_until_reachable rounds
  wait_until_reachable-IsWaited rtb clock timeout s =
      poll-IsWaited rtb clock (rtb.time s.world + timeout) (timeout / 10 + 1) s (omega arith)
