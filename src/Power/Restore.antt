-- ===== src/Power/Restore.antt =====
-- power_state.py, `running_for_task`: what is started is stopped, and nothing else is touched.
use cs_image_system.Base.{
  ℕ, String, ◌≡◌, refl, ◌∙◌, ap, ◌⊎◌, inl, inr, Bool, true, false, not, ◌&&◌, some, List, [], ◌∷◌,
  ◌++◌, append_assoc, arith, All,
}
use cs_image_system.Power.{
  is_off, Outcome, done, raised, Runtime, Call, start, probe, body, stop, Scene,
}
use cs_image_system.Power.Task.{
  call, Work, yielded, put_back, started, start_and_put_back, queried_state, running_for_task,
}
use cs_image_system.Power.Wait.{IsWait, IsClock, wait_until_reachable-IsWaited}

-- The start raised, and nothing was done with the machine.
abbrev pub IsFailedStart : (timeout : ℕ) → Outcome → List Call → Type 0
IsFailedStart timeout o calls = (e : String) × (o ≡ raised e) × (calls ≡ start timeout o ∷ [])

-- The machine was started and polled; the work was told what the last poll gave, and the outcome is
-- the work's.
abbrev pub IsWorked : (timeout : ℕ) → Outcome → List Call → Type 0
IsWorked timeout o calls =
    (waits : List Call) × (proceed : Bool) × All IsWait waits
    × (calls ≡ start timeout done ∷ (waits ++ probe proceed ∷ body proceed o ∷ []))

-- The calls of a task that started the machine, of which the last is its only stop.
abbrev pub IsBounded : {W : Type 0} → (timeout : ℕ) → Scene W → Outcome → Scene W → Type 0
IsBounded timeout s o s' =
    (calls : List Call) × (end : Outcome) × (s'.calls ≡ s.calls ++ (calls ++ stop timeout end ∷ []))
    × (IsFailedStart timeout o calls ⊎ IsWorked timeout o calls)

append_steps :
    (before waits : List Call) (first last after : Call) (all : List Call)
    → all ≡ before ++ first ∷ [] ++ (waits ++ last ∷ [])
    → all ++ after ∷ [] ≡ before ++ (first ∷ (waits ++ last ∷ after ∷ []))
append_steps before waits first last after all h =
    ap (λ l. l ++ after ∷ []) h
    ∙ append_assoc (before ++ first ∷ []) _ _
    ∙ append_assoc before _ _
    ∙ ap (λ l. before ++ (first ∷ l)) (append_assoc waits _ _)

module _ {W : Type 0} (rtb : Runtime W) where
  started-IsBounded :
      (clock : IsClock rtb) (timeout reachable_timeout : ℕ) (work : Work W) (s : Scene W) (w : W)
      (o : Outcome)
      → (o' : Outcome) × (s' : Scene W) × (started rtb timeout reachable_timeout work o
            (call s (start timeout o) w)
          ≡ some (o', s'))
        × (calls : List Call) × (s'.calls ≡ s.calls ++ calls)
        × (IsFailedStart timeout o' calls ⊎ IsWorked timeout o' calls)
  unfolding started call yielded
  started-IsBounded clock timeout reachable_timeout work s w (raised e) =
      (raised e, _, refl, start timeout (raised e) ∷ [], refl, inl (e, refl, refl))
  started-IsBounded clock timeout reachable_timeout work s w done =
      let begun = call s (start timeout done) w in
      let (b, s', e, waits, quiet, at) =
        wait_until_reachable-IsWaited rtb clock reachable_timeout begun in
      let o = (work b s'.world).1 in
      rw (e, started)
        (
          o,
          _,
          refl,
          start timeout done ∷ (waits ++ probe b ∷ body b o ∷ []),
          append_steps s.calls waits _ _ _ _ at,
          inr (waits, b, quiet, refl),
        )

  start_and_put_back-IsBounded :
      (clock : IsClock rtb) (timeout reachable_timeout : ℕ) (work : Work W) (s : Scene W)
      → (o : Outcome) × (s' : Scene W) × (start_and_put_back rtb timeout reachable_timeout work s
          ≡ some (o, s'))
        × IsBounded timeout s o s'
  unfolding start_and_put_back put_back call
  start_and_put_back-IsBounded clock timeout reachable_timeout work s =
      let (w, o) = rtb.start_instance timeout s.world in
      let (o', s', e, calls, after, how) =
        started-IsBounded clock timeout reachable_timeout work s w o in
      let end = (rtb.stop_instance timeout s'.world).1 in
      rw (e, start_and_put_back)
        (
          o',
          _,
          refl,
          (
            calls,
            end,
            ap (λ l. l ++ stop timeout end ∷ []) after ∙ append_assoc s.calls calls _,
            how,
          ),
        )

  running_for_task-off :
      (timeout reachable_timeout : ℕ) (work : Work W) (s : Scene W)
      → is_off (queried_state rtb s.world) ≡ true
      → rtb.can_set_instance_power_state ≡ true
      → running_for_task rtb timeout reachable_timeout work s
        ≡ start_and_put_back rtb timeout reachable_timeout work s
  unfolding running_for_task
  running_for_task-off timeout reachable_timeout work s off able = ground (arith, off, able)

  -- Over a clock that does not run backwards and pauses that last as long as asked, a task on a
  -- machine that is off and can be started ends; it starts the machine, and its last call is the stop, whether the start, the wait, the
  -- work or the stop failed or not; the outcome is the start's or the work's, and the work is told
  -- to proceed exactly when the last poll was answered.
  pub running_for_task-IsBounded :
      (clock : IsClock rtb) (timeout reachable_timeout : ℕ) (work : Work W) (s : Scene W)
      → is_off (queried_state rtb s.world) ≡ true
      → rtb.can_set_instance_power_state ≡ true
      → (o : Outcome) × (s' : Scene W) × (running_for_task rtb timeout reachable_timeout work s
          ≡ some (o, s'))
        × IsBounded timeout s o s'
  running_for_task-IsBounded clock timeout reachable_timeout work s off able =
      rw (running_for_task-off timeout reachable_timeout work s off able)
        (start_and_put_back-IsBounded clock timeout reachable_timeout work s)

  running_for_task-kept :
      (timeout reachable_timeout : ℕ) (work : Work W) (s : Scene W)
      → is_off (queried_state rtb s.world) && rtb.can_set_instance_power_state ≡ false
      → running_for_task rtb timeout reachable_timeout work s
        ≡ some (yielded work (not (is_off (queried_state rtb s.world))) s)
  unfolding running_for_task is_off
  running_for_task-kept timeout reachable_timeout work s h = ground (arith, h)

  -- A machine that is not off, whose state nobody could tell, or that cannot be started, is neither
  -- started nor stopped: the work is the only call, told not to proceed only when the machine is
  -- known to be off.
  pub running_for_task-untouched :
      (timeout reachable_timeout : ℕ) (work : Work W) (s : Scene W)
      → is_off (queried_state rtb s.world) && rtb.can_set_instance_power_state ≡ false
      → (o : Outcome) × (s' : Scene W) × (running_for_task rtb timeout reachable_timeout work s
          ≡ some (o, s'))
        × (s'.calls ≡ s.calls ++ body (not (is_off (queried_state rtb s.world))) o ∷ [])
  unfolding yielded call
  running_for_task-untouched timeout reachable_timeout work s h =
      rw (running_for_task-kept timeout reachable_timeout work s h) (_, _, refl, refl)
