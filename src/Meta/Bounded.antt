-- ===== src/Meta/Bounded.antt =====
-- meta_state.py: the journal of the runs is bounded, has one entry per run, and ends with the last
-- run.
use cs_image_system.Base.{
  ℕ, zero, suc, ◌-◌, ◌≤◌, String, ◌≡◌, refl, inl, inr, Bool, false, not, Option, List, [], ◌∷◌,
  ◌++◌, length, length-append, drop, select, arith, option_eq, Bool-cases, All, All-append,
  All-of_select,
}
use cs_image_system.Meta.Journal.{keep_last, record_run}

module _ {A : Type 0} where
  length-drop : (n : ℕ) (xs : List A) → length (drop n xs) ≡ length xs - n
  length-drop zero xs = omega arith
  length-drop (suc n) [] = omega arith
  length-drop (suc n) (x ∷ xs) = omega (arith, length-drop n xs)

  drop-snoc :
      (n : ℕ) (xs : List A) (x : A) → n ≤ length xs → drop n (xs ++ x ∷ []) ≡ drop n xs ++ x ∷ []
  drop-snoc zero xs x h = refl
  drop-snoc (suc n) [] x h = absurd (omega (arith, h))
  drop-snoc (suc n) (y ∷ xs) x h = drop-snoc n xs x (omega (arith, h))

  module _ {κ} (P : A → Type κ) where
    All-drop : (n : ℕ) (xs : List A) → All P xs → All P (drop n xs)
    All-drop zero xs h = h
    All-drop (suc n) [] h = tt
    All-drop (suc n) (x ∷ xs) h = All-drop n xs h.1

    All-select : (test : A → Bool) (xs : List A) → All P xs → All P (select test xs)
    All-select test [] h = tt
    All-select test (x ∷ xs) h = elim (Bool-cases (test x)) [
      | inl kept ↦ rw kept (h.0, All-select test xs h.1)
      | inr dropped ↦ rw dropped (All-select test xs h.1)
    ]

module _ {A : Type 0} (run_of : A → Option String) where
  -- Every two entries are of different runs.
  abbrev pub HasDistinctRuns : List A → Type 0
  HasDistinctRuns [] = Unit
  HasDistinctRuns (r ∷ rs) =
      All (λ s. option_eq (run_of r) (run_of s) ≡ false) rs × HasDistinctRuns rs

  HasDistinctRuns-drop : (n : ℕ) (rs : List A) → HasDistinctRuns rs → HasDistinctRuns (drop n rs)
  HasDistinctRuns-drop zero rs h = h
  HasDistinctRuns-drop (suc n) [] h = tt
  HasDistinctRuns-drop (suc n) (r ∷ rs) h = HasDistinctRuns-drop n rs h.1

  HasDistinctRuns-select :
      (test : A → Bool) (rs : List A) → HasDistinctRuns rs → HasDistinctRuns (select test rs)
  HasDistinctRuns-select test [] h = tt
  HasDistinctRuns-select test (r ∷ rs) h = elim (Bool-cases (test r)) [
    | inl kept ↦ rw kept (All-select _ test rs h.0, HasDistinctRuns-select test rs h.1)
    | inr dropped ↦ rw dropped (HasDistinctRuns-select test rs h.1)
  ]

  HasDistinctRuns-snoc :
      (rs : List A) (r : A)
      → HasDistinctRuns rs
      → All (λ s. option_eq (run_of s) (run_of r) ≡ false) rs
      → HasDistinctRuns (rs ++ r ∷ [])
  HasDistinctRuns-snoc [] r h new = (tt, tt)
  HasDistinctRuns-snoc (s ∷ rs) r h new =
      (All-append _ rs (r ∷ []) h.0 (new.0, tt), HasDistinctRuns-snoc rs r h.1 new.1)

  -- A journal with one entry per run stays one: after a run is recorded it has at most 200 entries,
  -- of different runs, and the last one is the run's.
  pub record_run-HasDistinctRuns :
      (runs : List A) (summary : A)
      → HasDistinctRuns runs
      → HasDistinctRuns (record_run run_of runs summary)
        × (length (record_run run_of runs summary) ≤ 200)
        × (earlier : List A) × (record_run run_of runs summary ≡ earlier ++ summary ∷ [])
        × All (λ s. option_eq (run_of s) (run_of summary) ≡ false) earlier
  unfolding record_run keep_last
  record_run-HasDistinctRuns runs summary h =
      let others = select (λ r. not (option_eq (run_of r) (run_of summary))) runs in
      let new : All (λ s. option_eq (run_of s) (run_of summary) ≡ false) others =
        All-of_select _ _ runs (λ r kept. ground (arith, kept)) in
      let n = length (others ++ summary ∷ []) - 200 in
      let short : n ≤ length others = omega (arith, length-append others (summary ∷ [])) in
      (
        HasDistinctRuns-drop n _
            (HasDistinctRuns-snoc others summary (HasDistinctRuns-select _ runs h) new),
        omega (arith, length-drop n (others ++ summary ∷ [])),
        drop n others,
        drop-snoc n others summary short,
        All-drop _ n others new,
      )
