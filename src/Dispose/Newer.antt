-- ===== src/Dispose/Newer.antt =====
-- dispose.py, `retention_plan`: what is taken beyond a count has that many newer builds.
use cs_image_system.Base.{
  ℕ, zero, suc, ◌+◌, ◌-◌, ◌≤◌, String, ◌≡◌, inl, inr, refl, ap, Bool, false, List, [], ◌∷◌, ◌++◌,
  length, take, ltb, select, mem, any, ◌==◌, arith, Bool-cases, All, All-imp,
}
use cs_image_system.Base.Dict.{Dict, values}
use cs_image_system.Base.Sorting.{sorted, All-sorted}
use cs_image_system.Meta.{Build}
use cs_image_system.Dispose.Plan.{run_le, beyond}

pub select-ext :
    (f g : Build → Bool) (bs : List Build) → ((b : Build) → f b ≡ g b) → select f bs ≡ select g bs
select-ext f g [] same = refl
select-ext f g (b ∷ bs) same = ground (arith, same b, select-ext f g bs same)

module _ (P : Build → Type 0) where
  pub All-select : (test : Build → Bool) (bs : List Build) → All P bs → All P (select test bs)
  All-select test [] h = tt
  All-select test (b ∷ bs) h = elim (Bool-cases (test b)) [
    | inl kept ↦ rw kept (h.0, All-select test bs h.1)
    | inr dropped ↦ rw dropped (All-select test bs h.1)
  ]

  All-take : (n : ℕ) (bs : List Build) → All P bs → All P (take n bs)
  All-take zero bs h = tt
  All-take (suc n) [] h = tt
  All-take (suc n) (b ∷ bs) h = (h.0, All-take n bs h.1)

-- The build stands in the list with at most `n` builds up to it.
abbrev StandsWithin : ℕ → List Build → Build → Type 0
StandsWithin n bs b =
    (older newer : List Build) × (bs ≡ older ++ b ∷ newer) × (length bs ≤ n + length newer)

take-StandsWithin : (n : ℕ) (bs : List Build) → All (StandsWithin n bs) (take n bs)
take-StandsWithin zero bs = tt
take-StandsWithin (suc n) [] = tt
take-StandsWithin (suc n) (b ∷ bs) = (
  ([], bs, refl, omega arith),
  All-imp (StandsWithin n bs) (StandsWithin (suc n) (b ∷ bs)) (take n bs)
      (λ c h.
        let (older, newer, split, few) = h in
        (b ∷ older, newer, ap (λ (cs : List Build). b ∷ cs) split, omega (arith, few)))
      (take-StandsWithin n bs),
)

-- The build stands in the list with at least `keep` builds after it.
abbrev pub HasNewer : ℕ → List Build → Build → Type 0
HasNewer keep bs b = (older newer : List Build) × (bs ≡ older ++ b ∷ newer) × (keep ≤ length newer)

pub beyond-HasNewer :
    (keep : ℕ) (bs : List Build) → All (HasNewer keep (sorted run_le bs)) (beyond keep bs)
unfolding beyond
beyond-HasNewer keep bs =
    let ordered = sorted run_le bs in
    elim (Bool-cases (ltb keep (length ordered))) [
      | inl more ↦ rw more (
          All-imp (StandsWithin (length ordered - keep) ordered) (HasNewer keep ordered) _
            (λ b h.
              let (older, newer, split, few) = h in
              (older, newer, split, ground (arith, few, more)))
            (take-StandsWithin (length ordered - keep) ordered))
      | inr few ↦ rw few tt
    ]

pub All-beyond :
    (P : Build → Type 0) (keep : ℕ) (bs : List Build) → All P bs → All P (beyond keep bs)
unfolding beyond
All-beyond P keep bs h = elim (Bool-cases (ltb keep (length (sorted run_le bs)))) [
  | inl more ↦ rw more (All-take P _ _ (All-sorted run_le P bs h))
  | inr few ↦ rw few tt
]

pub mem-values :
    (d : Dict String) (id : String)
    → mem id (values d) ≡ false
    → All (λ (e : String × String). e.1 == id ≡ false) d
mem-values [] id h = tt
mem-values (e ∷ d) id h = (ground (arith, h), mem-values d id (ground (arith, h)))

pub any-values :
    {V : Type 0} (test : V → Bool) (d : Dict V)
    → any test (values d) ≡ false
    → All (λ (e : String × V). test e.1 ≡ false) d
any-values test [] h = tt
any-values test (e ∷ d) h = (ground (arith, h), any-values test d (ground (arith, h)))
