-- ===== src/Lineage/Enough.antt =====
-- lineage.py: the chain of parents ends, so the fingerprint and the bake decision are computed.
use cs_image_system.Base.{
  ℕ, zero, suc, ◌≤◌, String, ◌≡◌, inl, inr, subst, true, Option, none, some, arith, truthy, is_some,
  Option-cases,
}
use cs_image_system.Lineage.{BakeImage, BakeCtx, Reason}
use cs_image_system.Lineage.Capabilities.{on_runtime}
use cs_image_system.Lineage.Parents.{source_of, find_image, input_fingerprint}
use cs_image_system.Lineage.Decision.{Within, will_bake, source_bakes, decided, bake_reason}

-- Every image that is found for the source satisfies the predicate.
abbrev pub AllFound : BakeCtx → String → (BakeImage → Type 0) → Option String → Type 0
AllFound ctx rt P source = elim source [
  | none ↦ Unit
  | some src ↦ elim (find_image ctx src (some rt)) [ none ↦ Unit | some parent ↦ P parent ]
]

-- The image and the sources behind it are at most `n` images, on the runtime.
abbrev pub IsRooted : ℕ → BakeCtx → String → BakeImage → Type 0
IsRooted zero ctx rt image = ⊥
IsRooted (suc n) ctx rt image = AllFound ctx rt (IsRooted n ctx rt) (source_of image)

-- The parent that is found has one image less behind it.
IsRooted-parent :
    (ctx : BakeCtx) (rt : String) (n : ℕ) (image : BakeImage) (src : String) (parent : BakeImage)
    → IsRooted (suc n) ctx rt image
    → source_of image ≡ some src
    → find_image ctx src (some rt) ≡ some parent
    → IsRooted n ctx rt parent
IsRooted-parent ctx rt n image src parent h has_src found =
    subst
      (λ (o : Option BakeImage). elim o as (λ _. Type 0) [
        | none ↦ Unit
        | some p ↦ IsRooted n ctx rt p
      ])
      found (subst (AllFound ctx rt (IsRooted n ctx rt)) has_src h)

module _ (ctx : BakeCtx) (rt : String) (is_set : truthy (some rt) ≡ true) where
  stays_on : (image : BakeImage) → on_runtime ctx image (some rt) ≡ some rt
  unfolding on_runtime
  stays_on image = ground (arith, is_set)

  input_fingerprint-some :
      (n fuel : ℕ) (image : BakeImage)
      → IsRooted n ctx rt image
      → n ≤ fuel
      → is_some (input_fingerprint fuel ctx image (some rt)) ≡ true
  unfolding input_fingerprint
  input_fingerprint-some zero fuel image h le = absurd h
  input_fingerprint-some (suc n) zero image h le = absurd (omega (arith, le))
  input_fingerprint-some (suc n) (suc fuel) image h le = elim (Option-cases (source_of image)) [
    | inl alone ↦ ground (arith, alone)
    | inr (src, has_src) ↦ elim (Option-cases (find_image ctx src (some rt))) [
      | inl unknown ↦ ground (arith, stays_on image, has_src, unknown)
      | inr (parent, found) ↦ ground (
        arith,
        stays_on image,
        has_src,
        found,
        input_fingerprint-some n fuel parent
            (IsRooted-parent ctx rt n image src parent h has_src found) (omega (arith, le)),
      )
    ]
  ]

  source_bakes-some :
      (n : ℕ) (image : BakeImage) (decide : BakeImage → Option String → Within (Option Reason))
      → IsRooted (suc n) ctx rt image
      → ((parent : BakeImage) → IsRooted n ctx rt parent → is_some (decide parent (some rt)) ≡ true)
      → is_some (source_bakes decide ctx image (some rt)) ≡ true
  unfolding source_bakes will_bake
  source_bakes-some n image decide h parents = elim (Option-cases (source_of image)) [
    | inl alone ↦ ground (arith, alone)
    | inr (src, has_src) ↦ elim (Option-cases (find_image ctx src (some rt))) [
      | inl unknown ↦ ground (arith, has_src, unknown)
      | inr (parent, found) ↦ ground (
        arith,
        has_src,
        found,
        parents parent (IsRooted-parent ctx rt n image src parent h has_src found),
      )
    ]
  ]

  -- On a runtime, when the image and the sources behind it are at most `n` images, fuel `n` is
  -- enough: the bake decision is computed.
  pub bake_reason-some :
      (n fuel : ℕ) (image : BakeImage)
      → IsRooted n ctx rt image
      → n ≤ fuel
      → is_some (bake_reason fuel ctx image (some rt)) ≡ true
  unfolding bake_reason decided
  bake_reason-some zero fuel image h le = absurd h
  bake_reason-some (suc n) zero image h le = absurd (omega (arith, le))
  bake_reason-some (suc n) (suc fuel) image h le = ground (
    arith,
    stays_on image,
    input_fingerprint-some (suc n) (suc fuel) image h le,
    source_bakes-some n image (bake_reason fuel ctx) h
        (λ parent behind. bake_reason-some n fuel parent behind (omega (arith, le))),
  )
