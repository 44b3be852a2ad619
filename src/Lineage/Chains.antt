-- ===== src/Lineage/Chains.antt =====
-- capabilities.py, `image_chain`: each step but the last sees a new image, so the fuel is enough.
use cs_image_system.Base.{
  ℕ, zero, suc, ◌+◌, ◌≤◌, String, ◌≡◌, inl, inr, refl, ap, subst, sym, ◌∙◌, true, false, not,
  Option, none, some, List, [], ◌∷◌, length, select, mem, arith, option_eq, ◌==◌, eq_iff,
  Bool-cases, Option-cases, if◌then◌else◌,
}
use cs_image_system.Base.Dict.{Dict, get, keys}
use cs_image_system.Lineage.{BakeCtx}
use cs_image_system.Lineage.Capabilities.{chain_from, image_chain}

abbrev unseen : List String → List String → ℕ
unseen names seen = length (select (λ n. not (mem n seen)) names)

unseen-less :
    (names seen : List String) (name : String) → unseen names (name ∷ seen) ≤ unseen names seen
unseen-less [] seen name = omega arith
unseen-less (n ∷ names) seen name =
    let later = unseen-less names seen name in
    ground (arith, later, Bool-cases (mem n seen), Bool-cases (name == n))

-- A name that is not seen yet is one less when it is seen.
unseen-new :
    (names seen : List String) (name : String)
    → mem name names ≡ true
    → mem name seen ≡ false
    → unseen names (name ∷ seen) + 1 ≤ unseen names seen
unseen-new [] seen name m new = cc
unseen-new (n ∷ names) seen name m new = elim (Bool-cases (n == name)) [
  | inl same ↦
      let fresh : mem n seen ≡ false =
        subst (λ (s : String). mem s seen ≡ false) (sym ((eq_iff n name).0 same)) new in
      ground (arith, same, fresh, unseen-less names seen name, eq_iff n name, eq_iff name n)
  | inr other ↦
      let later = unseen-new names seen name (ground (arith, m, other)) new in
      ground (
        arith,
        later,
        other,
        eq_iff n name,
        eq_iff name n,
        Bool-cases (mem n seen),
        Bool-cases (name == n),
      )
]

get-mem : {V : Type 0} (d : Dict V) (k : String) (v : V) → get d k ≡ some v → mem k (keys d) ≡ true
unfolding get
get-mem [] k v h = cc
get-mem ((j, w) ∷ d) k v h = ground (arith, h, get-mem d k v, Bool-cases (j == k))

module _ (ctx : BakeCtx) where
  -- With fuel for each image that was not seen, and one more, no further fuel changes the chain.
  chain_from-suc :
      (fuel : ℕ) (seen : List String) (name : Option String)
      → unseen (keys ctx.images_map) seen + 1 ≤ fuel
      → chain_from (suc fuel) ctx seen name ≡ chain_from fuel ctx seen name
  unfolding chain_from
  chain_from-suc zero seen name le = absurd (omega (arith, le))
  chain_from-suc (suc fuel) seen none le = refl
  chain_from-suc (suc fuel) seen (some name) le = elim (Option-cases (get ctx.images_map name)) [
    | inl unknown ↦ ground (arith, unknown)
    | inr (image, known) ↦ elim (Bool-cases (mem name seen)) [
      | inl old ↦ ground (arith, old)
      | inr new ↦
          let fewer =
            unseen-new (keys ctx.images_map) seen name (get-mem ctx.images_map name image known)
              new in
          let later =
            chain_from-suc fuel (name ∷ seen)
              (if option_eq image.source_image (some "self") then none else image.source_image)
              (omega (arith, le, fewer)) in
          ground (arith, known, later)
    ]
  ]

  unseen-nil : (names : List String) → unseen names [] ≡ length names
  unseen-nil [] = refl
  unseen-nil (n ∷ names) = ground (arith, unseen-nil names)

  length-keys : {V : Type 0} (d : Dict V) → length (keys d) ≡ length d
  length-keys [] = refl
  length-keys (e ∷ d) = ground (arith, length-keys d)

  -- The chain of an image is the same on any more fuel.
  pub chain_from-image_chain :
      (fuel extra : ℕ) (name : String)
      → fuel ≡ suc (suc (length ctx.images_map)) + extra
      → chain_from fuel ctx [] (some name) ≡ image_chain ctx name
  unfolding image_chain
  chain_from-image_chain fuel zero name e =
      let same : fuel ≡ suc (suc (length ctx.images_map)) = omega (arith, e) in
      ap (λ (n : ℕ). chain_from n ctx [] (some name)) same
  chain_from-image_chain zero (suc extra) name e = absurd (omega (arith, e))
  chain_from-image_chain (suc fuel) (suc extra) name e =
      chain_from-suc fuel [] (some name)
        (ground (arith, e, unseen-nil (keys ctx.images_map), length-keys ctx.images_map))
      ∙ chain_from-image_chain fuel extra name (omega (arith, e))
