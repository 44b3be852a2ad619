-- ===== src/Base/Sorting.antt =====
-- Python's `sorted`: a stable insertion sort by a Boolean comparison. What the development relies on
-- is that a sort keeps the members of the list.
use Prim.Native.String.{String, compare}
use Prim.Native.Nat.{Ordering}
use mathlib.Core.Path.{◌≡◌, refl, sym}
use mathlib.Core.Logic.{◌≢◌, inl, inr}
use mathlib.Core.Bool.{Bool, true, false}
use mathlib.Core.List.{List, [], ◌∷◌, map}
use native.Mathlib.Omega.{arith}
use cs_image_system.Base.Tests.{if◌then◌else◌, Bool-cases}
use cs_image_system.Base.Lists.{In, In→All, All, All-map, All-of_In, Distinct, length}

-- `a <= b` on texts.
abbrev pub text_le : String → String → Bool
text_le a b = elim (compare a b) [ Ordering.gt ↦ false | _ ↦ true ]

module _ {ℓ} {A : Type ℓ} (le : A → A → Bool) where
  unfoldable pub insert : A → List A → List A
  insert a [] = a ∷ []
  insert a (x ∷ xs) = if le a x then a ∷ x ∷ xs else x ∷ insert a xs

  unfoldable pub sorted : List A → List A
  unfolding insert
  sorted [] = []
  sorted (x ∷ xs) = insert x (sorted xs)

  pub length-insert : (a : A) (xs : List A) → length (insert a xs) ≡ length (a ∷ xs)
  unfolding insert
  length-insert a [] = refl
  length-insert a (x ∷ xs) = ground (arith, length-insert a xs)

  pub length-sorted : (xs : List A) → length (sorted xs) ≡ length xs
  unfolding sorted
  length-sorted [] = refl
  length-sorted (x ∷ xs) = ground (arith, length-insert x (sorted xs), length-sorted xs)

  module _ {κ} (P : A → Type κ) where
    pub All-insert : (a : A) (xs : List A) → P a → All P xs → All P (insert a xs)
    unfolding insert
    All-insert a [] p h = (p, tt)
    All-insert a (x ∷ xs) p h = elim (Bool-cases (le a x)) [
      | inl e ↦ rw e (p, h)
      | inr e ↦ rw e (h.0, All-insert a xs p h.1)
    ]

    pub All-sorted : (xs : List A) → All P xs → All P (sorted xs)
    unfolding sorted
    All-sorted [] h = tt
    All-sorted (x ∷ xs) h = All-insert x (sorted xs) h.0 (All-sorted xs h.1)

    pub All-of_insert : (a : A) (xs : List A) → All P (insert a xs) → P a × All P xs
    unfolding insert
    All-of_insert a [] h = (h.0, tt)
    All-of_insert a (x ∷ xs) h = elim (Bool-cases (le a x)) [
      | inl e ↦ rw e at h
      | inr e ↦
          let h' : P x × All P (insert a xs) = rw e at h in
          let (p, r) = All-of_insert a xs h'.1 in (p, (h'.0, r))
    ]

    pub All-of_sorted : (xs : List A) → All P (sorted xs) → All P xs
    unfolding sorted
    All-of_sorted [] h = tt
    All-of_sorted (x ∷ xs) h = let (p, r) = All-of_insert x (sorted xs) h in (p, All-of_sorted xs r)

module _ {ℓ κ} {A : Type ℓ} {B : Type κ} (le : A → A → Bool) (f : A → B) where
  Distinct-insert :
      (a : A) (xs : List A)
      → All (λ x. f a ≢ f x) xs
      → Distinct (map f xs)
      → Distinct (map f (insert le a xs))
  unfolding insert
  Distinct-insert a [] h d = (tt, tt)
  Distinct-insert a (x ∷ xs) h d = elim (Bool-cases (le a x)) [
    | inl e ↦ rw e ((All-map (λ b. f a ≢ b) f (x ∷ xs)).1 h, d)
    | inr e ↦ rw e (
      (All-map (λ b. f x ≢ b) f (insert le a xs)).1 (
          All-insert le (λ y. f x ≢ f y) a xs (λ q. h.0 (sym q))
            ((All-map (λ b. f x ≢ b) f xs).0 d.0)),
      Distinct-insert a xs h.1 d.1,
    )
  ]

  pub Distinct-sorted : (xs : List A) → Distinct (map f xs) → Distinct (map f (sorted le xs))
  unfolding sorted
  Distinct-sorted [] d = tt
  Distinct-sorted (x ∷ xs) d =
      Distinct-insert x (sorted le xs)
        (All-sorted le (λ y. f x ≢ f y) xs ((All-map (λ b. f x ≢ b) f xs).0 d.0))
        (Distinct-sorted xs d.1)

-- A sort keeps each member.
pub In-sorted :
    {A : Type 0} (le : A → A → Bool) (xs : List A) (x : A) → In x xs → In x (sorted le xs)
In-sorted le xs x m =
    In→All (λ y. In y (sorted le xs)) xs x
      (All-of_sorted le (λ y. In y (sorted le xs)) xs
        (All-of_In (λ y. In y (sorted le xs)) (sorted le xs) (λ y n. n)))
      m
