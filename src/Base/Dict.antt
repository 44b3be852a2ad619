-- ===== src/Base/Dict.antt =====
-- Python's `dict` with text keys: an association list in insertion order. `put` writes in place, or
-- at the end for a new key; `del` drops the key.
use Prim.Native.String.{String}
use mathlib.Core.Path.{◌≡◌, refl, subst}
use mathlib.Core.Logic.{◌↔◌, ◌≢◌, inl, inr}
use mathlib.Core.Bool.{Bool}
use mathlib.Core.Option.{Option, none, some}
use mathlib.Core.List.{List, [], ◌∷◌, map}
use native.Mathlib.Omega.{arith}
use text.Mathlib.Text.{◌==◌}
use text.Mathlib.TextEquality.{eq_iff}
use cs_image_system.Base.Tests.{if◌then◌else◌, is_some, Bool-cases}
use text.Mathlib.TextPositions.{eq_refl}
use cs_image_system.Base.Lists.{In, All, All-both, All-map, Distinct}

abbrev pub Dict {ℓ} : Type ℓ → Type ℓ
Dict V = List (String × V)

module _ {ℓ} {V : Type ℓ} where
  unfoldable pub get : Dict V → String → Option V
  get [] k = none
  get ((j, v) ∷ d) k = if j == k then some v else get d k

  unfoldable pub put : Dict V → String → V → Dict V
  put [] k v = (k, v) ∷ []
  put ((j, w) ∷ d) k v = if j == k then (j, v) ∷ d else (j, w) ∷ put d k v

  unfoldable pub del : Dict V → String → Dict V
  del [] k = []
  del ((j, w) ∷ d) k = if j == k then del d k else (j, w) ∷ del d k

  -- `k in d`
  abbrev pub has : Dict V → String → Bool
  has d k = is_some (get d k)

  abbrev pub keys : Dict V → List String
  keys d = map (λ (e : String × V). e.0) d

  abbrev pub values : Dict V → List V
  values d = map (λ (e : String × V). e.1) d

  -- `{**d, **e}`
  unfoldable pub update : Dict V → Dict V → Dict V
  unfolding put
  update d [] = d
  update d ((k, v) ∷ e) = update (put d k v) e

  pub get-put :
      (d : Dict V) (k j : String) (v : V) → get (put d k v) j ≡ (if k == j then some v else get d j)
  unfolding get put
  get-put [] k j v = refl
  get-put ((i, w) ∷ d) k j v = ground (arith, eq_iff i k, eq_iff i j, eq_iff k j, get-put d k j v)

  pub get-del : (d : Dict V) (k j : String) → get (del d k) j ≡ (if k == j then none else get d j)
  unfolding get del
  get-del [] k j = ground arith
  get-del ((i, w) ∷ d) k j = ground (arith, eq_iff i k, eq_iff i j, eq_iff k j, get-del d k j)

pub ruleset dict_laws = (get-put, get-del)

-- What a dictionary answers is one of its entries.
pub In-get : {V : Type 0} (d : Dict V) (k : String) (v : V) → get d k ≡ some v → In (k, v) d
unfolding get
In-get [] k v h = cc
In-get ((i, w) ∷ d) k v h = elim (Bool-cases (i == k)) [
  | inl same ↦ inl (cc ((eq_iff i k).0 same, rw same at h))
  | inr other ↦ inr (In-get d k v (rw other at h))
]

-- The keys after a write are the old ones and the written one.
module _ {ℓ κ} {V : Type ℓ} (P : String → Type κ) where
  pub All-keys-put :
      (d : Dict V) (k : String) (v : V) → All P (keys (put d k v)) ↔ All P (keys d) × P k
  unfolding put
  All-keys-put [] k v = (λ h. (tt, h.0), λ h. (h.1, tt))
  All-keys-put ((i, w) ∷ d) k v = elim (Bool-cases (i == k)) [
    | inl same ↦ rw same (λ h. (h, subst P ((eq_iff i k).0 same) h.0), λ h. h.0)
    | inr other ↦ rw other (
      λ h. let (r, p) = (All-keys-put d k v).0 h.1 in ((h.0, r), p),
      λ h. (h.0.0, (All-keys-put d k v).1 (h.0.1, h.1)),
    )
  ]

module _ {ℓ} {V : Type ℓ} where
  pub Distinct-put :
      (d : Dict V) (k : String) (v : V) → Distinct (keys d) → Distinct (keys (put d k v))
  unfolding put
  Distinct-put [] k v h = (tt, tt)
  Distinct-put ((i, w) ∷ d) k v h = elim (Bool-cases (i == k)) [
    | inl same ↦ rw same h
    | inr other ↦ rw other (
      (All-keys-put (λ j. i ≢ j) d k v).1 (h.0, λ e. cc (other, (eq_iff i k).1 e)),
      Distinct-put d k v h.1,
    )
  ]

  -- With distinct keys, each entry is what the dictionary answers at its key.
  pub get-entries :
      (d : Dict V) → Distinct (keys d) → All (λ (e : String × V). get d e.0 ≡ some e.1) d
  unfolding get
  get-entries [] h = tt
  get-entries ((i, w) ∷ d) h = (
    rw eq_refl,
    All-both (λ (e : String × V). i ≢ e.0) (λ (e : String × V). get d e.0 ≡ some e.1) _ d
        (λ e apart found. ground (arith, eq_iff i e.0, apart, found))
        ((All-map (λ (j : String). i ≢ j) (λ (e : String × V). e.0) d).0 h.0) (get-entries d h.1),
  )
