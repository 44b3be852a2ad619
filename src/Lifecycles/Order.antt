-- ===== src/Lifecycles/Order.antt =====
-- lifecycles.py, `all_lifecycles`: the order of the built-in lifecycles, and the place of a registered
-- one.
use cs_image_system.Base.{
  String, ◌≡◌, refl, sym, ◌∙◌, ap, subst, inl, inr, Bool, true, false, ◌||◌, Option, none, some,
  List, [], ◌∷◌, ◌++◌, map, any, select, ◌==◌, Bool-cases, Option-cases,
}
use cs_image_system.Base.Dict.{get, put, values}
use cs_image_system.Lifecycles.Builtin.{Lifecycle, builtin_value, lifecycle_order}
use cs_image_system.Base.Words.{mentions}
use cs_image_system.Lifecycles.{LifecycleSpec, LifecycleLike, builtin, plugin, value}
use cs_image_system.Lifecycles.Registry.{
  Registry, insert_after, place, place_all, all_lifecycles, registered, key_of, is_known_anchor,
  register_lifecycle,
}

abbrev pub is_builtin : LifecycleLike → Bool
is_builtin (builtin lc) = true
is_builtin (plugin spec) = false

builtins-append :
    (xs : List LifecycleLike) (spec : LifecycleSpec)
    → select is_builtin (xs ++ plugin spec ∷ []) ≡ select is_builtin xs
builtins-append [] spec = refl
builtins-append (builtin lc ∷ xs) spec = ap (λ l. builtin lc ∷ l) (builtins-append xs spec)
builtins-append (plugin s ∷ xs) spec = builtins-append xs spec

builtins-insert_after :
    (anchor : String) (spec : LifecycleSpec) (xs : List LifecycleLike)
    → select is_builtin (insert_after anchor (plugin spec) xs) ≡ select is_builtin xs
unfolding insert_after
builtins-insert_after anchor spec [] = refl
builtins-insert_after anchor spec (x ∷ xs) = elim (Bool-cases (value x == anchor)) [
  | inl here ↦ rw here refl
  | inr later ↦ rw (later, builtins-insert_after anchor spec xs) refl
]

builtins-place_all :
    (order : List LifecycleLike) (pending : List LifecycleSpec)
    → select is_builtin (place_all order pending) ≡ select is_builtin order
unfolding place_all place
builtins-place_all order [] = refl
builtins-place_all order (spec ∷ pending) =
    builtins-place_all (place order spec) pending ∙ elim (Option-cases spec.after) [
      | inl unanchored ↦ rw (unanchored, place) (builtins-append order spec)
      | inr (anchor, at) ↦ rw (at, place) (builtins-insert_after anchor spec order)
    ]

place_all-snoc :
    (order : List LifecycleLike) (pending : List LifecycleSpec) (spec : LifecycleSpec)
    → place_all order (pending ++ spec ∷ []) ≡ place (place_all order pending) spec
unfolding place_all
place_all-snoc order [] spec = refl
place_all-snoc order (s ∷ pending) spec = place_all-snoc (place order s) pending spec

values-put :
    (d : Registry) (name : String) (spec : LifecycleSpec)
    → get d name ≡ none
    → values (put d name spec) ≡ values d ++ spec ∷ []
unfolding get put
values-put [] name spec h = refl
values-put ((k, s) ∷ d) name spec h = elim (Bool-cases (k == name)) [
  | inl same ↦ cc (rw same at h)
  | inr other ↦ rw (other, values-put d name spec (rw other at h)) refl
]

-- The order `after` is the order `before` with the lifecycle right after the first of the anchor.
abbrev pub IsAfter : String → LifecycleSpec → List LifecycleLike → List LifecycleLike → Type 0
IsAfter anchor spec before after =
    (xs : List LifecycleLike) × (x : LifecycleLike) × (ys : List LifecycleLike) × (before
      ≡ xs ++ x ∷ ys)
    × (value x == anchor ≡ true)
    × (after ≡ xs ++ x ∷ plugin spec ∷ ys)

insert_after-IsAfter :
    (anchor : String) (spec : LifecycleSpec) (xs : List LifecycleLike)
    → any (λ (lc : LifecycleLike). value lc == anchor) xs ≡ true
    → IsAfter anchor spec xs (insert_after anchor (plugin spec) xs)
unfolding insert_after
insert_after-IsAfter anchor spec [] h = cc
insert_after-IsAfter anchor spec (x ∷ xs) h = elim (Bool-cases (value x == anchor)) [
  | inl here ↦ rw here ([], x, xs, refl, here, refl)
  | inr later ↦
      let (ys, y, zs, e, at, f) = insert_after-IsAfter anchor spec xs (rw later at h) in
      rw later (x ∷ ys, y, zs, ap (λ l. x ∷ l) e, at, ap (λ l. x ∷ l) f)
]

-- Whatever is registered, the built-in lifecycles keep their order.
pub all_lifecycles-builtins :
    (reg : Registry) → select is_builtin (all_lifecycles reg) ≡ map builtin lifecycle_order
unfolding all_lifecycles lifecycle_order
all_lifecycles-builtins reg = builtins-place_all (map builtin lifecycle_order) (values reg)

abbrev bad_name : String → Bool
bad_name name = name == "" || name == "all" || mentions 47 name

registered-new :
    (reg reg' : Registry) (spec spec' : LifecycleSpec)
    → register_lifecycle reg spec ≡ registered reg' spec'
    → get reg (key_of spec.name) ≡ none
    → (is_known_anchor reg spec.after ≡ true) × (put reg (key_of spec.name) spec ≡ reg')
unfolding register_lifecycle
registered-new reg reg' spec spec' h new =
    let name = key_of spec.name in
    elim (Bool-cases (bad_name name)) [
      | inl bad ↦ cc (rw bad at h)
      | inr good ↦
          elim (Bool-cases (any (λ (lc : Lifecycle). builtin_value lc == name) lifecycle_order)) [
            | inl taken ↦ cc (rw (good, taken) at h)
            | inr free ↦ elim (Bool-cases (is_known_anchor reg spec.after)) [
              | inr unknown ↦ cc (rw (good, free, unknown) at h)
              | inl known ↦ (known, cc (rw (good, free, known, new) at h))
            ]
          ]
    ]

all_lifecycles-put :
    (reg : Registry) (name : String) (spec : LifecycleSpec)
    → get reg name ≡ none
    → all_lifecycles (put reg name spec) ≡ place (all_lifecycles reg) spec
unfolding all_lifecycles
all_lifecycles-put reg name spec new =
    rw (values-put reg name spec new)
      (place_all-snoc (map builtin lifecycle_order) (values reg) spec)

place-anchored :
    (order : List LifecycleLike) (spec : LifecycleSpec) (anchor : String)
    → spec.after ≡ some anchor
    → place order spec ≡ insert_after anchor (plugin spec) order
unfolding place
place-anchored order spec anchor at =
    ap
      (λ (o : Option String). elim o as (λ a. List LifecycleLike) [
        | none ↦ order ++ plugin spec ∷ []
        | some a ↦ insert_after a (plugin spec) order
      ])
      at

-- A lifecycle of a new name that is registered with an anchor stands right after a lifecycle of that
-- name in the order of all lifecycles, which is otherwise as before.
pub register_lifecycle-IsAfter :
    (reg reg' : Registry) (spec spec' : LifecycleSpec) (anchor : String)
    → register_lifecycle reg spec ≡ registered reg' spec'
    → get reg (key_of spec.name) ≡ none
    → spec.after ≡ some anchor
    → IsAfter anchor spec (all_lifecycles reg) (all_lifecycles reg')
unfolding is_known_anchor
register_lifecycle-IsAfter reg reg' spec spec' anchor h new at =
    let (known, e) = registered-new reg reg' spec spec' h new in
    let found = subst (λ o. is_known_anchor reg o ≡ true) at known in
    let order = all_lifecycles-put reg (key_of spec.name) spec new in
    let placed = place-anchored (all_lifecycles reg) spec anchor at in
    subst (λ r. IsAfter anchor spec (all_lifecycles reg) (all_lifecycles r)) e
      (subst (λ l. IsAfter anchor spec (all_lifecycles reg) l) (sym (order ∙ placed))
        (insert_after-IsAfter anchor spec (all_lifecycles reg) found))
