-- ===== src/Runs/Reach.antt =====
-- run_scope.py, `apply_scope_runtimes`: the runtimes that a run may apply on.
use cs_image_system.Base.{
  String, ◌≡◌, ◌↔◌, ◌⊎◌, inl, inr, refl, sym, subst, ap, Bool, true, false, some, List, [], ◌∷◌,
  ◌++◌, All, In, arith, any, mem, truthy, ◌==◌, eq_iff, Bool-cases, Option-cases,
}
use cs_image_system.Base.Strip.{strip}
use cs_image_system.Apply.{Flag, switch, one, several}
use cs_image_system.Runs.Scope.{Root, ScopeCtx, runtime_of_root, named_runtime}

-- A flag that is on for every root.
abbrev pub lets_all : Flag → Bool
lets_all (switch b) = b
lets_all _ = false

-- The entries that the flags name, in their order.
abbrev pub entries_of : Flag → List String
entries_of (one entry) = entry ∷ []
entries_of (several entries) = entries
entries_of _ = []

abbrev pub all_entries : List Flag → List String
all_entries [] = []
all_entries (flag ∷ flags) = entries_of flag ++ all_entries flags

-- The first root of the name has the runtime.
abbrev pub IsRootOn : List Root → String → String → Type 0
IsRootOn roots name rt =
    (before : List Root) × (r : Root) × (after : List Root) × (roots ≡ before ++ r ∷ after)
    × All (λ (o : Root). o.name == name ≡ false) before
    × (r.name ≡ name)
    × (r.runtime ≡ some rt)
    × (rt == "" ≡ false)

-- The name is the runtime's own, else that of a root on it.
abbrev pub IsNameOf : ScopeCtx → String → String → Type 0
IsNameOf ctx name rt =
    ((mem name ctx.runtimes ≡ true) × (name ≡ rt))
    ⊎ ((mem name ctx.runtimes ≡ false) × IsRootOn ctx.roots name rt)

abbrev pub IsNamedIn : ScopeCtx → List String → String → Type 0
IsNamedIn ctx entries rt =
    (entry : String) × In entry entries
    × (strip entry == "" ≡ false)
    × IsNameOf ctx (strip entry) rt

-- The run may apply on the runtime: it applies on that one, or an entry of a flag names it.
abbrev pub IsInScope : ScopeCtx → String → Type 0
IsInScope ctx rt =
    ((ctx.apply_runtime ≡ some rt) × (rt == "" ≡ false))
    ⊎ IsNamedIn ctx (all_entries ctx.apply_flags) rt

-- The run may apply everywhere: a flag is on, or neither a runtime nor an entry is given.
abbrev pub HasNoScope : ScopeCtx → Type 0
HasNoScope ctx =
    (any lets_all ctx.apply_flags ≡ true)
    ⊎ ((truthy ctx.apply_runtime ≡ false)
        × All (λ entry. strip entry == "" ≡ true) (all_entries ctx.apply_flags))

cons-inj : (r s : Root) (rs ss : List Root) → r ∷ rs ≡ s ∷ ss → (r ≡ s) × (rs ≡ ss)
cons-inj r s rs ss h = (cc, cc)

IsRootOn-nil : (name rt : String) → ¬ IsRootOn [] name rt
IsRootOn-nil name rt ([], r, after, split, others, named, on, set) = cc
IsRootOn-nil name rt (o ∷ before, r, after, split, others, named, on, set) = cc

IsRootOn-first :
    (r : Root) (roots : List Root) (name rt : String)
    → r.name == name ≡ true
    → IsRootOn (r ∷ roots) name rt
    → (r.runtime ≡ some rt) × (rt == "" ≡ false)
IsRootOn-first r roots name rt same ([], s, after, split, others, named, on, set) =
    (subst (λ (q : Root). q.runtime ≡ some rt) (sym (cons-inj r s roots after split).0) on, set)
IsRootOn-first r roots name rt same (o ∷ before, s, after, split, others, named, on, set) = absurd (
    cc (
      same,
      subst (λ (q : Root). q.name == name ≡ false)
          (sym (cons-inj r o roots (before ++ s ∷ after) split).0) others.0,
    ))

IsRootOn-later :
    (r : Root) (roots : List Root) (name rt : String)
    → r.name == name ≡ false
    → IsRootOn (r ∷ roots) name rt
    → IsRootOn roots name rt
IsRootOn-later r roots name rt other ([], s, after, split, others, named, on, set) =
    let named_r : r.name ≡ name =
      subst (λ (q : Root). q.name ≡ name) (sym (cons-inj r s roots after split).0) named in
    absurd (cc (other, (eq_iff r.name name).1 named_r))
IsRootOn-later r roots name rt other (o ∷ before, s, after, split, others, named, on, set) =
    (before, s, after, (cons-inj r o roots (before ++ s ∷ after) split).1, others.1, named, on, set)

runtime_of_root-IsRootOn :
    (roots : List Root) (name rt : String)
    → (runtime_of_root roots name ≡ some rt) ↔ IsRootOn roots name rt
unfolding runtime_of_root
runtime_of_root-IsRootOn [] name rt = (λ h. cc, λ h. absurd (IsRootOn-nil name rt h))
runtime_of_root-IsRootOn (r ∷ roots) name rt =
    let later = runtime_of_root-IsRootOn roots name rt in
    elim (Bool-cases (r.name == name)) [
      | inl same ↦ (
        λ h. (
          [],
          r,
          roots,
          refl,
          tt,
          (eq_iff r.name name).0 same,
          ground (arith, same, h, Option-cases r.runtime),
          ground (arith, same, h, Option-cases r.runtime),
        ),
        λ h. let (on, set) = IsRootOn-first r roots name rt same h in ground (arith, same, on, set),
      )
      | inr other ↦ (
        λ h.
            let (before, s, after, split, others, named, on, set) =
              later.0 (ground (arith, other, h)) in
            (
              r ∷ before,
              s,
              after,
              ap (λ (rs : List Root). r ∷ rs) split,
              (other, others),
              named,
              on,
              set,
            ),
        λ h. ground (arith, other, later.1 (IsRootOn-later r roots name rt other h)),
      )
    ]

pub named_runtime-IsNameOf :
    (ctx : ScopeCtx) (name rt : String) → (named_runtime ctx name ≡ some rt) ↔ IsNameOf ctx name rt
unfolding named_runtime
named_runtime-IsNameOf ctx name rt = elim (Bool-cases (mem name ctx.runtimes)) [
  | inl own ↦ (
    λ h. inl (own, ground (arith, own, h)),
    λ h. elim h [
      | inl (_, same) ↦ ground (arith, own, same)
      | inr (other, _) ↦ absurd (cc (own, other))
    ],
  )
  | inr other ↦ (
    λ h. inr (other, (runtime_of_root-IsRootOn ctx.roots name rt).0 (ground (arith, other, h))),
    λ h. elim h [
      | inl (own, _) ↦ absurd (cc (own, other))
      | inr (_, on) ↦ ground (arith, other, (runtime_of_root-IsRootOn ctx.roots name rt).1 on)
    ],
  )
]
