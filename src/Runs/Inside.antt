-- ===== src/Runs/Inside.antt =====
-- run_scope.py: when a run may bake by its plan.
use cs_image_system.Base.{
  String, ◌≡◌, ◌↔◌, ◌⊎◌, inl, inr, refl, true, false, ◌||◌, none, some, List, [], ◌∷◌, All, All-imp,
  arith, mem, ◌==◌, Bool-cases, Option-cases, List-cases,
}
use cs_image_system.Base.Dict.{Dict}
use cs_image_system.Base.Words.{after_last}
use cs_image_system.Base.Sorting.{sorted, text_le, All-sorted, All-of_sorted}
use cs_image_system.Lineage.{Reason}
use cs_image_system.Lineage.Decision.{Planned, bakes}
use cs_image_system.Runs.Reach.{IsInScope, HasNoScope}
use cs_image_system.Runs.Scoped.{apply_scope_runtimes-none_iff, apply_scope_runtimes-mem}
use cs_image_system.Runs.Scope.{
  ScopeCtx, apply_scope_runtimes, is_bake, is_outside, outside_keys, unscoped_bakes,
  check_bake_scope,
}

-- What the entry bakes on a runtime is on a runtime of the scope.
abbrev pub IsInside : List String → String × Planned → Type 0
IsInside scope entry =
    (why : Reason)
    → entry.1 ≡ bakes why
    → after_last b'@' entry.0 == "" ≡ false
    → mem (after_last b'@' entry.0) scope ≡ true

is_outside-IsInside :
    (scope : List String) (entry : String × Planned)
    → (is_outside scope entry ≡ false) ↔ IsInside scope entry
unfolding is_outside is_bake
is_outside-IsInside scope (key, bakes why) = (
  λ h reason same on. ground (arith, h, on),
  λ h. elim (Bool-cases (after_last b'@' key == "")) [
    | inl nowhere ↦ ground (arith, nowhere)
    | inr on ↦ ground (arith, on, h why refl on)
  ],
)
is_outside-IsInside scope (key, _) = (λ h why same on. cc, λ h. refl)

outside_keys-nil_iff :
    (scope : List String) (plan : List (String × Planned))
    → (outside_keys scope plan ≡ []) ↔ All (IsInside scope) plan
unfolding outside_keys
outside_keys-nil_iff scope [] = (λ _. tt, λ _. refl)
outside_keys-nil_iff scope (entry ∷ plan) =
    let rest = outside_keys-nil_iff scope plan in
    let first = is_outside-IsInside scope entry in
    elim (Bool-cases (is_outside scope entry)) [
      | inl out ↦
          (λ h. absurd (ground (arith, out, h)), λ h. absurd (ground (arith, out, first.1 h.0)))
      | inr inside ↦ (
        λ h. (first.0 inside, rest.0 (ground (arith, inside, h))),
        λ h. ground (arith, inside, rest.1 h.1),
      )
    ]

-- Every bake of the plan is in the scope of the run, if it has one.
abbrev pub AllInside : ScopeCtx → Dict Planned → Type 0
AllInside ctx plan =
    (scope : List String) → apply_scope_runtimes ctx ≡ some scope → All (IsInside scope) plan

unscoped_bakes-nil_iff :
    (ctx : ScopeCtx) (plan : Dict Planned) → (unscoped_bakes ctx plan ≡ []) ↔ AllInside ctx plan
unfolding unscoped_bakes
unscoped_bakes-nil_iff ctx plan =
    let le = λ (a b : String × Planned). text_le a.0 b.0 in
    (
      λ h scope scoped.
          All-of_sorted le (IsInside scope) plan
            ((outside_keys-nil_iff scope (sorted le plan)).0 (ground (arith, scoped, h))),
      λ h. elim (Option-cases (apply_scope_runtimes ctx)) [
        | inl unscoped ↦ ground (arith, unscoped)
        | inr (scope, scoped) ↦ ground (
          arith,
          scoped,
          (outside_keys-nil_iff scope (sorted le plan)).1
              (All-sorted le (IsInside scope) plan (h scope scoped)),
        )
      ],
    )

-- What the entry bakes on a runtime is on a runtime that the run may apply on.
abbrev pub IsReached : ScopeCtx → String × Planned → Type 0
IsReached ctx entry =
    (why : Reason)
    → entry.1 ≡ bakes why
    → after_last b'@' entry.0 == "" ≡ false
    → IsInScope ctx (after_last b'@' entry.0)

AllInside-IsReached :
    (ctx : ScopeCtx) (plan : Dict Planned)
    → AllInside ctx plan ↔ (HasNoScope ctx ⊎ All (IsReached ctx) plan)
AllInside-IsReached ctx plan = elim (Option-cases (apply_scope_runtimes ctx)) [
  | inl unscoped ↦ (
    λ _. inl ((apply_scope_runtimes-none_iff ctx).0 unscoped),
    λ _ scope scoped. absurd (cc (unscoped, scoped)),
  )
  | inr (scope, at) ↦ (
    λ inside. inr (
        All-imp (IsInside scope) (IsReached ctx) plan
          (λ entry h why same on.
            (apply_scope_runtimes-mem ctx scope (after_last b'@' entry.0) at).0 (h why same on))
          (inside scope at)),
    λ h. elim h [
      | inl free ↦ absurd (cc (at, (apply_scope_runtimes-none_iff ctx).1 free))
      | inr reached ↦ λ scope' scoped.
          All-imp (IsReached ctx) (IsInside scope') plan
            (λ entry r why same on.
              (apply_scope_runtimes-mem ctx scope' (after_last b'@' entry.0) scoped).1
                (r why same on))
            reached
    ],
  )
]

-- A run is let bake by its plan exactly when it is a dry run, or the operator allowed bakes outside
-- the scope or selected the images, or the run has no scope, or every bake of the plan on a runtime
-- is on one of its scope. The run has no scope when a flag is on, or when no runtime and no entry is
-- given; its scope is the runtime that it applies on and those that the entries of the flags name, by
-- the runtime's name or by the first root of the name.
pub check_bake_scope-none_iff :
    (ctx : ScopeCtx) (plan : Dict Planned)
    → (check_bake_scope ctx plan ≡ none) ↔ (
        (ctx.dry_run || ctx.allow_unscoped_bakes || ctx.explicit_bake_selection ≡ true)
        ⊎ HasNoScope ctx
        ⊎ All (IsReached ctx) plan)
unfolding check_bake_scope
check_bake_scope-none_iff ctx plan =
    let keys = unscoped_bakes-nil_iff ctx plan in
    let reach = AllInside-IsReached ctx plan in
    elim (List-cases (unscoped_bakes ctx plan)) [
      | inl nothing ↦ (λ h. inr (reach.0 (keys.0 nothing)), λ h. ground (arith, nothing))
      | inr (key, others, found) ↦ (
        λ h. inl (ground (arith, found, h)),
        λ h. elim h [
          | inl allowed ↦ ground (arith, found, allowed)
          | inr inside ↦ absurd (cc (found, keys.1 (reach.1 inside)))
        ],
      )
    ]
