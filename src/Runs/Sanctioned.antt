-- ===== src/Runs/Sanctioned.antt =====
-- gate.py: when a plan passes the gate.
use text.Mathlib.Text.{starts_with}
use text.Mathlib.TextBridge.{IsPrefix}
use text.Mathlib.TextEquality.{starts_with_iff}
use cs_image_system.Base.{
  String, ◌≡◌, ◌↔◌, ◌⊎◌, inl, inr, refl, sym, subst, true, false, not, ◌||◌, List, [], ◌∷◌, All, In,
  any, mem, arith, ◌==◌, eq_iff, Bool-cases,
}
use cs_image_system.Base.Words.{◌+++◌}
use cs_image_system.Runs.Gate.{Change, planned_destroys, covers, gate_plan}

mem_iff : (name : String) (names : List String) → (mem name names ≡ true) ↔ In name names
mem_iff name [] = (λ h. cc, λ h. absurd h)
mem_iff name (n ∷ names) = (
  λ h. elim (Bool-cases (n == name)) [
    | inl same ↦ inl (sym ((eq_iff n name).0 same))
    | inr other ↦ inr ((mem_iff name names).0 (ground (arith, other, h)))
  ],
  λ (m : In name (n ∷ names)). elim m [
    | inl e ↦ ground (arith, (eq_iff n name).1 (sym e))
    | inr later ↦ ground (arith, (mem_iff name names).1 later)
  ],
)

-- The entry is the address itself, or the address goes on after it with `.` or `[`.
abbrev pub IsCovered : String → String → Type 0
IsCovered address entry =
    (address ≡ entry) ⊎ (IsPrefix (entry +++ ".") address ⊎ IsPrefix (entry +++ "[") address)

covers-IsCovered :
    (address entry : String) → (covers address entry ≡ true) ↔ IsCovered address entry
unfolding covers
covers-IsCovered address entry = (
  λ h. elim (Bool-cases (address == entry)) [
    | inl same ↦ inl ((eq_iff address entry).0 same)
    | inr other ↦ elim (Bool-cases (starts_with address (entry +++ "."))) [
      | inl dotted ↦ inr (inl ((starts_with_iff address (entry +++ ".")).0 dotted))
      | inr plain ↦
          inr (inr ((starts_with_iff address (entry +++ "[")).0 (ground (arith, other, plain, h))))
    ]
  ],
  λ (c : IsCovered address entry). elim c [
    | inl e ↦ ground (arith, (eq_iff address entry).1 e)
    | inr (inl dotted) ↦ ground (arith, (starts_with_iff address (entry +++ ".")).1 dotted)
    | inr (inr indexed) ↦ ground (arith, (starts_with_iff address (entry +++ "[")).1 indexed)
  ],
)

-- Some entry of the list covers the address.
abbrev pub IsAllowed : String → List String → Type 0
IsAllowed address entries = (entry : String) × In entry entries × IsCovered address entry

any-IsAllowed :
    (address : String) (entries : List String)
    → (any (covers address) entries ≡ true) ↔ IsAllowed address entries
any-IsAllowed address [] = (λ h. cc, λ (e, m, c). absurd m)
any-IsAllowed address (entry ∷ entries) = (
  λ h. elim (Bool-cases (covers address entry)) [
    | inl covered ↦ (entry, inl refl, (covers-IsCovered address entry).0 covered)
    | inr open_ ↦
        let (e, m, c) = (any-IsAllowed address entries).0 (ground (arith, open_, h)) in
        (e, inr m, c)
  ],
  λ (a : IsAllowed address (entry ∷ entries)). elim a.1 [
    | inl same ↦
        ground (arith, (covers-IsCovered address entry).1 (subst (IsCovered address) same a.2))
    | inr later ↦ ground (arith, (any-IsAllowed address entries).1 (a.0, later, a.2))
  ],
)

-- The address is listed exactly, or covered by an entry.
abbrev pub IsSanctioned : List String → List String → String → Type 0
IsSanctioned allow_destroy allow_exact address =
    In address allow_exact ⊎ IsAllowed address allow_destroy

test-IsSanctioned :
    (allow_destroy allow_exact : List String) (address : String)
    → (not (mem address allow_exact || any (covers address) allow_destroy) ≡ false)
      ↔ IsSanctioned allow_destroy allow_exact address
test-IsSanctioned allow_destroy allow_exact address = (
  λ h. elim (Bool-cases (mem address allow_exact)) [
    | inl listed ↦ inl ((mem_iff address allow_exact).0 listed)
    | inr unlisted ↦ inr ((any-IsAllowed address allow_destroy).0 (ground (arith, unlisted, h)))
  ],
  λ (s : IsSanctioned allow_destroy allow_exact address). elim s [
    | inl listed ↦ ground (arith, (mem_iff address allow_exact).1 listed)
    | inr allowed ↦ ground (arith, (any-IsAllowed address allow_destroy).1 allowed)
  ],
)

-- A plan passes the gate exactly when every address that it deletes is listed exactly, or is an entry
-- of the whitelist, or goes on after such an entry with `.` or `[`.
pub gate_plan-nil_iff :
    (changes : List Change) (allow_destroy allow_exact : List String)
    → (gate_plan changes allow_destroy allow_exact ≡ [])
      ↔ All
          (λ c. mem "delete" c.actions ≡ true → IsSanctioned allow_destroy allow_exact c.address)
          changes
unfolding gate_plan planned_destroys
gate_plan-nil_iff [] allow_destroy allow_exact = (λ _. tt, λ _. refl)
gate_plan-nil_iff (c ∷ changes) allow_destroy allow_exact =
    let rest = gate_plan-nil_iff changes allow_destroy allow_exact in
    let first = test-IsSanctioned allow_destroy allow_exact c.address in
    elim (Bool-cases (mem "delete" c.actions)) [
      | inr keeps ↦ (
        λ h. (λ deletes. absurd (cc (keeps, deletes)), rest.0 (ground (arith, keeps, h))),
        λ h. ground (arith, keeps, rest.1 h.1),
      )
      | inl deletes ↦
          elim (Bool-cases
            (not (mem c.address allow_exact || any (covers c.address) allow_destroy))) [
              | inl violates ↦ (
                λ h. absurd (ground (arith, deletes, violates, h)),
                λ h. absurd (cc (violates, first.1 (h.0 deletes))),
              )
              | inr passes ↦ (
                λ h. (λ _. first.0 passes, rest.0 (ground (arith, deletes, passes, h))),
                λ h. ground (arith, deletes, passes, rest.1 h.1),
              )
            ]
    ]
