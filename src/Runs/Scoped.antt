-- ===== src/Runs/Scoped.antt =====
-- run_scope.py, `apply_scope_runtimes`: the scope has the runtimes that the flags name.
use cs_image_system.Base.{
  String, ◌≡◌, ◌↔◌, ◌⊎◌, inl, inr, refl, sym, subst, ap, ◌∙◌, true, false, ◌||◌, none, some, List,
  [], ◌∷◌, ◌++◌, All, arith, any, mem, truthy, ◌==◌, eq_iff, Bool-cases, Option-cases,
  if◌then◌else◌,
}
use cs_image_system.Base.Strip.{strip}
use cs_image_system.Apply.{Flag, unset, switch, one, several}
use cs_image_system.Runs.Scope.{
  ScopeCtx, Named, named_runtime, add_entry, add_entries, add_flag, add_flags, first_named,
  apply_scope_runtimes,
}
use cs_image_system.Runs.Reach.{
  lets_all, entries_of, all_entries, IsNameOf, IsNamedIn, IsInScope, HasNoScope,
  named_runtime-IsNameOf,
}

module _ (ctx : ScopeCtx) where
  add_entries-append :
      (n : Named) (xs ys : List String)
      → add_entries ctx n (xs ++ ys) ≡ add_entries ctx (add_entries ctx n xs) ys
  unfolding add_entries
  add_entries-append n [] ys = refl
  add_entries-append n (x ∷ xs) ys = add_entries-append (add_entry ctx n x) xs ys

  add_flag-entries :
      (n : Named) (flag : Flag)
      → add_flag ctx n flag
        ≡ (if lets_all flag then none else some (add_entries ctx n (entries_of flag)))
  unfolding add_flag add_entries
  add_flag-entries n unset = refl
  add_flag-entries n (switch true) = refl
  add_flag-entries n (switch false) = refl
  add_flag-entries n (one entry) = refl
  add_flag-entries n (several entries) = refl

  -- The flags end the scope when one is on, else they add all their entries.
  add_flags-entries :
      (n : Named) (flags : List Flag)
      → add_flags ctx n flags
        ≡ (if any lets_all flags then none else some (add_entries ctx n (all_entries flags)))
  unfolding add_flags add_entries
  add_flags-entries n [] = refl
  add_flags-entries n (flag ∷ flags) = ground (
    arith,
    add_flag-entries n flag,
    add_flags-entries (add_entries ctx n (entries_of flag)) flags,
    add_entries-append n (entries_of flag) (all_entries flags),
  )

  mem-snoc : (xs : List String) (x y : String) → mem y (xs ++ x ∷ []) ≡ (mem y xs || x == y)
  mem-snoc [] x y = ground arith
  mem-snoc (z ∷ xs) x y = ground (arith, mem-snoc xs x y)

  -- An entry adds the runtime that it names.
  add_entry-mem :
      (n : Named) (entry rt : String)
      → (mem rt (add_entry ctx n entry).scoped ≡ true)
        ↔ ((mem rt n.scoped ≡ true) ⊎ ((strip entry == "" ≡ false) × IsNameOf ctx (strip entry) rt))
  unfolding add_entry
  add_entry-mem n entry rt = elim (Bool-cases (strip entry == "")) [
    | inl blank ↦ (
      λ h. inl (ground (arith, blank, h)),
      λ h. elim h [
        | inl there ↦ ground (arith, blank, there)
        | inr (set, _) ↦ absurd (cc (blank, set))
      ],
    )
    | inr set ↦
        let named = named_runtime-IsNameOf ctx (strip entry) rt in
        elim (Option-cases (named_runtime ctx (strip entry))) [
          | inl nothing ↦ (
            λ h. inl (ground (arith, set, nothing, h)),
            λ h. elim h [
              | inl there ↦ ground (arith, set, nothing, there)
              | inr (_, is_name) ↦ absurd (cc (nothing, named.1 is_name))
            ],
          )
          | inr (other, at) ↦
              let snoc = mem-snoc n.scoped other rt in
              (
                λ h. elim (Bool-cases (other == rt)) [
                  | inl same ↦ inr (set, named.0 (at ∙ ap some ((eq_iff other rt).0 same)))
                  | inr apart ↦ inl (ground (arith, set, at, snoc, apart, h))
                ],
                λ h. elim h [
                  | inl there ↦ ground (arith, set, at, snoc, there)
                  | inr (_, is_name) ↦
                      ground (arith, set, at, snoc, named.1 is_name, eq_iff other rt)
                ],
              )
        ]
  ]

  add_entries-mem :
      (n : Named) (entries : List String) (rt : String)
      → (mem rt (add_entries ctx n entries).scoped ≡ true)
        ↔ ((mem rt n.scoped ≡ true) ⊎ IsNamedIn ctx entries rt)
  unfolding add_entries
  add_entries-mem n [] rt =
      (λ h. inl h, λ h. elim h [ inl there ↦ there | inr (entry, m, set, is_name) ↦ absurd m ])
  add_entries-mem n (entry ∷ entries) rt =
      let later = add_entries-mem (add_entry ctx n entry) entries rt in
      let first = add_entry-mem n entry rt in
      (
        λ h. elim (later.0 h) [
          | inl there ↦ elim (first.0 there) [
            | inl before ↦ inl before
            | inr (set, is_name) ↦ inr (entry, inl refl, set, is_name)
          ]
          | inr (e, m, set, is_name) ↦ inr (e, inr m, set, is_name)
        ],
        λ h. elim h [
          | inl before ↦ later.1 (inl (first.1 (inl before)))
          | inr (e, inl same, set, is_name) ↦ later.1 (
              inl (
                first.1 (
                  inr (
                    subst (λ (x : String). (strip x == "" ≡ false) × IsNameOf ctx (strip x) rt) same
                      (set, is_name)))))
          | inr (e, inr m, set, is_name) ↦ later.1 (inr (e, m, set, is_name))
        ],
      )

  -- The run stays unrestricted exactly when it was and every entry is blank.
  add_entries-blank :
      (n : Named) (entries : List String)
      → ((add_entries ctx n entries).restricted ≡ false)
        ↔ ((n.restricted ≡ false) × All (λ entry. strip entry == "" ≡ true) entries)
  unfolding add_entries add_entry
  add_entries-blank n [] = (λ h. (h, tt), λ h. h.0)
  add_entries-blank n (entry ∷ entries) =
      let later = add_entries-blank (add_entry ctx n entry) entries in
      elim (Bool-cases (strip entry == "")) [
        | inl blank ↦
            let same : (add_entry ctx n entry).restricted ≡ n.restricted = ground (arith, blank) in
            (
              λ h. (sym same ∙ (later.0 h).0, (blank, (later.0 h).1)),
              λ h. later.1 (same ∙ h.0, h.1.1),
            )
        | inr set ↦
            let on : (add_entry ctx n entry).restricted ≡ true = ground (arith, set) in
            (λ h. absurd (cc (on, (later.0 h).0)), λ h. absurd (cc (set, h.1.0)))
      ]

  first_named-mem :
      (rt : String)
      → (mem rt (first_named ctx.apply_runtime).scoped ≡ true)
        ↔ ((ctx.apply_runtime ≡ some rt) × (rt == "" ≡ false))
  unfolding first_named
  first_named-mem rt = elim (Option-cases ctx.apply_runtime) [
    | inl nothing ↦ (λ h. absurd (ground (arith, nothing, h)), λ h. absurd (cc (nothing, h.0)))
    | inr (own, at) ↦ (
      λ h. (ground (arith, at, h, eq_iff own rt), ground (arith, at, h, eq_iff own rt)),
      λ h. ground (arith, at, h.0, h.1, eq_iff own rt),
    )
  ]

  first_named-unrestricted :
      ((first_named ctx.apply_runtime).restricted ≡ false) ↔ (truthy ctx.apply_runtime ≡ false)
  unfolding first_named
  first_named-unrestricted = (λ h. ground (arith, h), λ h. ground (arith, h))

  abbrev all_named : Named
  all_named = add_entries ctx (first_named ctx.apply_runtime) (all_entries ctx.apply_flags)

  -- A run without a scope may apply everywhere.
  pub apply_scope_runtimes-none_iff : (apply_scope_runtimes ctx ≡ none) ↔ HasNoScope ctx
  unfolding apply_scope_runtimes
  apply_scope_runtimes-none_iff =
      let flags = add_flags-entries (first_named ctx.apply_runtime) ctx.apply_flags in
      let blank = add_entries-blank (first_named ctx.apply_runtime) (all_entries ctx.apply_flags) in
      elim (Bool-cases (any lets_all ctx.apply_flags)) [
        | inl on ↦ (λ h. inl on, λ h. ground (arith, flags, on))
        | inr off ↦ (
          λ h.
              let (unrestricted, blanks) = blank.0 (ground (arith, flags, off, h)) in
              inr (first_named-unrestricted.0 unrestricted, blanks),
          λ h. elim h [
            | inl on ↦ absurd (cc (on, off))
            | inr (unset_runtime, blanks) ↦
                let free = blank.1 (first_named-unrestricted.1 unset_runtime, blanks) in
                ground (arith, flags, off, free)
          ],
        )
      ]

  -- The scope has the runtimes that the run may apply on.
  pub apply_scope_runtimes-mem :
      (scope : List String) (rt : String)
      → apply_scope_runtimes ctx ≡ some scope
      → (mem rt scope ≡ true) ↔ IsInScope ctx rt
  unfolding apply_scope_runtimes
  apply_scope_runtimes-mem scope rt h =
      let flags = add_flags-entries (first_named ctx.apply_runtime) ctx.apply_flags in
      let scoped : all_named.scoped ≡ scope = ground (arith, flags, h) in
      let named =
        add_entries-mem (first_named ctx.apply_runtime) (all_entries ctx.apply_flags) rt in
      let first = first_named-mem rt in
      (
        λ m. elim (named.0 (ap (mem rt) scoped ∙ m)) [
          | inl own ↦ inl (first.0 own)
          | inr entry ↦ inr entry
        ],
        λ m. elim m [
          | inl own ↦ sym (ap (mem rt) scoped) ∙ named.1 (inl (first.1 own))
          | inr entry ↦ sym (ap (mem rt) scoped) ∙ named.1 (inr entry)
        ],
      )
