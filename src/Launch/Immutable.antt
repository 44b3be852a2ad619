-- ===== src/Launch/Immutable.antt =====
-- launch_params.py, `validate_immutability`: the launch parameters of a machine that stands do not
-- change.
use cs_image_system.Base.{
  String, ◌≡◌, ◌≢◌, ◌↔◌, ◌⊎◌, inl, inr, refl, ap, sym, ◌∙◌, true, false, Option, none, some, List,
  [], ◌∷◌, ◌++◌, All, In, arith, length, All-left, All-right, All-of_In, In→All, option_eq, ◌==◌,
  eq_iff, Bool-cases, Option-cases, append-eq-nil,
}
use cs_image_system.Base.Dict.{Dict, get, keys}
use cs_image_system.Base.Sorting.{sorted, text_le, length-sorted}
use cs_image_system.Generations.{Params, Mount}
use cs_image_system.Launch.{LaunchInstance, LaunchCtx, LaunchState}
use cs_image_system.Launch.Names.{recorded_of, will_replace, compute_launch_params, detachments}
use cs_image_system.Launch.Checks.{
  mounts_eq, changed_fields, changed_others, changed_keys, without_mounts, is_nil, is_same_launch,
  instance_changes, changes_of, validate_immutability,
}

-- The launch parameters that the check compares are the same.
pub record Agrees (old new : Params) : Type 0 where
  pub same_alias : old.alias ≡ new.alias
  pub same_kind : old.ephemeral ≡ new.ephemeral
  pub same_group : old.group ≡ new.group
  pub same_hostname : old.hostname ≡ new.hostname
  pub same_mounts : mounts_eq old.mounts new.mounts ≡ true
  pub same_others : (k : String) → get old.others k ≡ get new.others k

option_eq_iff : (a b : Option String) → (option_eq a b ≡ true) ↔ (a ≡ b)
option_eq_iff none none = (λ _. refl, λ _. refl)
option_eq_iff none (some b) = (λ h. cc, λ h. cc)
option_eq_iff (some a) none = (λ h. cc, λ h. cc)
option_eq_iff (some a) (some b) = (λ h. ap some ((eq_iff a b).0 h), λ h. (eq_iff a b).1 cc)

changed_fields-nil_iff :
    (old new : Params)
    → (changed_fields old new ≡ []) ↔ (
        (old.alias ≡ new.alias)
        × (old.ephemeral ≡ new.ephemeral)
        × (old.group ≡ new.group)
        × (old.hostname ≡ new.hostname)
        × (mounts_eq old.mounts new.mounts ≡ true))
unfolding changed_fields
changed_fields-nil_iff old new = (
  λ h. (
    (option_eq_iff old.alias new.alias).0 (ground (arith, h)),
    ground (arith, h),
    (option_eq_iff old.group new.group).0 (ground (arith, h)),
    (option_eq_iff old.hostname new.hostname).0 (ground (arith, h)),
    ground (arith, h),
  ),
  λ (a, k, g, n, m). ground (
    arith,
    (option_eq_iff old.alias new.alias).1 a,
    k,
    (option_eq_iff old.group new.group).1 g,
    (option_eq_iff old.hostname new.hostname).1 n,
    m,
  ),
)

changed_others-nil_iff :
    (d e : Dict String) (ks : List String)
    → (changed_others d e ks ≡ []) ↔ All (λ k. get d k ≡ get e k) ks
unfolding changed_others
changed_others-nil_iff d e [] = (λ _. tt, λ _. refl)
changed_others-nil_iff d e (k ∷ ks) =
    let rest = changed_others-nil_iff d e ks in
    (
      λ h. elim (Bool-cases (option_eq (get d k) (get e k))) [
        | inl same ↦ ((option_eq_iff (get d k) (get e k)).0 same, rest.0 (ground (arith, same, h)))
        | inr apart ↦ absurd (ground (arith, apart, h))
      ],
      λ h. ground (arith, (option_eq_iff (get d k) (get e k)).1 h.0, rest.1 h.1),
    )

-- A key of a mapping is in the list of its keys.
In-keys : (d : Dict String) (k v : String) → get d k ≡ some v → In k (keys d)
unfolding get
In-keys [] k v h = cc
In-keys ((j, w) ∷ d) k v h = elim (Bool-cases (j == k)) [
  | inl same ↦ inl (sym ((eq_iff j k).0 same))
  | inr other ↦ inr (In-keys d k v (ground (arith, other, h)))
]

every_key :
    (d e : Dict String)
    → All (λ k. get d k ≡ get e k) (keys d ++ keys e) ↔ ((k : String) → get d k ≡ get e k)
every_key d e = (
  λ h k. elim (Option-cases (get d k)) [
    | inr (v, found) ↦
        In→All (λ k. get d k ≡ get e k) (keys d) k
          (All-left (λ k. get d k ≡ get e k) (keys d) (keys e) h) (In-keys d k v found)
    | inl absent ↦ elim (Option-cases (get e k)) [
      | inl absent' ↦ absent ∙ sym absent'
      | inr (v, found) ↦
          In→All (λ k. get d k ≡ get e k) (keys e) k
            (All-right (λ k. get d k ≡ get e k) (keys d) (keys e) h) (In-keys e k v found)
    ]
  ],
  λ h. All-of_In (λ k. get d k ≡ get e k) (keys d ++ keys e) (λ k _. h k),
)

sorted-nil_iff : (ks : List String) → (sorted text_le ks ≡ []) ↔ (ks ≡ [])
unfolding sorted
sorted-nil_iff [] = (λ h. refl, λ h. refl)
sorted-nil_iff (k ∷ ks) =
    (λ h. absurd (ground (arith, length-sorted text_le (k ∷ ks), ap length h)), λ h. cc)

changed_keys-nil_iff : (old new : Params) → (changed_keys old new ≡ []) ↔ Agrees old new
unfolding changed_keys
changed_keys-nil_iff old new =
    let fields = changed_fields-nil_iff old new in
    let others =
      changed_others-nil_iff old.others new.others (keys old.others ++ keys new.others) in
    (
      λ h.
          let (no_fields, no_others) = append-eq-nil _ _ ((sorted-nil_iff _).0 h) in
          let (a, k, g, n, m) = fields.0 no_fields in
          record {
            same_alias = a;
            same_kind = k;
            same_group = g;
            same_hostname = n;
            same_mounts = m;
            same_others = (every_key old.others new.others).0 (others.0 no_others);
          },
      λ c. (sorted-nil_iff _).1 (
          rw
            (
              fields.1 (c.same_alias, c.same_kind, c.same_group, c.same_hostname, c.same_mounts),
              others.1 ((every_key old.others new.others).1 c.same_others),
            )
            refl),
    )

-- The new parameters agree with the recorded ones, or with these after a detach.
abbrev pub IsSameLaunch : Params → Params → List Mount → Type 0
IsSameLaunch old new removed =
    Agrees old new ⊎ ((removed ≢ []) × Agrees (without_mounts old removed) new)

is_nil_iff : {A : Type 0} (xs : List A) → (is_nil xs ≡ true) ↔ (xs ≡ [])
is_nil_iff [] = (λ _. refl, λ _. refl)
is_nil_iff (x ∷ xs) = (λ h. cc, λ h. cc)

is_same_launch_iff :
    (old new : Params) (removed : List Mount)
    → (is_same_launch old new removed ≡ true) ↔ IsSameLaunch old new removed
unfolding is_same_launch
is_same_launch_iff old new removed =
    let whole = changed_keys-nil_iff old new in
    let less = changed_keys-nil_iff (without_mounts old removed) new in
    (
      λ h. elim (Bool-cases (is_nil (changed_keys old new))) [
        | inl same ↦ inl (whole.0 ((is_nil_iff (changed_keys old new)).0 same))
        | inr differs ↦ inr (
          λ none_removed. absurd (ground (arith, differs, h, (is_nil_iff removed).1 none_removed)),
          less.0 (
              (is_nil_iff (changed_keys (without_mounts old removed) new)).0
                (ground (arith, differs, h))),
        )
      ],
      λ (h : IsSameLaunch old new removed). elim h [
        | inl same ↦ ground (arith, (is_nil_iff (changed_keys old new)).1 (whole.1 same))
        | inr (some_removed, same) ↦ elim (Bool-cases (is_nil removed)) [
          | inl empty ↦ absurd (some_removed ((is_nil_iff removed).0 empty))
          | inr removes ↦ ground (
            arith,
            removes,
            (is_nil_iff (changed_keys (without_mounts old removed) new)).1 (less.1 same),
          )
        ]
      ],
    )

-- A machine that stands and is not replaced has its launch parameters, or less mounts.
abbrev pub IsUnchanged : LaunchCtx → LaunchState → LaunchInstance → Type 0
IsUnchanged ctx st i =
    (old : Params)
    → recorded_of st i.pinned.name ≡ some old
    → old.launched ≡ true
    → will_replace ctx st i ≡ false
    → IsSameLaunch old (compute_launch_params ctx st i) (detachments st i)

instance_changes-nil_iff :
    (ctx : LaunchCtx) (st : LaunchState) (i : LaunchInstance)
    → (instance_changes ctx st i ≡ []) ↔ IsUnchanged ctx st i
unfolding instance_changes will_replace
instance_changes-nil_iff ctx st i = (
  λ quiet old found on stays.
      (is_same_launch_iff old (compute_launch_params ctx st i) (detachments st i)).0
        (ground (arith, quiet, found, on, stays)),
  λ same. elim (Option-cases (recorded_of st i.pinned.name)) [
    | inl unknown ↦ ground (arith, unknown)
    | inr (old, found) ↦ elim (Bool-cases old.launched) [
      | inl on ↦ elim (Bool-cases (will_replace ctx st i)) [
        | inl replaces ↦ ground (arith, found, replaces)
        | inr stays ↦ ground (
          arith,
          found,
          (is_same_launch_iff old (compute_launch_params ctx st i) (detachments st i)).1
              (same old found on stays),
        )
      ]
      | inr off ↦ ground (arith, found, off)
    ]
  ],
)

changes_of-nil_iff :
    (ctx : LaunchCtx) (st : LaunchState) (is : List LaunchInstance)
    → (changes_of ctx st is ≡ []) ↔ All (IsUnchanged ctx st) is
unfolding changes_of
changes_of-nil_iff ctx st [] = (λ _. tt, λ _. refl)
changes_of-nil_iff ctx st (i ∷ is) =
    let first = instance_changes-nil_iff ctx st i in
    let rest = changes_of-nil_iff ctx st is in
    (
      λ quiet. let (one, others) = append-eq-nil _ _ quiet in (first.0 one, rest.0 others),
      λ same. rw (first.1 same.0, rest.1 same.1) refl,
    )

-- The check finds no fault exactly when every machine that stands and is not replaced in this run
-- would be launched by its recorded parameters, or by these without the mounts that its declaration
-- no longer lists; its build and its machine type may differ.
pub validate_immutability-nil_iff :
    (ctx : LaunchCtx) (st : LaunchState)
    → (validate_immutability ctx st ≡ []) ↔ All (IsUnchanged ctx st) ctx.instances
unfolding validate_immutability
validate_immutability-nil_iff ctx st = changes_of-nil_iff ctx st ctx.instances
