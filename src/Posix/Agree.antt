-- ===== src/Posix/Agree.antt =====
-- posix_ids.py: a name resolves to an id exactly when the sides that supply one agree on it.
use cs_image_system.Base.{
  ℕ, ◌≡◌, refl, sym, ◌∙◌, ap, subst, ◌↔◌, inl, inr, true, none, some, List, [], ◌∷◌, any, num_eq,
  arith, Bool-cases, Option-cases, All, In, In→All, All-of_In,
}
use cs_image_system.Base.Sorting.{In-sorted, sorted, All-sorted, All-of_sorted}
use cs_image_system.Posix.{
  Claim, is_deferred, supplied_id, claim_le, supplied, clash_with, resolved_to, verdict_of,
  resolve_name,
}

-- What the claim supplies, if anything, is the id.
abbrev pub Agrees : ℕ → Claim → Type 0
Agrees i c = (j : ℕ) → supplied_id c ≡ some j → j ≡ i

-- Some claim supplies the id.
abbrev pub IsSupplied : ℕ → List Claim → Type 0
IsSupplied i claims = (c : Claim) × In c claims × (supplied_id c ≡ some i)

abbrev All-num : ℕ → List (Claim × ℕ) → Type 0
All-num i = All (λ (s : Claim × ℕ). s.1 ≡ i)

supplied-Agrees :
    (i : ℕ) (claims : List Claim) → All-num i (supplied claims) → All (Agrees i) claims
unfolding supplied
supplied-Agrees i [] h = tt
supplied-Agrees i (c ∷ claims) h = elim (Option-cases (supplied_id c)) [
  | inl nothing ↦ (λ j at. cc, supplied-Agrees i claims (rw (nothing, supplied) at h))
  | inr (k, at) ↦
      let h' : (k ≡ i) × All-num i (supplied claims) = rw (at, supplied) at h in
      (λ j found. cc (at, found, h'.0), supplied-Agrees i claims h'.1)
]

clash_with-none : (i : ℕ) (ss : List (Claim × ℕ)) → clash_with i ss ≡ none → All-num i ss
unfolding clash_with
clash_with-none i [] h = tt
clash_with-none i (s ∷ ss) h = elim (Bool-cases (num_eq s.1 i)) [
  | inl same ↦ (ground (arith, same), clash_with-none i ss (rw same at h))
  | inr other ↦ cc (rw other at h)
]

clash_with-agreed : (i : ℕ) (ss : List (Claim × ℕ)) → All-num i ss → clash_with i ss ≡ none
unfolding clash_with
clash_with-agreed i [] h = refl
clash_with-agreed i (s ∷ ss) h =
    let same : num_eq s.1 i ≡ true = ground (arith, h.0) in rw same (clash_with-agreed i ss h.1)

Agrees-supplied :
    (i : ℕ) (claims : List Claim) → All (Agrees i) claims → All-num i (supplied claims)
unfolding supplied
Agrees-supplied i [] h = tt
Agrees-supplied i (c ∷ claims) h = elim (Option-cases (supplied_id c)) [
  | inl nothing ↦ rw (nothing, supplied) (Agrees-supplied i claims h.1)
  | inr (k, at) ↦ rw (at, supplied) (h.0 k at, Agrees-supplied i claims h.1)
]

IsSupplied-supplied :
    (i : ℕ) (claims : List Claim) (s : Claim × ℕ) (ss : List (Claim × ℕ))
    → supplied claims ≡ s ∷ ss
    → s.1 ≡ i
    → IsSupplied i claims
unfolding supplied
IsSupplied-supplied i [] s ss h e = cc
IsSupplied-supplied i (c ∷ claims) s ss h e = elim (Option-cases (supplied_id c)) [
  | inl nothing ↦
      let (d, m, at) = IsSupplied-supplied i claims s ss (rw (nothing, supplied) at h) e in
      (d, inr m, at)
  | inr (k, at) ↦
      let head : (c, k) ≡ s = cc (rw (at, supplied) at h) in
      (c, inl refl, at ∙ ap some (ap (λ (x : Claim × ℕ). x.1) head ∙ e))
]

supplied-nonempty :
    (i : ℕ) (claims : List Claim) (c : Claim)
    → In c claims
    → supplied_id c ≡ some i
    → (s : Claim × ℕ) × (ss : List (Claim × ℕ)) × (supplied claims ≡ s ∷ ss)
unfolding supplied
supplied-nonempty i [] c m at = absurd m
supplied-nonempty i (d ∷ claims) c m at = elim (Option-cases (supplied_id d)) [
  | inr (k, found) ↦ rw (found, supplied) ((d, k), supplied claims, refl)
  | inl nothing ↦ elim m [
    | inl same ↦ cc (same, nothing, at)
    | inr later ↦ rw (nothing, supplied) (supplied-nonempty i claims c later at)
  ]
]

verdict_of-resolved :
    (i : ℕ) (ss : List (Claim × ℕ)) (ordered : List Claim)
    → verdict_of ss ordered ≡ resolved_to i
    → (s : Claim × ℕ) × (rest : List (Claim × ℕ)) × (ss ≡ s ∷ rest) × (s.1 ≡ i) × All-num i rest
unfolding verdict_of
verdict_of-resolved i [] ordered h = elim (Bool-cases (any is_deferred ordered)) [
  | inl later ↦ cc (rw later at h)
  | inr never ↦ cc (rw never at h)
]
verdict_of-resolved i (s ∷ rest) ordered h = elim (Option-cases (clash_with s.1 rest)) [
  | inl agreed ↦
      let e : s.1 ≡ i = cc (rw (agreed, verdict_of) at h) in
      (s, rest, refl, e, subst (λ n. All-num n rest) e (clash_with-none s.1 rest agreed))
  | inr (c, clash) ↦ cc (rw (clash, verdict_of) at h)
]

verdict_of-agreed :
    (i : ℕ) (s : Claim × ℕ) (rest : List (Claim × ℕ)) (ordered : List Claim)
    → s.1 ≡ i
    → All-num i rest
    → verdict_of (s ∷ rest) ordered ≡ resolved_to i
unfolding verdict_of
verdict_of-agreed i s rest ordered e agreed =
    let quiet = clash_with-agreed s.1 rest (subst (λ n. All-num n rest) (sym e) agreed) in
    rw (quiet, verdict_of) (ap resolved_to e)

-- A name resolves to an id exactly when a side supplies the id and every side that supplies one
-- supplies that, whatever the ranks and the order of the claims.
pub resolve_name-resolved_iff :
    (claims : List Claim) (i : ℕ)
    → (resolve_name claims ≡ resolved_to i) ↔ IsSupplied i claims × All (Agrees i) claims
unfolding resolve_name
resolve_name-resolved_iff claims i =
    let ordered = sorted claim_le claims in
    (
      λ h.
          let (s, rest, e, first, agreed) = verdict_of-resolved i (supplied ordered) ordered h in
          let (c, m, at) = IsSupplied-supplied i ordered s rest e first in
          let member : In c claims =
            In→All (λ x. In x claims) ordered c
              (All-sorted claim_le (λ x. In x claims) claims
                (All-of_In (λ x. In x claims) claims (λ x n. n)))
              m in
          (
            (c, member, at),
            All-of_sorted claim_le (Agrees i) claims
                (supplied-Agrees i ordered (subst (All-num i) (sym e) (first, agreed))),
          ),
      λ h.
          let (c, m, at) = h.0 in
          let (s, rest, e) = supplied-nonempty i ordered c (In-sorted claim_le claims c m) at in
          let agreed =
            subst (All-num i) e
              (Agrees-supplied i ordered (All-sorted claim_le (Agrees i) claims h.1)) in
          ap (λ l. verdict_of l ordered) e ∙ verdict_of-agreed i s rest ordered agreed.0 agreed.1,
    )
