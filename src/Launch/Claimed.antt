-- ===== src/Launch/Claimed.antt =====
-- launch_params.py, `validate_claimed_hostnames`: when a run may launch.
use cs_image_system.Base.{
  ℕ, ◌≤◌, String, ◌≡◌, ◌↔◌, inl, inr, refl, subst, Bool, true, false, Option, none, some, List, [],
  ◌∷◌, All, arith, length, select, ◌==◌, if◌then◌else◌, Bool-cases, Option-cases,
}
use cs_image_system.Lifecycles.Builtin.{Lifecycle}
use cs_image_system.Apply.{apply_flag_allows}
use cs_image_system.Launch.{LaunchInstance, Server, LaunchCtx, LaunchState}
use cs_image_system.Launch.Names.{recorded_of, canonical_hostname}
use cs_image_system.Launch.Record.{is_applied}
use cs_image_system.Launch.Checks.{
  is_launched, claim_verdict, registry_of, claim_error, claim_errors, requests_instances,
  validate_claimed_hostnames,
}

-- How many servers of the registry have the hostname.
abbrev pub claims : String → List Server → ℕ
claims hostname servers = length (select (λ (s : Server). s.hostname == hostname) servers)

-- In an applied root, a registry that is there has answered, and the hostname of the instance has no
-- server in it, or at most one when the machine stands.
abbrev pub IsClaimable : LaunchCtx → LaunchState → LaunchInstance → Type 0
IsClaimable ctx st i =
    (answer : Option (List Server))
    → is_applied ctx i ≡ true
    → registry_of ctx i ≡ some answer
    → (servers : List Server) × (answer ≡ some servers)
      × (claims (canonical_hostname ctx st i) servers
          ≤ (if is_launched (recorded_of st i.pinned.name) then 1 else 0))

claim_verdict-none_iff :
    (name hostname : String) (launched : Bool) (answer : Option (List Server))
    → (claim_verdict name hostname launched answer ≡ none) ↔ (
        (servers : List Server) × (answer ≡ some servers)
        × (claims hostname servers ≤ (if launched then 1 else 0)))
unfolding claim_verdict
claim_verdict-none_iff name hostname launched none = (λ h. cc, λ (servers, is, few). cc)
claim_verdict-none_iff name hostname launched (some servers) = (
  λ h. (servers, refl, ground (arith, h)),
  λ (others, same, few).
      let e : others ≡ servers = cc in
      let few' : claims hostname servers ≤ (if launched then 1 else 0) =
        subst (λ (ss : List Server). claims hostname ss ≤ (if launched then 1 else 0)) e few in
      ground (arith, few'),
)

claim_error-none_iff :
    (ctx : LaunchCtx) (st : LaunchState) (i : LaunchInstance)
    → (claim_error ctx st i ≡ none) ↔ IsClaimable ctx st i
unfolding claim_error
claim_error-none_iff ctx st i = (
  λ quiet answer applied asked.
      (claim_verdict-none_iff i.pinned.name (canonical_hostname ctx st i)
          (is_launched (recorded_of st i.pinned.name)) answer).0
        (ground (arith, quiet, applied, asked)),
  λ fine. elim (Bool-cases (is_applied ctx i)) [
    | inl applied ↦ elim (Option-cases (registry_of ctx i)) [
      | inl no_registry ↦ ground (arith, no_registry)
      | inr (answer, asked) ↦ ground (
        arith,
        applied,
        asked,
        (claim_verdict-none_iff i.pinned.name (canonical_hostname ctx st i)
              (is_launched (recorded_of st i.pinned.name)) answer).1
            (fine answer applied asked),
      )
    ]
    | inr held ↦ ground (arith, held)
  ],
)

claim_errors-nil_iff :
    (ctx : LaunchCtx) (st : LaunchState) (is : List LaunchInstance)
    → (claim_errors ctx st is ≡ []) ↔ All (IsClaimable ctx st) is
unfolding claim_errors
claim_errors-nil_iff ctx st [] = (λ _. tt, λ _. refl)
claim_errors-nil_iff ctx st (i ∷ is) =
    let rest = claim_errors-nil_iff ctx st is in
    let first = claim_error-none_iff ctx st i in
    (
      λ quiet. elim (Option-cases (claim_error ctx st i)) [
        | inl fine ↦ (first.0 fine, rest.0 (ground (arith, fine, quiet)))
        | inr (e, found) ↦ absurd (ground (arith, found, quiet))
      ],
      λ fine. ground (arith, first.1 fine.0, rest.1 fine.1),
    )

-- A run that can launch finds no fault with the hostnames exactly when, in every applied root, the
-- group's registry answers, and the hostname of an instance is registered by no server, or by at most
-- one when its machine stands.
pub validate_claimed_hostnames-nil_iff :
    (ctx : LaunchCtx) (st : LaunchState) (requested : List Lifecycle)
    → requests_instances requested ≡ true
    → apply_flag_allows ctx.apply_instances none [] ≡ true
    → ctx.dry_run ≡ false
    → (validate_claimed_hostnames ctx st requested ≡ []) ↔ All (IsClaimable ctx st) ctx.instances
unfolding validate_claimed_hostnames
validate_claimed_hostnames-nil_iff ctx st requested asked applying real =
    let all = claim_errors-nil_iff ctx st ctx.instances in
    (
      λ quiet. all.0 (ground (arith, asked, applying, real, quiet)),
      λ fine. ground (arith, asked, applying, real, all.1 fine),
    )
