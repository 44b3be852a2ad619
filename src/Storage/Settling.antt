-- ===== src/Storage/Settling.antt =====
-- storage_state.py: where a name stands after the recorded transitions of a run.
use mathlib.Core.List.{map}
use cs_image_system.Base.{
  String, ◌≡◌, refl, sym, ◌∙◌, ap, ◌≢◌, ◌⊎◌, inl, inr, true, some, List, [], ◌∷◌, arith, ◌==◌,
  eq_iff, eq_refl, any, All, All-imp, All-map, Distinct, In, In→All, if◌then◌else◌, Bool-cases,
}
use cs_image_system.Base.Dict.{get, get-put}
use cs_image_system.Storage.{State, option_state_eq, Storage, Transition, action, States, Ctx}
use cs_image_system.Storage.Record.{storage_state, record_storage_transition}
use cs_image_system.Storage.Transitions.{
  by_name, pending_from, all_transitions, facts_of, record_applied_transitions,
}
use cs_image_system.Storage.Moves.{option_state_eq_iff}

-- The context of the next run: the same declarations over the new records.
abbrev pub next : Ctx → States → Ctx
next ctx states = record ctx { states = states }

abbrev pub run_storage : Ctx → States
run_storage ctx = record_applied_transitions ctx (all_transitions ctx) ctx.states

-- One recorded transition, as `record_applied_transitions` makes it.
abbrev pub step : Ctx → States → Transition → States
step ctx states t =
    record_storage_transition states t.storage t.from_state t.to_state ctx.run_id (action t)
      (facts_of ctx (get (by_name ctx.storages) t.storage))

pub storage_state-step :
    (ctx : Ctx) (states : States) (t : Transition) (k : String)
    → storage_state (step ctx states t) k
      ≡ (if t.storage == k then some t.to_state else storage_state states k)
unfolding storage_state record_storage_transition
storage_state-step ctx states t k = rw get-put (ground arith)

module _ (ctx : Ctx) (k : String) (v : State) where
  -- A name whose transitions all lead to `v`, and that is there already or has one, ends there.
  pub settles :
      (ts : List Transition) (states : States)
      → All (λ (t : Transition). (t.storage == k) ≡ true → t.to_state ≡ v) ts
      → (storage_state states k ≡ some v) ⊎ (any (λ (t : Transition). t.storage == k) ts ≡ true)
      → storage_state (record_applied_transitions ctx ts states) k ≡ some v
  unfolding record_applied_transitions
  settles [] states h (inl e) = e
  settles [] states h (inr e) = cc
  settles (t ∷ ts) states h d =
      settles ts (step ctx states t) h.1 (elim (Bool-cases (t.storage == k)) [
        | inl same ↦ inl (rw (storage_state-step, same) (ap some (h.0 same)))
        | inr other ↦ elim d [
          | inl e ↦ inl (rw (storage_state-step, other) e)
          | inr e ↦ inr (ground arith)
        ]
      ])

-- The requested states are a function of the names.
abbrev pub Requests : String → State → List Storage → Type 0
Requests k v ss = All (λ (s : Storage). s.name ≡ k → s.state ≡ v) ss

pub pending-to :
    (states : States) (k : String) (v : State) (ss : List Storage)
    → Requests k v ss
    → All (λ (t : Transition). (t.storage == k) ≡ true → t.to_state ≡ v) (pending_from states ss)
unfolding pending_from
pending-to states k v [] h = tt
pending-to states k v (s ∷ ss) h =
    elim (Bool-cases (option_state_eq (storage_state states s.name) (some s.state))) [
      | inl e ↦ rw e (pending-to states k v ss h.1)
      | inr e ↦ rw e (λ same. h.0 ((eq_iff s.name k).0 same), pending-to states k v ss h.1)
    ]

pub pending-any :
    (states : States) (s : Storage) (ss : List Storage)
    → In s ss
    → (storage_state states s.name ≡ some s.state)
      ⊎ (any (λ (t : Transition). t.storage == s.name) (pending_from states ss) ≡ true)
unfolding pending_from
pending-any states s [] m = absurd m
pending-any states s (x ∷ ss) (inl e) =
    elim (Bool-cases (option_state_eq (storage_state states s.name) (some s.state))) [
      | inl same ↦ inl ((option_state_eq_iff (storage_state states s.name) (some s.state)).0 same)
      | inr other ↦ inr (rw (← e) (rw other (rw eq_refl refl)))
    ]
pending-any states s (x ∷ ss) (inr m) = ground (arith, pending-any states s ss m)

pub Requests-of_Distinct :
    (ss : List Storage) (s : Storage)
    → Distinct (map (λ (x : Storage). x.name) ss)
    → In s ss
    → Requests s.name s.state ss
Requests-of_Distinct [] s d m = absurd m
Requests-of_Distinct (x ∷ ss) s d (inl e) = (
  λ _. ap (λ (y : Storage). y.state) (sym e),
  All-imp (λ (y : Storage). x.name ≢ y.name) _ ss
      (λ y apart same. absurd (apart (ap (λ (z : Storage). z.name) (sym e) ∙ sym same)))
      ((All-map (λ n. x.name ≢ n) (λ (y : Storage). y.name) ss).0 d.0),
)
Requests-of_Distinct (x ∷ ss) s d (inr m) = (
  λ same. absurd (
      In→All (λ (y : Storage). x.name ≢ y.name) ss s
        ((All-map (λ n. x.name ≢ n) (λ (y : Storage). y.name) ss).0 d.0) m same),
  Requests-of_Distinct ss s d.1 m,
)
