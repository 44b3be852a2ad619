-- ===== src/Storage/Undeclared.antt =====
-- storage_state.py: the transitions of declared and of undeclared names, and the recorded names.
use cs_image_system.Base.{
  String, ◌≡◌, refl, ap, ◌⊎◌, inl, inr, true, false, Option, some, List, [], ◌∷◌, arith, ◌==◌,
  eq_refl, any, mem, All, Distinct, In, Bool-cases, ◌||◌,
}
use cs_image_system.Base.Dict.{Dict, keys, All-keys-put, Distinct-put}
use cs_image_system.Storage.{
  destroyed, state_eq, option_state_eq, Storage, Transition, Entry, States, Ctx,
}
use cs_image_system.Storage.Record.{storage_state, record_storage_transition}
use cs_image_system.Storage.Transitions.{
  names, pending_from, undeclared_from, record_applied_transitions,
}
use cs_image_system.Storage.Moves.{state_eq_iff, option_state_eq_iff}
use cs_image_system.Storage.Settling.{step}

pub mem-names : (ss : List Storage) (s : Storage) → In s ss → mem s.name (names ss) ≡ true
unfolding names
mem-names [] s m = absurd m
mem-names (x ∷ ss) s (inl e) = rw (← e) (rw eq_refl)
mem-names (x ∷ ss) s (inr m) = ground (arith, mem-names ss s m)

pub pending-keys :
    (P : String → Type 0) (states : States) (ss : List Storage)
    → All (λ (s : Storage). P s.name) ss
    → All (λ (t : Transition). P t.storage) (pending_from states ss)
unfolding pending_from
pending-keys P states [] h = tt
pending-keys P states (s ∷ ss) h =
    elim (Bool-cases (option_state_eq (storage_state states s.name) (some s.state))) [
      | inl e ↦ rw e (pending-keys P states ss h.1)
      | inr e ↦ rw e (h.0, pending-keys P states ss h.1)
    ]

module _ (declared : List String) where
  abbrev pub IsDemise : Transition → Type 0
  IsDemise t = (mem t.storage declared ≡ false) × (t.to_state ≡ destroyed)

  module _ (read_model : Dict (Option String)) where
    pub undeclared-IsDemise :
        (es : List (String × Entry)) → All IsDemise (undeclared_from declared read_model es)
    unfolding undeclared_from
    undeclared-IsDemise [] = tt
    undeclared-IsDemise ((k, e) ∷ es) =
        elim (Bool-cases (mem k declared || state_eq e.state destroyed)) [
          | inl skip ↦ rw skip (undeclared-IsDemise es)
          | inr due ↦ rw due ((ground arith, refl), undeclared-IsDemise es)
        ]

    pub undeclared-keys :
        (P : String → Type 0) (es : List (String × Entry))
        → All (λ (e : String × Entry). P e.0) es
        → All (λ (t : Transition). P t.storage) (undeclared_from declared read_model es)
    unfolding undeclared_from
    undeclared-keys P [] h = tt
    undeclared-keys P ((k, e) ∷ es) h =
        elim (Bool-cases (mem k declared || state_eq e.state destroyed)) [
          | inl skip ↦ rw skip (undeclared-keys P es h.1)
          | inr due ↦ rw due (h.0, undeclared-keys P es h.1)
        ]

    pub undeclared-any :
        (k : String) (es : List (String × Entry)) (e : Entry)
        → mem k declared ≡ false
        → In (k, e) es
        → (e.state ≡ destroyed)
          ⊎ (any (λ (t : Transition). t.storage == k) (undeclared_from declared read_model es)
              ≡ true)
    unfolding undeclared_from
    undeclared-any k [] e out m = absurd m
    undeclared-any k ((j, f) ∷ es) e out (inl same) =
        elim (Bool-cases (state_eq e.state destroyed)) [
          | inl gone ↦ inl ((state_eq_iff e.state destroyed).0 gone)
          | inr due ↦
              let at_key : k ≡ j = ap (λ (p : String × Entry). p.0) same in
              let at_entry : e ≡ f = ap (λ (p : String × Entry). p.1) same in
              inr (rw (← at_key, ← at_entry) (rw (out, due) (rw eq_refl refl)))
        ]
    undeclared-any k ((j, f) ∷ es) e out (inr m) = ground (arith, undeclared-any k es e out m)

    pub undeclared-nil :
        (es : List (String × Entry))
        → All (λ (e : String × Entry). (mem e.0 declared ≡ true) ⊎ (e.1.state ≡ destroyed)) es
        → undeclared_from declared read_model es ≡ []
    unfolding undeclared_from
    undeclared-nil [] h = refl
    undeclared-nil ((k, e) ∷ es) h =
        ground (arith, h.0, state_eq_iff e.state destroyed, undeclared-nil es h.1)

pub pending-nil :
    (states : States) (ss : List Storage)
    → All (λ (s : Storage). storage_state states s.name ≡ some s.state) ss
    → pending_from states ss ≡ []
unfolding pending_from
pending-nil states [] h = refl
pending-nil states (s ∷ ss) h =
    rw ((option_state_eq_iff (storage_state states s.name) (some s.state)).1 h.0)
      (pending-nil states ss h.1)

-- The written names are those of the transitions.
pub All-keys-recorded :
    (P : String → Type 0) (ctx : Ctx) (ts : List Transition) (states : States)
    → All P (keys states)
    → All (λ (t : Transition). P t.storage) ts
    → All P (keys (record_applied_transitions ctx ts states))
unfolding record_applied_transitions record_storage_transition
All-keys-recorded P ctx [] states h k = h
All-keys-recorded P ctx (t ∷ ts) states h k =
    All-keys-recorded P ctx ts (step ctx states t) ((All-keys-put P states t.storage _).1 (h, k.0))
      k.1

pub Distinct-recorded :
    (ctx : Ctx) (ts : List Transition) (states : States)
    → Distinct (keys states)
    → Distinct (keys (record_applied_transitions ctx ts states))
unfolding record_applied_transitions record_storage_transition
Distinct-recorded ctx [] states h = h
Distinct-recorded ctx (t ∷ ts) states h =
    Distinct-recorded ctx ts (step ctx states t) (Distinct-put states t.storage _ h)
