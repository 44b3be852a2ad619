-- ===== src/Storage/Run.antt =====
-- storage_state.py and meta_state.py: a validated storage run extends every record's life by legal
-- moves only.
use mathlib.Core.List.{map, map-append}
use cs_image_system.Base.{
  String, ◌≡◌, refl, sym, ◌∙◌, subst, ◌≢◌, inl, inr, true, false, ◌||◌, Option, none, some, List,
  [], ◌∷◌, arith, ◌==◌, eq_iff, mem, All, All-append, All-imp, All-both, All-map, All-of_In,
  Distinct, Distinct-append, Bool-cases,
}
use cs_image_system.Base.Dict.{Dict, get, get-put, keys, get-entries}
use cs_image_system.Base.Sorting.{sorted, All-sorted, Distinct-sorted}
use cs_image_system.Storage.{
  State, active, archived, destroyed, state_eq, option_state_eq, Storage, Transition, Action,
  action, Entry, States, Ctx,
}
use cs_image_system.Storage.Record.{
  entry_state, storage_state, entry_or_new, moved, record_storage_transition,
}
use cs_image_system.Storage.Transitions.{
  names, pending_from, pending_transitions, undeclared_from, undeclared_transitions, entry_le,
  all_transitions, record_applied_transitions,
}
use cs_image_system.Storage.Moves.{CanMove, destroy_active, destroy_archived, option_state_eq_iff}
use cs_image_system.Storage.Admissible.{IsAllowed, IsAdmissible}
use cs_image_system.Storage.Settling.{step, storage_state-step, run_storage}
use cs_image_system.Storage.Undeclared.{
  mem-names, pending-keys, IsDemise, undeclared-IsDemise, undeclared-keys,
}
use cs_image_system.Storage.History.{IsLived, AllLived, moved-IsLived, created-IsLived}

-- The transition starts where the record stands, and is a legal move.
abbrev IsDue : States → Transition → Type 0
IsDue states t = (t.from_state ≡ storage_state states t.storage) × CanMove t.from_state t.to_state

abbrev target : Transition → String
target t = t.storage

entry-IsLived :
    (o : Option Entry) (from : Option State) (to : State) (run : String) (act : Option Action)
    (facts : Option (Dict String))
    → ((e : Entry) → o ≡ some e → IsLived e)
    → from ≡ entry_state o
    → CanMove from to
    → IsLived (moved (entry_or_new o to) from to run act facts)
unfolding entry_state entry_or_new
entry-IsLived none from to run act facts h at m =
    rw at (created-IsLived to run act facts (subst (λ c. CanMove c to) at m))
entry-IsLived (some old) from to run act facts h at m =
    rw at (moved-IsLived old to run act facts (h old refl) (subst (λ c. CanMove c to) at m))

IsLived-of_some : (a e : Entry) → some a ≡ some e → IsLived a → IsLived e
IsLived-of_some a e h l = subst IsLived (cc) l

module _ (ctx : Ctx) where
  step-AllLived :
      (states : States) (t : Transition)
      → AllLived states
      → IsDue states t
      → AllLived (step ctx states t)
  unfolding storage_state record_storage_transition
  step-AllLived states t h due name e found = elim (Bool-cases (t.storage == name)) [
    | inl same ↦ IsLived-of_some _ e (rw (get-put, same) at found) (
        entry-IsLived (get states t.storage) t.from_state t.to_state ctx.run_id (action t) _
          (h t.storage) due.0 due.1)
    | inr other ↦ h name e (rw (get-put, other) at found)
  ]

  record_applied-AllLived :
      (ts : List Transition) (states : States)
      → AllLived states
      → All (IsDue states) ts
      → Distinct (map target ts)
      → AllLived (record_applied_transitions ctx ts states)
  unfolding record_applied_transitions
  record_applied-AllLived [] states h due d = h
  record_applied-AllLived (t ∷ ts) states h due d =
      record_applied-AllLived ts (step ctx states t) (step-AllLived states t h due.0)
        (All-both (λ (u : Transition). t.storage ≢ u.storage) (IsDue states)
          (IsDue (step ctx states t)) ts
          (λ u apart ok. (
            ok.0
                ∙ sym (
                    storage_state-step ctx states t u.storage
                    ∙ elim (Bool-cases (t.storage == u.storage)) [
                      | inl same ↦ absurd (apart ((eq_iff t.storage u.storage).0 same))
                      | inr other ↦ rw other refl
                    ]),
            ok.1,
          ))
          ((All-map (λ k. t.storage ≢ k) target ts).0 d.0) due.1)
        d.1

pending-IsDue :
    (ctx : Ctx) (ss : List Storage)
    → All (IsAllowed ctx) ss
    → All (IsDue ctx.states) (pending_from ctx.states ss)
unfolding pending_from
pending-IsDue ctx [] h = tt
pending-IsDue ctx (s ∷ ss) h =
    elim (Bool-cases (option_state_eq (storage_state ctx.states s.name) (some s.state))) [
      | inl e ↦ rw e (pending-IsDue ctx ss h.1)
      | inr e ↦ rw e (
        (
          refl,
          elim h.0.moves [
            | inl same ↦
                cc
                  (e, (option_state_eq_iff (storage_state ctx.states s.name) (some s.state)).1 same)
            | inr m ↦ m
          ],
        ),
        pending-IsDue ctx ss h.1,
      )
    ]

demise-CanMove : (s : State) → state_eq s destroyed ≡ false → CanMove (some s) destroyed
unfolding state_eq
demise-CanMove active h = destroy_active
demise-CanMove archived h = destroy_archived
demise-CanMove destroyed h = cc

module _ (states : States) (declared : List String) (read_model : Dict (Option String)) where
  undeclared-IsDue :
      (es : List (String × Entry))
      → All (λ (e : String × Entry). get states e.0 ≡ some e.1) es
      → All (IsDue states) (undeclared_from declared read_model es)
  unfolding undeclared_from storage_state entry_state
  undeclared-IsDue [] h = tt
  undeclared-IsDue ((k, e) ∷ es) h =
      elim (Bool-cases (mem k declared || state_eq e.state destroyed)) [
        | inl skip ↦ rw skip (undeclared-IsDue es h.1)
        | inr due ↦
            rw due ((rw h.0 refl, demise-CanMove e.state (ground arith)), undeclared-IsDue es h.1)
      ]

  undeclared-Distinct :
      (es : List (String × Entry))
      → Distinct (map (λ (e : String × Entry). e.0) es)
      → Distinct (map target (undeclared_from declared read_model es))
  unfolding undeclared_from
  undeclared-Distinct [] d = tt
  undeclared-Distinct ((k, e) ∷ es) d =
      elim (Bool-cases (mem k declared || state_eq e.state destroyed)) [
        | inl skip ↦ rw skip (undeclared-Distinct es d.1)
        | inr due ↦ rw due (
          (All-map (λ j. k ≢ j) target _).1 (
              undeclared-keys declared read_model (λ j. k ≢ j) es
                ((All-map (λ j. k ≢ j) (λ (f : String × Entry). f.0) es).0 d.0)),
          undeclared-Distinct es d.1,
        )
      ]

pending-Distinct :
    (states : States) (ss : List Storage)
    → Distinct (names ss)
    → Distinct (map target (pending_from states ss))
unfolding pending_from names
pending-Distinct states [] d = tt
pending-Distinct states (s ∷ ss) d =
    elim (Bool-cases (option_state_eq (storage_state states s.name) (some s.state))) [
      | inl e ↦ rw e (pending-Distinct states ss d.1)
      | inr e ↦ rw e (
        (All-map (λ k. s.name ≢ k) target _).1 (
            pending-keys (λ k. s.name ≢ k) states ss
              ((All-map (λ k. s.name ≢ k) (λ (x : Storage). x.name) ss).0 d.0)),
        pending-Distinct states ss d.1,
      )
    ]

-- A validated run: from records whose histories are lives, an admissible run over distinct names
-- leaves records whose histories are lives again. So each history runs from the first creation,
-- by legal moves only, to the recorded state, and the generation counts the lives.
pub run_storage-AllLived :
    (ctx : Ctx)
    → IsAdmissible ctx
    → Distinct (names ctx.storages)
    → Distinct (keys ctx.states)
    → AllLived ctx.states
    → AllLived (run_storage ctx)
unfolding all_transitions pending_transitions undeclared_transitions
run_storage-AllLived ctx ok dn dk h =
    record_applied-AllLived ctx (all_transitions ctx) ctx.states h
      (All-append _ (pending_transitions ctx) (undeclared_transitions ctx)
        (pending-IsDue ctx ctx.storages ok.requests)
        (undeclared-IsDue ctx.states declared ctx.read_model entries
          (All-sorted entry_le _ ctx.states (get-entries ctx.states dk))))
      (subst Distinct
        (sym (map-append target (pending_transitions ctx) (undeclared_transitions ctx)))
        (Distinct-append _ _ (pending-Distinct ctx.states ctx.storages dn)
          (undeclared-Distinct ctx.states declared ctx.read_model entries
            (Distinct-sorted entry_le (λ (e : String × Entry). e.0) ctx.states dk))
          ((All-map _ target (pending_transitions ctx)).1 (
            All-imp _ _ (pending_transitions ctx)
              (λ t known. (All-map _ target (undeclared_transitions ctx)).1 (
                All-imp (IsDemise declared) _ (undeclared_transitions ctx)
                  (λ u gone same. cc (known, gone.0, same))
                  (undeclared-IsDemise declared ctx.read_model entries)))
              (pending-keys (λ k. mem k declared ≡ true) ctx.states ctx.storages
                (All-of_In _ ctx.storages (λ s m. mem-names ctx.storages s m)))))))
  where
    declared : List String
    declared = names ctx.storages

    entries : List (String × Entry)
    entries = sorted entry_le ctx.states
