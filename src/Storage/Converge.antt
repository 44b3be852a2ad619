-- ===== src/Storage/Converge.antt =====
-- storage_state.py: once the transitions of a run are recorded, the next run has none to make.
use cs_image_system.Base.{
  String, ◌≡◌, ap, ◌⊎◌, inl, inr, Bool, true, false, some, List, [], ◌∷◌, ◌++◌, arith, ◌==◌, eq_iff,
  any, mem, All, All-append, All-imp, All-both, All-map, Distinct, In, All-of_In, In→All,
  Bool-cases,
}
use cs_image_system.Base.Dict.{keys, get-entries}
use cs_image_system.Base.Sorting.{sorted, In-sorted, All-sorted}
use cs_image_system.Storage.{destroyed, Storage, Transition, Entry, Ctx}
use cs_image_system.Storage.Record.{storage_state, entry_state}
use cs_image_system.Storage.Transitions.{
  names, pending_transitions, undeclared_transitions, entry_le, all_transitions,
}
use cs_image_system.Storage.Settling.{
  next, run_storage, settles, pending-to, pending-any, Requests-of_Distinct,
}
use cs_image_system.Storage.Undeclared.{
  mem-names, pending-keys, IsDemise, undeclared-IsDemise, undeclared-keys, undeclared-any,
  undeclared-nil, pending-nil, All-keys-recorded, Distinct-recorded,
}

any-append-left {ℓ} :
    {A : Type ℓ} (test : A → Bool) (xs ys : List A)
    → any test xs ≡ true
    → any test (xs ++ ys) ≡ true
any-append-left test [] ys h = cc
any-append-left test (x ∷ xs) ys h = ground (arith, any-append-left test xs ys)

any-append-right {ℓ} :
    {A : Type ℓ} (test : A → Bool) (xs ys : List A)
    → any test ys ≡ true
    → any test (xs ++ ys) ≡ true
any-append-right test [] ys h = h
any-append-right test (x ∷ xs) ys h = ground (arith, any-append-right test xs ys h)

module _ (ctx : Ctx) where
  abbrev declared : List String
  declared = names ctx.storages

  abbrev entries_sorted : List (String × Entry)
  entries_sorted = sorted entry_le ctx.states

  demises : All (IsDemise declared) (undeclared_transitions ctx)
  unfolding undeclared_transitions
  demises = undeclared-IsDemise declared ctx.read_model _

  requests : All (λ (t : Transition). mem t.storage declared ≡ true) (pending_transitions ctx)
  unfolding pending_transitions
  requests =
      pending-keys (λ k. mem k declared ≡ true) ctx.states ctx.storages
        (All-of_In _ ctx.storages (λ s m. mem-names ctx.storages s m))

  at_name :
      (t : Transition) (k : String) (b : Bool)
      → mem t.storage declared ≡ b
      → (t.storage == k) ≡ true
      → mem k declared ≡ b
  at_name t k b h e = ground (arith, eq_iff t.storage k)

  declared_settled :
      (s : Storage)
      → Distinct declared
      → In s ctx.storages
      → storage_state (run_storage ctx) s.name ≡ some s.state
  unfolding all_transitions pending_transitions names
  declared_settled s d m =
      settles ctx s.name s.state (all_transitions ctx) ctx.states
        (All-append _ (pending_transitions ctx) (undeclared_transitions ctx)
          (pending-to ctx.states s.name s.state ctx.storages
            (Requests-of_Distinct ctx.storages s d m))
          (All-imp (IsDemise declared) _ (undeclared_transitions ctx)
            (λ t h same. cc (at_name t s.name false h.0 same, mem-names ctx.storages s m)) demises))
        (elim (pending-any ctx.states s ctx.storages m) [
          | inl e ↦ inl e
          | inr e ↦ inr (any-append-left _ (pending_transitions ctx) (undeclared_transitions ctx) e)
        ])

  undeclared_settled :
      (k : String) (e : Entry)
      → Distinct (keys ctx.states)
      → mem k declared ≡ false
      → In (k, e) ctx.states
      → storage_state (run_storage ctx) k ≡ some destroyed
  unfolding all_transitions undeclared_transitions storage_state entry_state
  undeclared_settled k e d out m =
      settles ctx k destroyed (all_transitions ctx) ctx.states
        (All-append _ (pending_transitions ctx) (undeclared_transitions ctx)
          (All-imp _ _ (pending_transitions ctx) (λ t h same. cc (at_name t k true h same))
            requests)
          (All-imp (IsDemise declared) _ (undeclared_transitions ctx) (λ t h same. h.1) demises))
        (elim (undeclared-any declared ctx.read_model k entries_sorted e out
          (In-sorted entry_le ctx.states (k, e) m)) [
            | inl gone ↦
                inl (rw (In→All _ ctx.states (k, e) (get-entries ctx.states d) m) (ap some gone))
            | inr due ↦
                inr (any-append-right _ (pending_transitions ctx) (undeclared_transitions ctx) due)
          ])

  -- Each recorded name is declared, or its storage is gone.
  abbrev IsSettled : String → Type 0
  IsSettled k = (mem k declared ≡ true) ⊎ (storage_state (run_storage ctx) k ≡ some destroyed)

  IsSettled-keys : Distinct (keys ctx.states) → All IsSettled (keys (run_storage ctx))
  unfolding all_transitions undeclared_transitions
  IsSettled-keys d =
      let old : All (λ (e : String × Entry). IsSettled e.0) ctx.states =
        All-of_In _ ctx.states λ e m. elim (Bool-cases (mem e.0 declared)) [
          | inl known ↦ inl known
          | inr out ↦ inr (undeclared_settled e.0 e.1 d out m)
        ] in
      All-keys-recorded IsSettled ctx (all_transitions ctx) ctx.states
        ((All-map IsSettled (λ (e : String × Entry). e.0) ctx.states).1 old)
        (All-append _ (pending_transitions ctx) (undeclared_transitions ctx)
          (All-imp _ _ (pending_transitions ctx) (λ t h. inl h) requests)
          (undeclared-keys declared ctx.read_model IsSettled entries_sorted
            (All-sorted entry_le _ ctx.states old)))

  settled_entries :
      Distinct (keys ctx.states)
      → All
          (λ (e : String × Entry). (mem e.0 declared ≡ true) ⊎ (e.1.state ≡ destroyed))
          (run_storage ctx)
  unfolding storage_state entry_state
  settled_entries d =
      All-both _ _ _ (run_storage ctx) (λ e found settled. ground (arith, found, settled))
        (get-entries (run_storage ctx) (Distinct-recorded ctx (all_transitions ctx) ctx.states d))
        ((All-map IsSettled (λ (e : String × Entry). e.0) (run_storage ctx)).0 (IsSettled-keys d))

-- After a run has recorded all of its transitions, the next run over the same declarations plans
-- none: provided that no two declarations share a name, and no two records.
pub all_transitions-run_storage :
    (ctx : Ctx)
    → Distinct (names ctx.storages)
    → Distinct (keys ctx.states)
    → all_transitions (next ctx (run_storage ctx)) ≡ []
unfolding all_transitions pending_transitions undeclared_transitions
all_transitions-run_storage ctx dn dk = cc (
  pending-nil (run_storage ctx) ctx.storages
      (All-of_In _ ctx.storages (λ s m. declared_settled ctx s dn m)),
  undeclared-nil (declared ctx) ctx.read_model (sorted entry_le (run_storage ctx))
      (All-sorted entry_le _ (run_storage ctx) (settled_entries ctx dk)),
)
