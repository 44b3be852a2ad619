-- ===== src/Storage/Admissible.antt =====
-- storage_state.py, `validate_transitions`: what an empty error list means, for the declarations,
-- the attachments and the records together.
use cs_image_system.Base.{
  String, ◌≡◌, refl, ◌≢◌, ◌↔◌, ◌⊎◌, inl, inr, true, false, Option, some, List, [], ◌∷◌, ◌++◌,
  append-eq-nil, arith, or_else, truthy, All, Bool-cases, Option-cases,
}
use cs_image_system.Base.Dict.{Dict, get, put, keys, All-keys-put}
use cs_image_system.Storage.{
  State, active, archived, destroyed, Storage, Builder, Instance, Transition, Ctx,
}
use cs_image_system.Storage.Record.{storage_state}
use cs_image_system.Storage.Transitions.{
  attach, attach_all, attachments, by_name, undeclared_transitions,
}
use cs_image_system.Storage.Validate.{
  unattached_only, supports, storage_errors, is_empty, owner_errors, attachment_error,
  attachment_errors, all_storage_errors, validate_transitions,
}
use cs_image_system.Storage.Moves.{
  CanMove, is_legal→CanMove, CanMove→is_legal, state_eq_iff, option_state_eq_iff, users,
  get-attachments,
}

abbrev pub recorded : Ctx → Storage → Option State
recorded ctx s = storage_state ctx.states s.name

-- The builder of the storage's type is configured and realises archiving.
abbrev pub CanArchive : Ctx → Storage → Type 0
CanArchive ctx s =
    (b : Builder) × (get ctx.storage_builders s.type_ ≡ some b) × (b.supports_archive ≡ true)

-- A request that the state machine allows.
pub record IsAllowed (ctx : Ctx) (s : Storage) : Type 0 where
  pub moves : (recorded ctx s ≡ some s.state) ⊎ CanMove (recorded ctx s) s.state
  pub unattached : s.state ≢ active → users s.name ctx.instances ≡ []
  pub archives : s.state ≡ archived → recorded ctx s ≢ some archived → CanArchive ctx s

-- The storage is declared, and active.
abbrev pub IsMountable : Dict Storage → String → Type 0
IsMountable declared name = (s : Storage) × (get declared name ≡ some s) × (s.state ≡ active)

pub record IsAdmissible (ctx : Ctx) : Type 0 where
  pub requests : All (IsAllowed ctx) ctx.storages
  pub owned : All (λ (t : Transition). truthy t.builder ≡ true) (undeclared_transitions ctx)
  pub mounts :
      All
        (λ (i : Instance). All (IsMountable (by_name ctx.storages)) i.storage_mappings)
        ctx.instances

is_empty→nil : (xs : List String) → is_empty xs ≡ true → xs ≡ []
is_empty→nil [] h = refl
is_empty→nil (x ∷ xs) h = cc

unattached_only_active : (req : State) → unattached_only req ≡ false → req ≡ active
unfolding unattached_only
unattached_only_active active h = refl
unattached_only_active archived h = cc
unattached_only_active destroyed h = cc

supports→CanArchive :
    (ctx : Ctx) (s : Storage)
    → supports (get ctx.storage_builders s.type_) ≡ true
    → CanArchive ctx s
unfolding supports
supports→CanArchive ctx s h = elim (Option-cases (get ctx.storage_builders s.type_)) [
  | inl e ↦ cc (rw e at h)
  | inr (b, e) ↦ (b, e, rw e at h)
]

CanArchive→supports :
    (ctx : Ctx) (s : Storage)
    → CanArchive ctx s
    → supports (get ctx.storage_builders s.type_) ≡ true
unfolding supports
CanArchive→supports ctx s (b, e, h) = rw e h

module _ (ctx : Ctx) (s : Storage) where
  storage_errors→IsAllowed : storage_errors ctx s ≡ [] → IsAllowed ctx s
  unfolding storage_errors
  storage_errors→IsAllowed h = record {
    moves = ground (
      arith,
      option_state_eq_iff (recorded ctx s) (some s.state),
      is_legal→CanMove (recorded ctx s) s.state,
    );
    unattached = λ idle. ground (
      arith,
      get-attachments s.name ctx.instances,
      unattached_only_active s.state,
      is_empty→nil (users s.name ctx.instances),
    );
    archives = λ wanted fresh. ground (
      arith,
      state_eq_iff s.state archived,
      option_state_eq_iff (recorded ctx s) (some s.state),
      supports→CanArchive ctx s,
    );
  }

  IsAllowed→storage_errors : IsAllowed ctx s → storage_errors ctx s ≡ []
  unfolding storage_errors
  IsAllowed→storage_errors h = ground (
    arith,
    get-attachments s.name ctx.instances,
    h.moves,
    h.unattached,
    h.archives,
    state_eq_iff s.state archived,
    option_state_eq_iff (recorded ctx s) (some s.state),
    option_state_eq_iff (recorded ctx s) (some archived),
    CanArchive→supports ctx s,
    λ (m : CanMove (recorded ctx s) s.state). CanMove→is_legal m,
  )

all_storage_errors-nil :
    (ctx : Ctx) (ss : List Storage) → (all_storage_errors ctx ss ≡ []) ↔ All (IsAllowed ctx) ss
unfolding all_storage_errors
all_storage_errors-nil ctx [] = (λ h. tt, λ h. refl)
all_storage_errors-nil ctx (s ∷ ss) = (
  λ h.
      let (a, b) = append-eq-nil (storage_errors ctx s) (all_storage_errors ctx ss) h in
      (storage_errors→IsAllowed ctx s a, (all_storage_errors-nil ctx ss).0 b),
  λ h. cc (IsAllowed→storage_errors ctx s h.0, (all_storage_errors-nil ctx ss).1 h.1),
)

owner_errors-nil :
    (ts : List Transition)
    → (owner_errors ts ≡ []) ↔ All (λ (t : Transition). truthy t.builder ≡ true) ts
unfolding owner_errors
owner_errors-nil [] = (λ h. tt, λ h. refl)
owner_errors-nil (t ∷ ts) = elim (Bool-cases (truthy t.builder)) [
  | inl e ↦ rw e (λ h. (refl, (owner_errors-nil ts).0 h), λ h. (owner_errors-nil ts).1 h.1)
  | inr e ↦ rw e (λ h. cc, λ h. cc)
]

attachment_error-nil :
    (declared : Dict Storage) (name : String) (us : List String)
    → (attachment_error (get declared name) name us ≡ []) ↔ IsMountable declared name
unfolding attachment_error
attachment_error-nil declared name us = elim (Option-cases (get declared name)) [
  | inl e ↦ rw e (λ h. cc, λ (s, f, g). cc (f))
  | inr (s, e) ↦ rw e (
    λ h. (s, refl, ground (arith, state_eq_iff s.state active)),
    λ (s', f, g). ground (arith, state_eq_iff s.state active, f, g),
  )
]

attachment_errors-nil :
    (declared : Dict Storage) (entries : Dict (List String))
    → (attachment_errors declared entries ≡ []) ↔ All (IsMountable declared) (keys entries)
unfolding attachment_errors
attachment_errors-nil declared [] = (λ h. tt, λ h. refl)
attachment_errors-nil declared ((name, us) ∷ rest) = (
  λ h.
      let (a, b) = append-eq-nil (attachment_error (get declared name) name us) _ h in
      ((attachment_error-nil declared name us).0 a, (attachment_errors-nil declared rest).0 b),
  λ h.
      cc (
        (attachment_error-nil declared name us).1 h.0,
        (attachment_errors-nil declared rest).1 h.1,
      ),
)

module _ (P : String → Type 0) where
  All-attach :
      (out : Dict (List String)) (inst : String) (ms : List String)
      → All P (keys (attach out inst ms)) ↔ All P (keys out) × All P ms
  unfolding attach
  All-attach out inst [] = (λ h. (h, tt), λ h. h.0)
  All-attach out inst (m ∷ ms) =
      let here = All-keys-put P out m (or_else (get out m) [] ++ inst ∷ []) in
      let rest = All-attach (put out m (or_else (get out m) [] ++ inst ∷ [])) inst ms in
      (
        λ h. let (a, b) = rest.0 h in ((here.0 a).0, ((here.0 a).1, b)),
        λ h. rest.1 (here.1 (h.0, h.1.0), h.1.1),
      )

  All-attach_all :
      (out : Dict (List String)) (is : List Instance)
      → All P (keys (attach_all out is))
        ↔ All P (keys out) × All (λ (i : Instance). All P i.storage_mappings) is
  unfolding attach_all
  All-attach_all out [] = (λ h. (h, tt), λ h. h.0)
  All-attach_all out (i ∷ is) =
      let here = All-attach out i.name i.storage_mappings in
      let rest = All-attach_all (attach out i.name i.storage_mappings) is in
      (
        λ h. let (a, b) = rest.0 h in ((here.0 a).0, ((here.0 a).1, b)),
        λ h. rest.1 (here.1 (h.0, h.1.0), h.1.1),
      )

-- Validation reports nothing exactly when the run is admissible: each declared storage is in the
-- requested state or one legal move away from it, no instance mounts a storage that is to leave or
-- has left `active`, archiving is asked only of a builder that realises it, each undeclared storage
-- names the builder that can destroy it, and each mounted storage is declared and active.
pub validate_transitions-nil_iff : (ctx : Ctx) → (validate_transitions ctx ≡ []) ↔ IsAdmissible ctx
unfolding validate_transitions attachments
validate_transitions-nil_iff ctx =
    let mounts = All-attach_all (IsMountable (by_name ctx.storages)) [] ctx.instances in
    let entries = attachment_errors-nil (by_name ctx.storages) (attachments ctx.instances) in
    (
      λ h.
          let (a, bc) = append-eq-nil (all_storage_errors ctx ctx.storages) _ h in
          let (b, c) = append-eq-nil (owner_errors (undeclared_transitions ctx)) _ bc in
          record {
            requests = (all_storage_errors-nil ctx ctx.storages).0 a;
            owned = (owner_errors-nil (undeclared_transitions ctx)).0 b;
            mounts = (mounts.0 (entries.0 c)).1;
          },
      λ ok. cc (
        (all_storage_errors-nil ctx ctx.storages).1 ok.requests,
        (owner_errors-nil (undeclared_transitions ctx)).1 ok.owned,
        entries.1 (mounts.1 (tt, ok.mounts)),
      ),
    )
