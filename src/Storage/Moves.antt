-- ===== src/Storage/Moves.antt =====
-- The moves of the storage state machine and the users of a storage, stated without the code's
-- tables (storage_state.py), and that the code's tests agree with them.
use cs_image_system.Base.{
  String, ◌≡◌, refl, sym, ◌∙◌, ◌↔◌, inl, inr, true, Option, none, some, List, [], ◌∷◌, ◌++◌,
  append_assoc, append-nil, arith, ◌==◌, eq_iff, or_else, if◌then◌else◌, Bool-cases,
}
use cs_image_system.Base.Dict.{Dict, get, put, get-put}
use cs_image_system.Storage.{
  State, active, archived, destroyed, state_eq, option_state_eq, Instance,
}
use cs_image_system.Storage.Transitions.{attach, attach_all, attachments}
use cs_image_system.Storage.Validate.{is_legal}

-- The moves of the state machine.
pub data CanMove : Option State → State → Type 0 where
  create : CanMove none active
  archive : CanMove (some active) archived
  restore : CanMove (some archived) active
  destroy_active : CanMove (some active) destroyed
  destroy_archived : CanMove (some archived) destroyed
  regenerate : CanMove (some destroyed) active

pub is_legal→CanMove :
    (cur : Option State) (req : State) → is_legal cur req ≡ true → CanMove cur req
unfolding is_legal
is_legal→CanMove none active h = create
is_legal→CanMove none archived h = cc
is_legal→CanMove none destroyed h = cc
is_legal→CanMove (some active) active h = cc
is_legal→CanMove (some active) archived h = archive
is_legal→CanMove (some active) destroyed h = destroy_active
is_legal→CanMove (some archived) active h = restore
is_legal→CanMove (some archived) archived h = cc
is_legal→CanMove (some archived) destroyed h = destroy_archived
is_legal→CanMove (some destroyed) active h = regenerate
is_legal→CanMove (some destroyed) archived h = cc
is_legal→CanMove (some destroyed) destroyed h = cc

pub CanMove→is_legal :
    {cur : Option State} {req : State} → CanMove cur req → is_legal cur req ≡ true
unfolding is_legal
CanMove→is_legal create = refl
CanMove→is_legal archive = refl
CanMove→is_legal restore = refl
CanMove→is_legal destroy_active = refl
CanMove→is_legal destroy_archived = refl
CanMove→is_legal regenerate = refl

pub state_eq_iff : (a b : State) → (state_eq a b ≡ true) ↔ (a ≡ b)
unfolding state_eq
state_eq_iff active active = (λ h. refl, λ h. refl)
state_eq_iff archived archived = (λ h. refl, λ h. refl)
state_eq_iff destroyed destroyed = (λ h. refl, λ h. refl)
state_eq_iff a b = ground arith

pub option_state_eq_iff : (a b : Option State) → (option_state_eq a b ≡ true) ↔ (a ≡ b)
unfolding option_state_eq
option_state_eq_iff none none = (λ h. refl, λ h. refl)
option_state_eq_iff (some a) (some b) = ground (arith, state_eq_iff a b)
option_state_eq_iff a b = ground arith

-- The instances that mount the storage `k`, once for each mapping that names it.
pub users_of : String → String → List String → List String
users_of k inst [] = []
users_of k inst (m ∷ ms) = if m == k then inst ∷ users_of k inst ms else users_of k inst ms

pub users : String → List Instance → List String
unfolding users_of
users k [] = []
users k (i ∷ rest) = users_of k i.name i.storage_mappings ++ users k rest

get-attach :
    (k inst : String) (out : Dict (List String)) (ms : List String)
    → or_else (get (attach out inst ms) k) [] ≡ or_else (get out k) [] ++ users_of k inst ms
unfolding attach users_of
get-attach k inst out [] = sym (append-nil _)
get-attach k inst out (m ∷ ms) =
    get-attach k inst (put out m (or_else (get out m) [] ++ inst ∷ [])) ms
    ∙ elim (Bool-cases (m == k)) [
      | inl same ↦
          let e = (eq_iff m k).0 same in
          rw (get-put, same, e) (append_assoc (or_else (get out k) []) (inst ∷ []) _)
      | inr other ↦ rw (get-put, other) refl
    ]

get-attach_all :
    (k : String) (out : Dict (List String)) (is : List Instance)
    → or_else (get (attach_all out is) k) [] ≡ or_else (get out k) [] ++ users k is
unfolding attach_all users
get-attach_all k out [] = sym (append-nil _)
get-attach_all k out (i ∷ is) =
    get-attach_all k (attach out i.name i.storage_mappings) is
    ∙ rw get-attach (append_assoc (or_else (get out k) []) _ _)

pub get-attachments :
    (k : String) (is : List Instance) → or_else (get (attachments is) k) [] ≡ users k is
unfolding attachments get
get-attachments k is = get-attach_all k [] is
