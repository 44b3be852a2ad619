-- ===== src/Storage/Validate.antt =====
-- storage_state.py, `validate_transitions`: every illegal request, one error each. An error's text
-- is a constructor with the values that the text names.
use cs_image_system.Base.{
  String, Bool, true, false, not, ◌&&◌, ◌||◌, Option, none, some, List, [], ◌∷◌, ◌++◌, or_else,
  truthy, any, if◌then◌else◌,
}
use cs_image_system.Base.Dict.{Dict, get}
use cs_image_system.Storage.{
  State, active, archived, destroyed, state_eq, option_state_eq, Storage, Builder, Transition,
  is_attachable, Ctx,
}
use cs_image_system.Storage.Record.{storage_state}
use cs_image_system.Storage.Transitions.{attachments, by_name, undeclared_transitions}

-- `LEGAL_TRANSITIONS`
abbrev pub legal_transitions : List (Option State × State)
legal_transitions =
    (none, active)
    ∷ (some active, archived)
    ∷ (some archived, active)
    ∷ (some active, destroyed)
    ∷ (some archived, destroyed)
    ∷ (some destroyed, active)
    ∷ []

unfoldable pub is_legal : Option State → State → Bool
unfolding option_state_eq
is_legal cur req =
    any (λ (p : Option State × State). option_state_eq p.0 cur && state_eq p.1 req)
      legal_transitions

-- `UNATTACHED_ONLY`
unfoldable pub unattached_only : State → Bool
unfolding state_eq
unattached_only req = state_eq req archived || state_eq req destroyed

pub data Error : Type 0 where
  attached_while : (name : String) → State → List String → Error
  never_applied : (name : String) → State → Error
  illegal : (name : String) → State → State → Error
  attached_move : (name : String) → Option State → State → List String → Error
  no_archive : (name : String) → (type_ : String) → Error
  no_owner : (name : String) → Option State → Error
  unknown_storage : List String → (name : String) → Error
  not_active : List String → (name : String) → State → Error

abbrev pub is_empty : List String → Bool
is_empty [] = true
is_empty (x ∷ xs) = false

unfoldable pub supports : Option Builder → Bool
supports none = false
supports (some b) = b.supports_archive

illegal_error : String → Option State → State → Error
illegal_error name none req = never_applied name req
illegal_error name (some cur) req = illegal name cur req

-- The body of the loop over the declared storages.
unfoldable pub storage_errors : Ctx → Storage → List Error
unfolding is_legal unattached_only supports illegal_error
storage_errors ctx s =
    let cur = storage_state ctx.states s.name in
    let users = or_else (get (attachments ctx.instances) s.name) [] in
    let held = unattached_only s.state && not (is_empty users) in
    if option_state_eq cur (some s.state)
    then (if held then attached_while s.name s.state users ∷ [] else [])
    else if not (is_legal cur s.state)
    then illegal_error s.name cur s.state ∷ []
    else (if held then attached_move s.name cur s.state users ∷ [] else [])
      ++ (if state_eq s.state archived && not (supports (get ctx.storage_builders s.type_))
          then no_archive s.name s.type_ ∷ []
          else [])

unfoldable pub owner_errors : List Transition → List Error
owner_errors [] = []
owner_errors (t ∷ rest) =
    (if truthy t.builder then [] else no_owner t.storage t.from_state ∷ []) ++ owner_errors rest

unfoldable pub attachment_error : Option Storage → String → List String → List Error
unfolding is_attachable
attachment_error none name users = unknown_storage users name ∷ []
attachment_error (some s) name users =
    if is_attachable s then [] else not_active users name s.state ∷ []

unfoldable pub attachment_errors : Dict Storage → List (String × List String) → List Error
unfolding attachment_error
attachment_errors declared [] = []
attachment_errors declared ((name, users) ∷ rest) =
    attachment_error (get declared name) name users ++ attachment_errors declared rest

unfoldable pub all_storage_errors : Ctx → List Storage → List Error
all_storage_errors ctx [] = []
all_storage_errors ctx (s ∷ rest) = storage_errors ctx s ++ all_storage_errors ctx rest

unfoldable pub validate_transitions : Ctx → List Error
unfolding all_storage_errors owner_errors attachment_errors
validate_transitions ctx =
    all_storage_errors ctx ctx.storages
    ++ (owner_errors (undeclared_transitions ctx)
        ++ attachment_errors (by_name ctx.storages) (attachments ctx.instances))
