-- ===== src/Meta/Journal.antt =====
-- meta_state.py: the launch records, the bounded journals and the state locations.
use cs_image_system.Base.{
  ℕ, ◌-◌, String, not, Option, some, List, [], ◌∷◌, ◌++◌, length, drop, select, option_eq, truthy,
  or_else, if◌then◌else◌,
}
use cs_image_system.Base.Words.{◌+++◌}
use cs_image_system.Base.Dict.{Dict, put, del, has}

module _ {A : Type 0} where
  -- `del xs[:-n]` for a positive `n`: the last `n` elements stay.
  unfoldable pub keep_last : ℕ → List A → List A
  keep_last n xs = drop (length xs - n) xs

  -- One entry per run, the later in place of the earlier, and the last 200 of them.
  unfoldable pub record_run : (A → Option String) → List A → A → List A
  unfolding keep_last
  record_run run_of runs summary =
      keep_last 200 (select (λ r. not (option_eq (run_of r) (run_of summary))) runs ++ summary ∷ [])

  unfoldable pub record_verification : List A → A → List A
  unfolding keep_last
  record_verification verifications r = keep_last 500 (verifications ++ r ∷ [])

  unfoldable pub record_login_proof : List A → A → List A
  unfolding keep_last
  record_login_proof proofs r = keep_last 500 (proofs ++ r ∷ [])

  unfoldable pub record_image_test : Dict A → String → A → Dict A
  record_image_test tests build_id r = put tests build_id r

  unfoldable pub record_launch_params : Dict A → String → A → Dict A
  record_launch_params params name p = put params name p

  unfoldable pub remove_launch_params : Dict A → String → Dict A
  remove_launch_params params name = if has params name then del params name else params

-- The settings of a backend and the run that recorded them.
pub record Location : Type 0 where
  pub location : Option String
  pub type_ : String
  pub bucket : String
  pub key : String
  pub run : Option String

unfoldable pub location_key : Location → String
location_key l =
    if truthy l.location
    then or_else l.location ""
    else l.type_ +++ "://" +++ l.bucket +++ "/" +++ l.key

pub record Migration : Type 0 where
  pub workspace : String
  pub from_location : Location
  pub to_location : Location
  pub run : String
  pub at : String
  pub serial : Option ℕ
  pub backup : Option String

pub record Locations : Type 0 where
  pub workspaces : Dict Location
  pub migrations : List Migration

abbrev in_run : Location → String → Location
in_run l run_id = record l { run = some run_id }

unfoldable pub record_state_locations : Locations → Dict Location → String → Locations
record_state_locations ls [] run_id = ls
record_state_locations ls ((workspace, l) ∷ rest) run_id =
    record_state_locations
      (record ls { workspaces = put ls.workspaces workspace (in_run l run_id) }) rest run_id

unfoldable pub record_state_migration :
    Locations
    → String
    → Location
    → Location
    → String
    → Option ℕ
    → Option String
    → String
    → Locations
record_state_migration ls workspace from_location to_location run_id serial backup now = record {
  workspaces = put ls.workspaces workspace (in_run to_location run_id);
  migrations =
      ls.migrations
      ++ record {
        workspace = workspace;
        from_location = from_location;
        to_location = to_location;
        run = run_id;
        at = now;
        serial = serial;
        backup = backup;
      }
        ∷ [];
}
