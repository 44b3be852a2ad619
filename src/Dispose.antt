-- ===== src/Dispose.antt =====
-- packages/base/src/cs_image_system/base/commands/dispose.py: the disposal of baked images. This file
-- has the data. Of the runtime plugins it has the fields that the modelled code reads; a count of
-- builds to keep is not negative.
pub mod Plan
pub mod Images
pub mod Groups
pub mod Newer
pub mod Spare
pub mod Loop
pub mod Clean
mod Tests
use cs_image_system.Base.{ℕ, String, Bool, Option, List}
use cs_image_system.Base.Dict.{Dict}
use cs_image_system.Meta.{Build, Pins}

-- A runtime plugin: `dispose_image` answers whether it deleted the image, or raises.
pub record RuntimeBuilder : Type 0 where
  pub ephemeral : Bool
  pub retention_keep : Option ℕ
  pub dispose_image : String → Option Bool

-- `current` of the releases: a model's image names with their builds.
pub record DisposeCtx : Type 0 where
  pub launched_builds : Dict (Option String)
  pub current_releases : Dict (Dict String)
  pub runtime_builders : Dict RuntimeBuilder
  pub image_keeps : Dict (Option ℕ)
  pub dry_run : Bool
  pub run_id : String

-- The files that a disposal writes.
pub record Store : Type 0 where
  pub builds : List Build
  pub pins : Pins

pub record Disposal : Type 0 where
  pub build_id : String
  pub runtime : String
  pub series : String
  pub deleted : Option Bool
  pub unpinned : List String

pub data Debt : Type 0 where
  released_debt : Build → Debt
  in_use_debt : Build → Debt

pub data Error : Type 0 where
  all_needs_runtime no_builds : Error
  unknown_runtime : (runtime : String) → Error
  not_recorded : (build_id : String) → Error
  baked_elsewhere : (build_id : String) → (baked_on : Option String) → (runtime : String) → Error
  in_use : (users : List String) → (build_ids : List String) → Error
  not_configured : (build_id : String) → (runtime : String) → Error
  not_implemented : (build_id : String) → Error
  missing_key : (runtime : String) → Error
