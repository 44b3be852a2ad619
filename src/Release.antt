-- ===== src/Release.antt =====
-- packages/base/src/cs_image_system/base/release.py: the release of tested builds, and the pins that
-- may stand on builds that are not released. This file has the data.
pub mod Gate
pub mod Pinned
pub mod Sound
pub mod Standing
mod Tests
use cs_image_system.Base.{String, Bool, Option, List}
use cs_image_system.Base.Dict.{Dict}
use cs_image_system.Meta.{Build, Pins}
use cs_image_system.Generations.{Instances}

pub record ModResult : Type 0 where
  pub status : String
  pub idempotent : Option Bool

pub record TestResult : Type 0 where
  pub ok : Bool
  pub run : String
  pub failed_checks : List String

-- Whether the image declares post-bake tests, and the model of its `release` key.
pub record Image : Type 0 where
  pub has_post_bake : Bool
  pub release_model : Option String

pub record PinnedInstance : Type 0 where
  pub name : String
  pub image : String

pub record ReleaseCtx : Type 0 where
  pub builds : List Build
  pub pins : Pins
  pub generations : Instances
  pub mod_results : Dict ModResult
  pub image_tests : Dict TestResult
  pub images_map : Dict Image
  pub instances : List PinnedInstance
  pub require_mod_tests : Bool
  pub require_image_tests : Bool
  pub require_released_builds : Bool
  pub run_id : String

pub record ReleaseEntry : Type 0 where
  pub image : String
  pub build_id : String
  pub model : String
  pub run : String
  pub note : String

-- `releases.yaml`
pub record Releases : Type 0 where
  pub releases : List ReleaseEntry
  pub current : Dict (Dict String)

pub data ReleaseError : Type 0 where
  unrecorded : (build_id : String) → ReleaseError
  other_series : (build_id : String) → (series : String) → (image : String) → ReleaseError
  no_in_bake_record : (build_id : String) → ReleaseError
  no_mod_result : (mod_name : String) → (build_id : String) → ReleaseError
  mod_failed : (mod_name : String) → (build_id : String) → ModResult → ReleaseError
  no_post_bake_record : (build_id : String) → (image : String) → ReleaseError
  post_bake_failed : (build_id : String) → (run : String) → (failed : List String) → ReleaseError
