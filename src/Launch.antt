-- ===== src/Launch.antt =====
-- packages/base/src/cs_image_system/base/launch_params.py: the launch parameters of the instances,
-- which are immutable once the machine exists. This file has the data. The hash of the user data is
-- not modelled, and the alias of an instance, the default machine type of a runtime and the registry
-- of a group are arguments.
pub mod Names
pub mod Record
pub mod Hooks
pub mod Checks
pub mod Marked
pub mod Undeclared
pub mod Forgetting
pub mod Forgotten
pub mod Numbered
pub mod Immutable
pub mod Claimed
pub mod Samples
mod Tests
use cs_image_system.Base.{String, Bool, Option, List}
use cs_image_system.Base.Dict.{Dict}
use cs_image_system.Apply.{Flag}
use cs_image_system.Meta.{Pins}
use cs_image_system.Generations.{Params, Mount, Instances}
use cs_image_system.Lineage.{PinnedBy, BakeCtx}

-- A declared instance. `mounts` and `others` are what its declaration makes of them.
pub record LaunchInstance : Type 0 where
  pub pinned : PinnedBy
  pub type_ : String
  pub ephemeral : Bool
  pub machine_type : Option String
  pub group : Option String
  pub storages : List String
  pub mounts : List Mount
  pub others : Dict String

-- A registered server: its id and the hostname that it enrolled under.
pub record Server : Type 0 where
  pub id : String
  pub hostname : String

-- `registered_servers` is a group's registry, if its provider has one, and its answer.
pub record LaunchCtx : Type 0 where
  pub bake : BakeCtx
  pub now : String
  pub dry_run : Bool
  pub apply_instances : Flag
  pub instances : List LaunchInstance
  pub alias_of : String → Option String
  pub default_machine_type : Option String → String
  pub roots_on_runtime : String → List String
  pub registered_servers : String → Option (Option (List Server))

-- The call that retires the servers of a hostname in a group's registry.
pub record Retirement : Type 0 where
  pub group : String
  pub hostname : String

pub record LaunchState : Type 0 where
  pub params : Dict Params
  pub pins : Pins
  pub generations : Instances
  pub retired : List Retirement
