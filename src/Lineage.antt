-- ===== src/Lineage.antt =====
-- packages/base/src/cs_image_system/base/lineage.py: which image bakes in a run, from which parent,
-- and how the bake is recorded. This file has the data. The commands
-- that verify a bake, the files on disk, the hash and the age of a run are arguments.
pub mod Capabilities
pub mod Chains
pub mod Inputs
pub mod Parents
pub mod Decision
pub mod Record
pub mod Current
pub mod Enough
pub mod Renewed
pub mod Convergent
pub mod Follows
mod Tests
use cs_image_system.Base.{ℕ, String, Bool, Option, List}
use cs_image_system.Base.Dict.{Dict}
use cs_image_system.Meta.{Caps, Build, Pins}
use cs_image_system.Lifecycles.Builtin.{Lifecycle}

-- A modification: one that is given as a mapping, or one with its playbooks or scripts.
pub record ModFiles : Type 0 where
  pub config : String
  pub playbooks : List String
  pub script : List String
  pub scripts : List String
  pub ensure : String
  pub idempotent : String

pub data Modification : Type 0 where
  mapping : (name type_ content : String) → Modification
  with_files : (name type_ : String) → (files : ModFiles) → Modification

-- What the content hash of a modification covers.
pub data ModPayload : Type 0 where
  of_mapping : (name type_ content : String) → ModPayload
  of_files :
      (type_ config : String)
      → (playbooks : List (String × String)) → (script : List String)
      → (scripts : List (String × String)) → (ensure : String) → ModPayload

-- A modification as the fingerprint has it; one given as a mapping has no operation.
pub record ModRecord : Type 0 where
  pub name : String
  pub type_ : String
  pub operation : Option String
  pub idempotent : Option String
  pub content_hash : String

pub record BakeImage : Type 0 where
  pub name : String
  pub bound_builder : Option String
  pub type_ : String
  pub source_image : Option String
  pub parent_policy : Option String
  pub modifications : List Modification
  pub primary_disk_size : Option ℕ

-- What a bake updates; `pin` has packages with their versions.
pub record UpdatePolicy : Type 0 where
  pub policy : String
  pub packages : List String
  pub exclude : List String
  pub pin : List (String × String)
  pub refresh_days : Option ℕ

-- A runtime entry of an OS builder names an image builder, and its source on the runtime.
pub record RuntimeEntry : Type 0 where
  pub image_builder : String
  pub image_id : Option String
  pub query : String
  pub default_primary_disk_size : Option ℕ

pub record OsBuilder : Type 0 where
  pub image_builder : String
  pub runtimes : List RuntimeEntry
  pub family : String
  pub family_version : String
  pub architecture : String
  pub identity_types : List String
  pub storage_types : List String
  pub default_primary_disk_size : Option ℕ
  pub admin_user : String
  pub admin_public_keys : List String
  pub update : UpdatePolicy

-- A storage builder without a runtime lives on every one.
pub record StorageBuilder : Type 0 where
  pub capability_type : String
  pub runtime : Option String

pub record VendorSource : Type 0 where
  pub family : String
  pub family_version : String
  pub architecture : String
  pub runtime_source : Option (Option String × String)

pub record BaseInputs : Type 0 where
  pub vendor : VendorSource
  pub admin_user : String
  pub admin_public_keys : List String
  pub update : UpdatePolicy

-- What the fingerprint hashes.
pub record Payload : Type 0 where
  pub series : String
  pub parent : String
  pub capabilities : Caps
  pub mods : List ModRecord
  pub tests : List String
  pub disk_size : Option ℕ
  pub base : Option BaseInputs

pub record ImageBuilder : Type 0 where
  pub runtime_provider : String
  pub local_items : List BakeImage

pub record PinnedBy : Type 0 where
  pub name : String
  pub image : Option String
  pub runtime : Option String
  pub image_policy : Option String

pub data Reason : Type 0 where
  forced : Reason
  no_build : (series : String) → (runtime : Option String) → Reason
  parent_moved : (pin : String) → (head : Option String) → Reason
  parent_rebakes : (parent : String) → Reason
  inputs_changed : (recorded : String) → (fingerprint : String) → Reason
  refresh_due : (build_id : String) → (days : ℕ) → Reason

-- The run: `age_seconds` reads the time stamp of a run id, `read_file` the text of a path that is a
-- file, and the hashes are arguments. The commands that verify a bake are those of image_tests.py and
-- of the plugins, which read the configuration and no record.
pub record BakeCtx : Type 0 where
  pub builds : List Build
  pub pins : Pins
  pub images_map : Dict BakeImage
  pub os_builders : Dict OsBuilder
  pub image_builders : Dict ImageBuilder
  pub storage_builders : List StorageBuilder
  pub default_disk_sizes : Dict ℕ
  pub working_path : String
  pub is_absolute : String → Bool
  pub read_file : String → Option String
  pub base_verify_commands : BakeImage → String → List String
  pub instance_verify_commands : BakeImage → List String
  pub sha_of_mod : ModPayload → String
  pub sha : Payload → String
  pub age_seconds : String → Option ℕ
  pub force_bake : List String
  pub only_images : Option (List String)
  pub implied_scope : Option String
  pub bake_decisions : Dict (Option Reason)
  pub generated_lifecycles : List Lifecycle
  pub current_lifecycle : Option Lifecycle
  pub run_id : String
