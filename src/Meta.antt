-- ===== src/Meta.antt =====
-- packages/base/src/cs_image_system/base/meta_state.py: the records of builds, pins, launches, runs
-- and state locations. A file of meta-state is the value that it holds. This file has the data.
pub mod Lineage
pub mod Pinning
pub mod Replay
pub mod Journal
pub mod Heads
pub mod Bounded
pub mod Unpinned
mod Tests
use cs_image_system.Base.{String, Bool, Option, List, [], none}
use cs_image_system.Base.Dict.{Dict}

-- A modification that a build carries.
pub record Mod : Type 0 where
  pub name : String
  pub content_hash : String

-- The capabilities that a build was stamped with.
pub record Caps : Type 0 where
  pub identity_types : List String
  pub storage_types : List String

-- A record of `lineage.yaml`, with the fields that the modelled code reads.
pub record Build : Type 0 where
  pub build_id : String
  pub series : String
  pub runtime : Option String
  pub run : Option String
  pub parent : Option String
  pub in_bake : Bool
  pub mods : List Mod
  pub input_fingerprint : String
  pub capabilities : Option Caps
  pub imported : Bool

pub data PinKind : Type 0 where
  instance_pin_kind image_pin_kind : PinKind

pub data Op : Type 0 where
  bind upgrade follow dispose decommission ephemeral_teardown : Op

-- An entry of the audit list `upgrades`; `to` is `none` where a pin is removed.
pub record Upgrade : Type 0 where
  pub kind : PinKind
  pub name : String
  pub from_build : Option String
  pub to_build : Option String
  pub run : String
  pub op : Op

-- `pins.yaml`
pub record Pins : Type 0 where
  pub instances : Dict String
  pub images : Dict String
  pub upgrades : List Upgrade
  pub pending_replacements : Dict String

abbrev pub no_pins : Pins
no_pins = record { instances = []; images = []; upgrades = []; pending_replacements = [] }
