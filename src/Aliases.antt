-- ===== src/Aliases.antt =====
-- packages/base/src/cs_image_system/base/alias_pool.py: a pool of names, each spent once. The pool's
-- file is the list of its lines, or absent; every line keeps its ending.
pub mod Line
pub mod Draw
pub mod Spent
pub mod Queue
pub mod Restored
pub mod Requests
pub mod Once
mod Tests
use cs_image_system.Base.{String, Option, List}

-- The file `meta-state/aliases.txt`.
abbrev pub Pool : Type 0
Pool = Option (List String)

-- A name that this process drew for an instance in a run.
pub record Drawn : Type 0 where
  pub run : String
  pub instance_name : String
  pub alias : String
