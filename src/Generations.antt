-- ===== src/Generations.antt =====
-- packages/base/src/cs_image_system/base/generations.py and the generations of meta_state.py: one
-- machine of an instance name is one generation. This file has the data; a time stamp is the text
-- that the caller's clock gives. Of the launch parameters it has the fields that the modelled code
-- reads.
pub mod Record
pub mod Flow
pub mod Numbers
pub mod Ledger
pub mod Observe
pub mod Settled
pub mod Names
mod Tests
use cs_image_system.Base.{
  ℕ, ◌+◌, String, Bool, true, false, Option, none, some, List, if◌then◌else◌,
}
use cs_image_system.Base.Dict.{Dict}

-- A mount of a launched machine; `settings` are the keys of the mount besides its storage.
pub record Mount : Type 0 where
  pub storage : String
  pub settings : Dict String

-- `others` are the launch parameters that have no field here.
pub record Params : Type 0 where
  pub build : Option String
  pub hostname : Option String
  pub alias : Option String
  pub machine_type : Option String
  pub ephemeral : Bool
  pub group : Option String
  pub mounts : List Mount
  pub others : Dict String
  pub launched : Bool
  pub launched_run : Option String
  pub run : Option String

-- The two kinds are the only ones that `open_generation` accepts.
pub data Kind : Type 0 where
  durable ephemeral : Kind

unfoldable pub kind_of : Params → Kind
kind_of p = if p.ephemeral then ephemeral else durable

pub data How : Type 0 where
  observed inferred adopted : How

pub data Why : Type 0 where
  decommission torn_down replaced replaced_out_of_band : Why

pub record Identity : Type 0 where
  pub instance_id : Option String
  pub provider_hostname : Option String

pub record Generation : Type 0 where
  pub number : ℕ
  pub kind : Kind
  pub how : How
  pub opened_run : String
  pub opened_at : String
  pub launch_params : Params
  pub instance_id : Option String
  pub provider_hostname : Option String

-- A closed generation, or a resize in place.
pub data Item : Type 0 where
  closed : Generation → (closed_run : String) → Why → (closed_at : String) → Item
  resized :
      Kind
      → (number : ℕ) → (from_type : String) → (to_type : String) → (run : String) → (at : String)
      → Item

pub record Counters : Type 0 where
  pub durable : ℕ
  pub ephemeral : ℕ

unfoldable pub counter : Counters → Kind → ℕ
counter c durable = c.durable
counter c ephemeral = c.ephemeral

-- `counters[kind] = counters[kind] + 1`
unfoldable pub advance : Counters → Kind → Counters
advance c durable = record c { durable = c.durable + 1 }
advance c ephemeral = record c { ephemeral = c.ephemeral + 1 }

pub record Entry : Type 0 where
  pub generation : Counters
  pub current : Option Generation
  pub history : List Item

-- `instance-state.yaml`
abbrev pub Instances : Type 0
Instances = Dict Entry

pub data Error : Type 0 where
  already_open : (name : String) → Kind → ℕ → Error

pub data Result {ℓ} (A : Type ℓ) : Type ℓ where
  ok : A → Result A
  err : Error → Result A

infixl 5 ◌>>=◌
abbrev pub ◌>>=◌ {ℓ κ} : {A : Type ℓ} {B : Type κ} → Result A → (A → Result B) → Result B
ok a >>= f = f a
err e >>= f = err e
