-- ===== src/Lifecycles.antt =====
-- packages/base/src/cs_image_system/base/lifecycles.py: the registry of plugin lifecycles over the
-- built-in ones. A set of builder kinds is a list in a fixed order, and a phase or kind is its text.
pub mod Builtin
pub mod Registry
pub mod Order
mod Tests
use cs_image_system.Base.{String, Bool, true, false, ◌&&◌, Option, List, [], ◌∷◌, option_eq, ◌==◌}
use cs_image_system.Lifecycles.Builtin.{Lifecycle, builtin_value}

pub record LifecycleSpec : Type 0 where
  pub name : String
  pub phases : List String
  pub builder_vcts : List String
  pub after : Option String
  pub description : String

pub data LifecycleLike : Type 0 where
  builtin : Lifecycle → LifecycleLike
  plugin : LifecycleSpec → LifecycleLike

unfoldable pub value : LifecycleLike → String
unfolding builtin_value
value (builtin lc) = builtin_value lc
value (plugin spec) = spec.name

abbrev texts_eq : List String → List String → Bool
texts_eq [] [] = true
texts_eq (a ∷ xs) (b ∷ ys) = let rest = texts_eq xs ys in a == b && rest
texts_eq _ _ = false

unfoldable pub spec_eq : LifecycleSpec → LifecycleSpec → Bool
spec_eq a b =
    a.name == b.name
    && texts_eq a.phases b.phases
    && texts_eq a.builder_vcts b.builder_vcts
    && option_eq a.after b.after
    && a.description == b.description
