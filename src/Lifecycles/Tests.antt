-- ===== src/Lifecycles/Tests.antt =====
-- Two plugin lifecycles, and a name that is an alias.
use cs_image_system.Base.{String, ◌≡◌, refl, false, none, some, List, [], ◌∷◌, map, select}
use cs_image_system.Base.Dict.{get, put}
use cs_image_system.Base.Strip.{strip}
use cs_image_system.Base.Words.{lower, mentions}
use cs_image_system.Lifecycles.Builtin.{base_image, lifecycle_order}
use cs_image_system.Lifecycles.{LifecycleSpec, LifecycleLike, builtin, value}
use cs_image_system.Lifecycles.Registry.{
  Registry, all_lifecycles, key_of, registered, register_lifecycle, lifecycle_named,
  parse_lifecycles,
}
use cs_image_system.Lifecycles.Order.{
  is_builtin, all_lifecycles-builtins, IsAfter, register_lifecycle-IsAfter,
}

abbrev spec : String → String → LifecycleSpec
spec name after = record {
  name = name;
  phases = [];
  builder_vcts = [];
  after = some after;
  description = "";
}

abbrev with_release : Registry
with_release = ("release", spec "release" "instance-image") ∷ []

program : Unit {0}
unfolding register_lifecycle all_lifecycles key_of lifecycle_named parse_lifecycles get put strip
    lower mentions value
program = tt

names : List LifecycleLike → List String
names lcs = map value lcs

retention_registered :
    register_lifecycle with_release (spec "retention" "release")
    ≡ registered
        (put with_release "retention" (spec "retention" "release"))
        (spec "retention" "release")
unfolding program
retention_registered = refl

declared_order :
    names (all_lifecycles (put with_release "retention" (spec "retention" "release")))
    ≡ "identity" ∷ "storage" ∷ "base-image" ∷ "instance-image" ∷ "release" ∷ "retention" ∷ []
unfolding program names
declared_order = refl

not_argument_order :
    parse_lifecycles with_release ("release" ∷ "ID " ∷ []) false
    ≡ parse_lifecycles with_release ("identity" ∷ "release" ∷ []) false
unfolding program
not_argument_order = refl

-- The registry accepts a name that is an alias, and the name still resolves to the built-in one.
alias_registered :
    register_lifecycle [] (spec "base" "storage")
    ≡ registered (("base", spec "base" "storage") ∷ []) (spec "base" "storage")
unfolding program
alias_registered = refl

alias_shadows :
    lifecycle_named (("base", spec "base" "storage") ∷ []) "base" ≡ some (builtin base_image)
unfolding program
alias_shadows = refl

new_name : get with_release (key_of "retention") ≡ none
unfolding program
new_name = refl

register_lifecycle-IsAfter_example :
    IsAfter "release"
      (spec "retention" "release")
      (all_lifecycles with_release)
      (all_lifecycles (put with_release "retention" (spec "retention" "release")))
register_lifecycle-IsAfter_example =
    register_lifecycle-IsAfter with_release
      (put with_release "retention" (spec "retention" "release")) (spec "retention" "release")
      (spec "retention" "release") "release" retention_registered new_name refl

all_lifecycles-builtins_example :
    select is_builtin (all_lifecycles with_release) ≡ map builtin lifecycle_order
all_lifecycles-builtins_example = all_lifecycles-builtins with_release
