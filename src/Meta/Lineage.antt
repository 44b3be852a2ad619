-- ===== src/Meta/Lineage.antt =====
-- meta_state.py: the list of recorded builds.
use cs_image_system.Base.{
  String, Bool, true, ◌||◌, Option, none, some, List, [], ◌∷◌, ◌++◌, any, select, option_eq, ◌==◌,
  if◌then◌else◌,
}
use cs_image_system.Meta.{Build}

abbrev pub is_build : String → Build → Bool
is_build id b = b.build_id == id

-- Append-only: a build that is recorded stays as it is.
unfoldable pub add_build : List Build → Build → List Build
add_build builds b = if any (is_build b.build_id) builds then builds else builds ++ b ∷ []

unfoldable pub build : List Build → String → Option Build
build [] id = none
build (b ∷ builds) id = if b.build_id == id then some b else build builds id

-- Drops the first record of the id.
unfoldable pub remove_build : List Build → String → List Build
remove_build [] id = []
remove_build (b ∷ builds) id = if b.build_id == id then builds else b ∷ remove_build builds id

unfoldable pub builds_for_series : List Build → String → List Build
builds_for_series builds series = select (λ b. b.series == series) builds

-- No runtime is asked for, or the build names none or that one.
unfoldable pub is_on_runtime : Option String → Build → Bool
is_on_runtime none b = true
is_on_runtime (some runtime) b = option_eq b.runtime none || option_eq b.runtime (some runtime)

unfoldable pub last : List Build → Option Build
last [] = none
last (b ∷ []) = some b
last (b ∷ c ∷ builds) = last (c ∷ builds)

unfoldable pub series_head : List Build → String → Option String → Option Build
unfolding builds_for_series is_on_runtime last
series_head builds series runtime =
    last (select (is_on_runtime runtime) (builds_for_series builds series))
