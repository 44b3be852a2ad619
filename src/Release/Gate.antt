-- ===== src/Release/Gate.antt =====
-- release.py: `release`, with its guards in the order of the code, and the declared targets.
use cs_image_system.Base.{
  distinct, String, Bool, false, not, ◌&&◌, ◌||◌, Option, none, some, List, [], ◌∷◌, ◌++◌, map,
  truthy, or_else, option_eq, ◌==◌, if◌then◌else◌,
}
use cs_image_system.Base.Dict.{Dict, get, put}
use cs_image_system.Base.Sorting.{text_le, sorted}
use cs_image_system.Meta.{Mod, Build}
use cs_image_system.Meta.Lineage.{build, builds_for_series, series_head}
use cs_image_system.Release.{
  ModResult, Image, ReleaseCtx, Releases, ReleaseError, unrecorded, other_series, no_in_bake_record,
  no_mod_result, mod_failed, no_post_bake_record, post_bake_failed,
}

-- `r.get("status") != "pass" or r.get("idempotent") is False`
unfoldable pub is_failed : ModResult → Bool
is_failed r = elim r.idempotent [
  | none ↦ not (r.status == "pass")
  | some b ↦ not (r.status == "pass") || not b
]

unfoldable pub mod_error : ReleaseCtx → String → Mod → Option ReleaseError
unfolding is_failed
mod_error ctx build_id m = elim (get ctx.mod_results m.content_hash) [
  | none ↦ if ctx.require_mod_tests then some (no_mod_result m.name build_id) else none
  | some r ↦ if is_failed r then some (mod_failed m.name build_id r) else none
]

unfoldable pub mods_error : ReleaseCtx → String → List Mod → Option ReleaseError
unfolding mod_error
mods_error ctx build_id [] = none
mods_error ctx build_id (m ∷ mods) =
    let rest = mods_error ctx build_id mods in
    elim (mod_error ctx build_id m) [ none ↦ rest | some e ↦ some e ]

abbrev pub has_post_bake_tests : ReleaseCtx → String → Bool
has_post_bake_tests ctx image = elim (get ctx.images_map image) [
  | none ↦ false
  | some i ↦ i.has_post_bake
]

unfoldable pub post_bake_error : ReleaseCtx → String → String → Option ReleaseError
post_bake_error ctx image build_id =
    if has_post_bake_tests ctx image && ctx.require_image_tests
    then elim (get ctx.image_tests build_id) [
      | none ↦ some (no_post_bake_record build_id image)
      | some r ↦ if r.ok then none else some (post_bake_failed build_id r.run r.failed_checks)
    ]
    else none

unfoldable pub build_error : ReleaseCtx → String → String → Build → Option ReleaseError
unfolding mods_error post_bake_error
build_error ctx image build_id b =
    if not (b.series == image)
    then some (other_series build_id b.series image)
    else if not b.in_bake
    then some (no_in_bake_record build_id)
    else elim (mods_error ctx build_id b.mods) [
      | some e ↦ some e
      | none ↦ post_bake_error ctx image build_id
    ]

unfoldable pub release_error : ReleaseCtx → String → String → Option ReleaseError
unfolding build_error
release_error ctx image build_id = elim (build ctx.builds build_id) [
  | none ↦ some (unrecorded build_id)
  | some b ↦ build_error ctx image build_id b
]

abbrev pub of_model : Dict (Dict String) → String → Dict String
of_model current model = or_else (get current model) []

unfoldable pub recorded : ReleaseCtx → Releases → String → String → String → String → Releases
recorded ctx rs image build_id model note = record {
  releases =
      rs.releases
      ++ record { image = image; build_id = build_id; model = model; run = ctx.run_id; note = note }
        ∷ [];
  current = put rs.current model (put (of_model rs.current model) image build_id);
}

pub data Released : Type 0 where
  accepted : Releases → Released
  rejected : ReleaseError → Released

unfoldable pub release : ReleaseCtx → Releases → String → String → String → String → Released
unfolding release_error recorded
release ctx rs image build_id model note = elim (release_error ctx image build_id) [
  | some e ↦ rejected e
  | none ↦ accepted (recorded ctx rs image build_id model note)
]

pub record Target : Type 0 where
  pub image : String
  pub runtime : String
  pub build_id : String
  pub model : String

abbrev has_passed : ReleaseCtx → String → Bool
has_passed ctx id = elim (get ctx.image_tests id) [ none ↦ false | some r ↦ r.ok ]

unfoldable pub target_on : ReleaseCtx → Releases → String → Image → String → String → List Target
unfolding series_head
target_on ctx rs name image model rt = elim (series_head ctx.builds name (some rt)) [
  | none ↦ []
  | some head ↦
      let id = head.build_id in
      if id == "" || option_eq (get (of_model rs.current model) name) (some id)
      then []
      else if image.has_post_bake && not (has_passed ctx id)
      then []
      else record { image = name; runtime = rt; build_id = id; model = model } ∷ []
]

unfoldable pub targets_on :
    ReleaseCtx → Releases → String → Image → String → List String → List Target
unfolding target_on
targets_on ctx rs name image model [] = []
targets_on ctx rs name image model (rt ∷ rts) =
    target_on ctx rs name image model rt ++ targets_on ctx rs name image model rts

unfoldable pub targets_of : ReleaseCtx → Releases → List (String × Image) → List Target
unfolding targets_on builds_for_series
targets_of ctx rs [] = []
targets_of ctx rs ((name, image) ∷ images) =
    let rest = targets_of ctx rs images in
    let runtimes =
      sorted text_le (
        distinct (map (λ (b : Build). or_else b.runtime "") (builds_for_series ctx.builds name))) in
    if truthy image.release_model
    then targets_on ctx rs name image (or_else image.release_model "") runtimes ++ rest
    else rest

abbrev image_le : String × Image → String × Image → Bool
image_le a b = text_le a.0 b.0

unfoldable pub declared_release_targets : ReleaseCtx → Releases → List Target
unfolding targets_of
declared_release_targets ctx rs = targets_of ctx rs (sorted image_le ctx.images_map)
