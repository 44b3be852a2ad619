-- ===== src/Meta/Pinning.antt =====
-- meta_state.py: the pins of instances and images, and their audit list.
use cs_image_system.Base.{
  String, Bool, not, ◌&&◌, ◌||◌, Option, none, some, List, [], ◌∷◌, ◌++◌, map, select, truthy,
  option_eq, or_else, ◌==◌, if◌then◌else◌,
}
use cs_image_system.Base.Words.{◌+++◌, before, mentions}
use cs_image_system.Base.Dict.{Dict, get, put, del, has, keys}
use cs_image_system.Meta.{
  Build, PinKind, instance_pin_kind, image_pin_kind, Op, bind, dispose, Upgrade, Pins,
}
use cs_image_system.Meta.Lineage.{build}

unfoldable pub instance_pin : Pins → String → Option String
instance_pin p name = get p.instances name

-- `<image>@<runtime>`, or the image alone without a runtime.
unfoldable pub image_pin_key : String → Option String → String
image_pin_key image runtime = if truthy runtime then image +++ "@" +++ or_else runtime "" else image

-- The legacy key, where lineage does not place its build on another runtime.
unfoldable pub legacy_pin : Pins → List Build → String → String → Option String
unfolding build
legacy_pin p builds image runtime =
    let legacy = get p.images image in
    if truthy legacy
    then elim (build builds (or_else legacy "")) [
      | none ↦ legacy
      | some b ↦
          if option_eq b.runtime none || option_eq b.runtime (some runtime) then legacy else none
    ]
    else none

unfoldable pub image_pin : Pins → List Build → String → Option String → Option String
unfolding image_pin_key legacy_pin
image_pin p builds image runtime =
    let keyed = get p.images (image_pin_key image runtime) in
    if truthy runtime
    then if truthy keyed then keyed else legacy_pin p builds image (or_else runtime "")
    else keyed

unfoldable pub bind_instance : Pins → String → String → String → Pins
bind_instance p name build_id run = record p {
  instances = put p.instances name build_id;
  upgrades =
      p.upgrades
      ++ record {
        kind = instance_pin_kind;
        name = name;
        from_build = none;
        to_build = some build_id;
        run = run;
        op = bind;
      }
        ∷ [];
}

-- A legacy key at the same build is superseded by the keyed one.
unfoldable pub bound_images : Dict String → String → String → Option String → Dict String
unfolding image_pin_key
bound_images images image build_id runtime =
    let bound = put images (image_pin_key image runtime) build_id in
    if truthy runtime && option_eq (get bound image) (some build_id) then del bound image else bound

unfoldable pub bind_image : Pins → String → String → String → Option String → Pins
unfolding bound_images
bind_image p image build_id run runtime = record p {
  images = bound_images p.images image build_id runtime;
  upgrades =
      p.upgrades
      ++ record {
        kind = image_pin_kind;
        name = image_pin_key image runtime;
        from_build = none;
        to_build = some build_id;
        run = run;
        op = bind;
      }
        ∷ [];
}

move_entry : PinKind → String → Option String → String → String → Op → Upgrade
move_entry kind name previous to_build run op = record {
  kind = kind;
  name = name;
  from_build = previous;
  to_build = some to_build;
  run = run;
  op = op;
}

-- The previous pin of an image and the table without a legacy pin that moves into the keyed form.
unfoldable pub previous_image : Dict String → String → Option String × Dict String
previous_image images name =
    if not (has images name) && mentions 64 name
    then (get images (before 64 name), del images (before 64 name))
    else (get images name, images)

unfoldable pub move_pin :
    Pins → PinKind → String → String → String → Op → (pending : Bool) → Pins × Option String
unfolding move_entry previous_image
move_pin p instance_pin_kind name to_build run op pending =
    let previous = get p.instances name in
    (
      record p {
        instances = put p.instances name to_build;
        upgrades = p.upgrades ++ move_entry instance_pin_kind name previous to_build run op ∷ [];
        pending_replacements =
            if pending then put p.pending_replacements name to_build else p.pending_replacements;
      },
      previous,
    )
move_pin p image_pin_kind name to_build run op pending =
    let (previous, images) = previous_image p.images name in
    (
      record p {
        images = put images name to_build;
        upgrades = p.upgrades ++ move_entry image_pin_kind name previous to_build run op ∷ [];
      },
      previous,
    )

unfoldable pub clear_pending_replacement : Pins → String → Pins
clear_pending_replacement p name = record p {
  pending_replacements = del p.pending_replacements name;
}

unfoldable pub removal : PinKind → String → String → String → Op → Upgrade
removal kind build_id run name op = record {
  kind = kind;
  name = name;
  from_build = some build_id;
  to_build = none;
  run = run;
  op = op;
}

-- `[key for key, b in images.items() if b == build_id]`
unfoldable pub pinned_at : Dict String → String → List String
pinned_at images build_id = keys (select (λ (e : String × String). e.1 == build_id) images)

unfoldable pub without : Dict String → List String → Dict String
without images [] = images
without images (key ∷ removed) = without (del images key) removed

unfoldable pub unpin_images_at : Pins → String → String → Pins × List String
unfolding pinned_at without removal
unpin_images_at p build_id run =
    let removed = pinned_at p.images build_id in
    (
      record p {
        images = without p.images removed;
        upgrades =
            p.upgrades
            ++ map (λ (key : String). removal image_pin_kind build_id run key dispose) removed;
      },
      removed,
    )

unfoldable pub remove_instance_pin : Pins → String → String → Op → Pins
unfolding removal
remove_instance_pin p name run op = elim (get p.instances name) [
  | none ↦ p
  | some previous ↦ record p {
    instances = del p.instances name;
    upgrades = p.upgrades ++ removal instance_pin_kind previous run name op ∷ [];
    pending_replacements = del p.pending_replacements name;
  }
]
