-- ===== src/Lineage/Follows.antt =====
-- lineage.py: the pin of an image follows the parent that it was baked from.
use cs_image_system.Base.{
  String, ◌≡◌, inl, inr, true, false, List, Option, some, arith, truthy, ◌==◌, eq_iff, eq_refl,
  Bool-cases, Option-cases,
}
use cs_image_system.Base.Dict.{get-put}
use cs_image_system.Meta.{Build, Pins, image_pin_kind, follow}
use cs_image_system.Meta.Pinning.{image_pin, image_pin_key, previous_image, move_pin}
use cs_image_system.Lineage.{BakeImage, BakeCtx}
use cs_image_system.Lineage.Record.{of_build, pins_after_bake}

moved-image_pin :
    (p : Pins) (builds : List Build) (image rt build_id run_id : String)
    → truthy (some rt) ≡ true
    → build_id == "" ≡ false
    → image_pin
        (move_pin p image_pin_kind (image_pin_key image (some rt)) build_id run_id follow false).0
        builds
        image
        (some rt)
      ≡ some build_id
unfolding image_pin move_pin
moved-image_pin p builds image rt build_id run_id on made = ground (
  arith,
  on,
  made,
  eq_refl (image_pin_key image (some rt)),
  get-put (previous_image p.images (image_pin_key image (some rt))).1
      (image_pin_key image (some rt)) (image_pin_key image (some rt)) build_id,
)

-- An image that is bound on a runtime and was baked from a build is bound to that build after the
-- bake, be the build its pin or a newer head.
pub pins_after_bake-image_pin :
    (ctx : BakeCtx) (image : BakeImage) (rt build_id : String) (resolve : String → Option String)
    → truthy (some rt) ≡ true
    → truthy (image_pin ctx.pins ctx.builds image.name (some rt)) ≡ true
    → build_id == "" ≡ false
    → build_id == "vendor" ≡ false
    → image_pin
        (pins_after_bake ctx image (some rt) resolve (of_build build_id))
        ctx.builds
        image.name
        (some rt)
      ≡ some build_id
unfolding pins_after_bake
pins_after_bake-image_pin ctx image rt build_id resolve on bound made built =
    elim (Option-cases (image_pin ctx.pins ctx.builds image.name (some rt))) [
      | inl unbound ↦ absurd (ground (arith, unbound, bound))
      | inr (pin, has_pin) ↦ elim (Bool-cases (pin == build_id)) [
        | inl same ↦ ground (arith, has_pin, same, eq_iff pin build_id)
        | inr other ↦ ground (
          arith,
          has_pin,
          bound,
          other,
          built,
          moved-image_pin ctx.pins ctx.builds image.name rt build_id ctx.run_id on made,
        )
      ]
    ]
