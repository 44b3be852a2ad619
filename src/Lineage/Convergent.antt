-- ===== src/Lineage/Convergent.antt =====
-- lineage.py: an image that was baked is current in the next run.
use cs_image_system.Base.{
  ℕ, suc, ◌*◌, ◌<◌, String, ◌≡◌, ◌⊎◌, inl, inr, refl, subst, sym, true, false, Option, none, some,
  arith, any, truthy, ◌==◌, eq_refl, Option-cases,
}
use cs_image_system.Meta.{Build, Pins}
use cs_image_system.Base.Dict.{get}
use cs_image_system.Meta.Lineage.{is_build, add_build, is_on_runtime}
use cs_image_system.Meta.Heads.{HasOneRecord, add_build-series_head}
use cs_image_system.Lineage.{BakeImage, BakeCtx, Reason}
use cs_image_system.Lineage.Capabilities.{on_runtime}
use cs_image_system.Lineage.Parents.{is_follow, source_of, input_fingerprint}
use cs_image_system.Lineage.Decision.{
  is_forced, same_inputs, refresh_days_of, Within, source_bakes, decided, bake_reason,
}
use cs_image_system.Lineage.Record.{
  ParentRef, parent_reference, pins_after_bake, recorded_parent, baked_record, record_build,
}
use cs_image_system.Lineage.Current.{IsCurrent, reason_given-IsCurrent}
use cs_image_system.Lineage.Renewed.{
  HasNoPinAt, pinned_capabilities-add_build, next_run, input_fingerprint-next_run,
}

abbrev moved_to : BakeCtx → Pins → BakeCtx
moved_to ctx pins = record ctx { pins = pins }

recorded_build :
    (fuel : ℕ) (ctx after : BakeCtx) (image : BakeImage) (rt id : String)
    (resolve : String → Option String)
    → record_build fuel ctx image rt id resolve ≡ some after
    → (fingerprint : String) × (pins : Pins) × (parent : _) × (input_fingerprint fuel
          (moved_to ctx pins)
          image
          (some rt)
        ≡ some fingerprint)
      × (after ≡ record ctx {
        pins = pins;
        builds =
            add_build ctx.builds (baked_record (moved_to ctx pins) image rt id parent fingerprint);
      })
unfolding record_build
recorded_build fuel ctx after image rt id resolve h =
    let pins = pins_after_bake ctx image (some rt) resolve (parent_reference ctx image (some rt)) in
    elim (Option-cases (input_fingerprint fuel (moved_to ctx pins) image (some rt))) [
      | inl none_left ↦ absurd (ground (arith, none_left, h))
      | inr (fingerprint, computed) ↦ (
        fingerprint,
        pins,
        recorded_parent resolve (parent_reference ctx image (some rt)),
        computed,
        ground (arith, computed, h),
      )
    ]

source_bakes-pinned :
    (decide : BakeImage → Option String → Within (Option Reason)) (ctx : BakeCtx)
    (image : BakeImage) (rt : Option String)
    → is_follow image.parent_policy ≡ false
    → source_bakes decide ctx image rt ≡ some false
unfolding source_bakes
source_bakes-pinned decide ctx image rt pinned = elim (Option-cases (source_of image)) [
  | inl alone ↦ ground (arith, alone)
  | inr (src, has_src) ↦ ground (arith, has_src, pinned)
]

module _ (ctx : BakeCtx) (image : BakeImage) (rt id run_id : String) (age : String → Option ℕ)
    (one : HasOneRecord ctx.builds) (pinned : is_follow image.parent_policy ≡ false)
    (on : truthy (some rt) ≡ true) (made : id == "" ≡ false)
    (new : any (is_build id) ctx.builds ≡ false)
    (young : (days seconds : ℕ)
      → refresh_days_of ctx image.name ≡ some days
      → age ctx.run_id ≡ some seconds
      → (days ≡ 0) ⊎ (seconds < days * 86400)) where
  module _ (parent : ParentRef) (fingerprint : String) (pins : Pins) where
    abbrev recorded : Build
    recorded = baked_record (moved_to ctx pins) image rt id parent fingerprint

    abbrev after_bake : BakeCtx
    after_bake = next_run (moved_to ctx pins) (add_build ctx.builds recorded) pins run_id age

    baked-IsCurrent : IsCurrent after_bake image (some rt) false fingerprint
    unfolding is_forced same_inputs is_on_runtime refresh_days_of
    baked-IsCurrent = record {
      head = recorded;
      unforced = refl;
      has_head =
          (add_build-series_head ctx.builds recorded (some rt) one).1 new
            (ground (arith, eq_refl rt));
      has_build = made;
      at_head = λ pin src head _ _ _ follows _ _. absurd (cc (follows, pinned));
      source_stays = ground (arith, pinned);
      inputs_stay = ground (arith, eq_refl fingerprint);
      is_young = λ days seconds has_days has_age. young days seconds has_days has_age;
    }

    baked-bake_reason :
        (fuel : ℕ)
        → HasNoPinAt pins id
        → input_fingerprint (suc fuel) (moved_to ctx pins) image (some rt) ≡ some fingerprint
        → bake_reason (suc fuel) after_bake image (some rt) ≡ some none
    unfolding bake_reason decided on_runtime get
    baked-bake_reason fuel free computed = ground (
      arith,
      on,
      input_fingerprint-next_run (moved_to ctx pins) (add_build ctx.builds recorded) pins run_id age
          (λ runtime chain.
            pinned_capabilities-add_build pins ctx.builds recorded free runtime chain)
          (suc fuel) image (some rt),
      computed,
      source_bakes-pinned (bake_reason fuel after_bake) after_bake image (some rt) pinned,
      (reason_given-IsCurrent after_bake image (some rt) false fingerprint).1 baked-IsCurrent,
    )

  -- When the bake of an image that keeps its parent is recorded on a runtime, under a build id that is
  -- new and that no image is pinned to, where each recorded build id has one record and no refresh is
  -- due, the image is current in the next run of the same configuration, which reads the records and
  -- the pins of this one.
  pub record_build-bake_reason :
      (resolve : String → Option String) (fuel : ℕ) (after : BakeCtx)
      → record_build (suc fuel) ctx image rt id resolve ≡ some after
      → HasNoPinAt after.pins id
      → bake_reason (suc fuel) (next_run after after.builds after.pins run_id age) image (some rt)
        ≡ some none
  record_build-bake_reason resolve fuel after h free =
      let (fingerprint, pins, parent, computed, same) =
        recorded_build (suc fuel) ctx after image rt id resolve h in
      subst
        (λ (a : BakeCtx).
          bake_reason (suc fuel) (next_run a a.builds a.pins run_id age) image (some rt)
          ≡ some none)
        (sym same)
        (baked-bake_reason parent fingerprint pins fuel
          (subst (λ (a : BakeCtx). HasNoPinAt a.pins id) same free) computed)
