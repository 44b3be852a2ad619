-- ===== src/Launch/Forgotten.antt =====
-- launch_params.py, `forget_decommissioned`: what is no longer declared is forgotten once its machine
-- is destroyed, and nothing else is.
use cs_image_system.Base.{String, ◌≡◌, ◌∙◌, Bool, true, false, ◌||◌, some, arith}
use cs_image_system.Base.Dict.{has}
use cs_image_system.Lifecycles.Builtin.{Lifecycle}
use cs_image_system.Apply.{apply_flag_allows}
use cs_image_system.Launch.{LaunchCtx, LaunchState}
use cs_image_system.Launch.Record.{is_applying}
use cs_image_system.Launch.Undeclared.{
  is_declared, StandsOn, launched_runtime-some, launched_runtime-none, In-undeclared,
  undeclared-is_declared,
}
use cs_image_system.Launch.Hooks.{is_destroyed, undeclared, forget_decommissioned}
use cs_image_system.Launch.Forgetting.{
  IsForgotten, IsKept, forget_names-IsForgotten, forget_names-IsKept, forget_names-stays,
}

module _ (ctx : LaunchCtx) where
  -- The root of the runtime was applied.
  abbrev pub is_root_applied : String → Bool
  is_root_applied rt = apply_flag_allows ctx.apply_instances (some rt) (ctx.roots_on_runtime rt)

  is_destroyed-StandsOn :
      (st : LaunchState) (name rt : String)
      → StandsOn ctx st name rt
      → is_destroyed ctx st name ≡ is_root_applied rt
  unfolding is_destroyed
  is_destroyed-StandsOn st name rt on = ground (arith, launched_runtime-some ctx st name rt on)

  is_destroyed-nowhere :
      (st : LaunchState) (name : String)
      → ((rt : String) → ¬ StandsOn ctx st name rt)
      → is_destroyed ctx st name ≡ true
  unfolding is_destroyed
  is_destroyed-nowhere st name nowhere = ground (arith, launched_runtime-none ctx st name nowhere)

  -- What becomes of a name that has a launch record or a pin and is no longer declared.
  abbrev pub IsDecided : LaunchState → LaunchState → String → Type 0
  IsDecided st st' name =
      (((rt : String) → ¬ StandsOn ctx st name rt) → IsForgotten st' name)
      × ((rt : String) → StandsOn ctx st name rt → is_root_applied rt ≡ true → IsForgotten st' name)
      × ((rt : String) → StandsOn ctx st name rt → is_root_applied rt ≡ false → IsKept st st' name)

  -- When the run applies, every name that is declared is kept, with its launch record, its pin and
  -- its open generation. Of a name that is not declared and has a launch record or a pin: when its
  -- machine stands on no known runtime, or on one whose root was applied, it has no launch record, no
  -- pin and no open generation afterwards; when its machine stands on a runtime whose root was not
  -- applied, it is kept. A machine stands on the runtime of the recorded build that it is pinned to,
  -- or, without a pin, of the build in its launch record.
  pub forget_decommissioned-IsForgotten :
      (lifecycle : Lifecycle) (st : LaunchState)
      → is_applying ctx lifecycle ≡ true
      → ((name : String)
          → is_declared ctx name ≡ true
          → IsKept st (forget_decommissioned ctx lifecycle st) name)
        × ((name : String)
            → has st.params name || has st.pins.instances name ≡ true
            → is_declared ctx name ≡ false
            → IsDecided st (forget_decommissioned ctx lifecycle st) name)
  unfolding forget_decommissioned
  forget_decommissioned-IsForgotten lifecycle st applying = rw applying (
    λ name declared.
        forget_names-IsKept ctx st (undeclared ctx st) name
          (undeclared-is_declared ctx st name declared),
    λ name recorded absent.
        let there = In-undeclared ctx st name recorded absent in
        (
          λ nowhere.
              forget_names-IsForgotten ctx st (undeclared ctx st) name there
                (is_destroyed-nowhere st name nowhere),
          λ rt on applied.
              forget_names-IsForgotten ctx st (undeclared ctx st) name there
                (is_destroyed-StandsOn st name rt on ∙ applied),
          λ rt on idle.
              forget_names-stays ctx st (undeclared ctx st) name
                (is_destroyed-StandsOn st name rt on ∙ idle),
        ),
  )
