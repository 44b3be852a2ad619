-- ===== src/Lineage/Capabilities.antt =====
-- capabilities.py and lineage.py: what a build is stamped with, through the pins of the image's chain.
use cs_image_system.Base.{
  ℕ, zero, suc, String, Bool, ◌&&◌, ◌||◌, Option, none, some, List, [], ◌∷◌, any, length, mem,
  select, truthy, option_eq, ◌==◌, if◌then◌else◌,
}
use cs_image_system.Base.Dict.{get, has}
use cs_image_system.Base.Sorting.{sorted, text_le}
use cs_image_system.Meta.{Caps, Build, Pins}
use cs_image_system.Meta.Lineage.{build}
use cs_image_system.Meta.Pinning.{image_pin}
use cs_image_system.Lineage.{BakeImage, StorageBuilder, BakeCtx}

unfoldable pub is_base_image : BakeCtx → BakeImage → Bool
is_base_image ctx image = has ctx.os_builders image.name

-- The runtime of an image builder.
abbrev pub runtime_of : BakeCtx → String → Option String
runtime_of ctx builder = elim (get ctx.image_builders builder) [
  | none ↦ none
  | some b ↦ some b.runtime_provider
]

-- The image's bound builder, else the builder of its type, else its OS builder's.
unfoldable pub primary_runtime_of : BakeCtx → BakeImage → Option String
primary_runtime_of ctx image = elim image.bound_builder [
  | some b ↦ runtime_of ctx b
  | none ↦ elim (runtime_of ctx image.type_) [
    | some rt ↦ some rt
    | none ↦ elim (get ctx.os_builders image.name) [
      | none ↦ none
      | some osb ↦ runtime_of ctx osb.image_builder
    ]
  ]
]

-- `runtime or primary_runtime_of(ctx, image)`
unfoldable pub on_runtime : BakeCtx → BakeImage → Option String → Option String
unfolding primary_runtime_of
on_runtime ctx image runtime = if truthy runtime then runtime else primary_runtime_of ctx image

abbrev pub no_caps : Caps
no_caps = record { identity_types = []; storage_types = [] }

-- The chain of an image's sources, and the base image at its root; a name that was seen ends it.
unfoldable pub chain_from : ℕ → BakeCtx → List String → Option String → List String × Option String
unfolding get
chain_from zero ctx seen name = ([], none)
chain_from (suc fuel) ctx seen none = ([], none)
chain_from (suc fuel) ctx seen (some name) =
    let next = λ (src : Option String). chain_from fuel ctx (name ∷ seen) src in
    if name == "" || mem name seen
    then ([], none)
    else if has ctx.os_builders name
    then ([], some name)
    else elim (get ctx.images_map name) [
      | none ↦ (name ∷ [], none)
      | some image ↦
          let rest =
            next
              (if option_eq image.source_image (some "self") then none else image.source_image) in
          (name ∷ rest.0, rest.1)
    ]

-- Each step but the last sees a new name of the images.
unfoldable pub image_chain : BakeCtx → String → List String × Option String
unfolding chain_from
image_chain ctx name = chain_from (suc (suc (length ctx.images_map))) ctx [] (some name)

-- The storage types that a builder on the runtime, or on none, prepares.
unfoldable pub storage_types_on_runtime :
    List StorageBuilder → List String → Option String → List String
storage_types_on_runtime builders types none = sorted text_le types
storage_types_on_runtime builders types (some rt) = sorted text_le (
    select
      (λ t.
        any
          (λ (b : StorageBuilder).
            b.capability_type == t && (option_eq b.runtime none || option_eq b.runtime (some rt)))
          builders)
      types)

unfoldable pub declared_capabilities : BakeCtx → String → Option String → Caps
unfolding storage_types_on_runtime
declared_capabilities ctx base runtime = elim (get ctx.os_builders base) [
  | none ↦ no_caps
  | some osb ↦ record {
    identity_types = sorted text_le osb.identity_types;
    storage_types = storage_types_on_runtime ctx.storage_builders osb.storage_types runtime;
  }
]

-- The stamp of the first image of the chain whose pin is a recorded build with one.
unfoldable pub pinned_capabilities : Pins → List Build → Option String → List String → Option Caps
pinned_capabilities p builds runtime [] = none
pinned_capabilities p builds runtime (name ∷ chain) =
    let later = pinned_capabilities p builds runtime chain in
    elim (image_pin p builds name runtime) [
      | none ↦ later
      | some pin ↦ if pin == "" then later else elim (build builds pin) [
        | none ↦ later
        | some b ↦ elim b.capabilities [
          | none ↦ later
          | some caps ↦ some (record {
            identity_types = sorted text_le caps.identity_types;
            storage_types = sorted text_le caps.storage_types;
          })
        ]
      ]
    ]

-- The pinned stamp governs, else the declaration of the root.
unfoldable pub effective_capabilities : BakeCtx → BakeImage → Option String → Option Caps
unfolding image_chain pinned_capabilities declared_capabilities
effective_capabilities ctx image runtime =
    let chain = image_chain ctx image.name in
    elim chain.1 [
      | none ↦ none
      | some root ↦ elim (pinned_capabilities ctx.pins ctx.builds runtime chain.0) [
        | some caps ↦ some caps
        | none ↦ some (declared_capabilities ctx root runtime)
      ]
    ]

unfoldable pub capability_stamp : BakeCtx → BakeImage → Option String → Caps
unfolding is_base_image on_runtime effective_capabilities declared_capabilities
capability_stamp ctx image runtime =
    let rt = on_runtime ctx image runtime in
    if is_base_image ctx image
    then declared_capabilities ctx image.name rt
    else elim (effective_capabilities ctx image rt) [ none ↦ no_caps | some caps ↦ caps ]
