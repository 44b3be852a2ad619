-- ===== src/Lineage/Current.antt =====
-- lineage.py: when an image is current.
use cs_image_system.Base.{
  ℕ, ◌*◌, ◌<◌, String, ◌≡◌, ◌↔◌, ◌⊎◌, inl, inr, Bool, true, false, ◌&&◌, Option, none, some, arith,
  truthy, or_else, is_some, ◌==◌, eq_iff, Bool-cases, Option-cases,
}
use cs_image_system.Meta.{Build}
use cs_image_system.Meta.Lineage.{series_head}
use cs_image_system.Meta.Pinning.{image_pin}
use cs_image_system.Lineage.{BakeImage, BakeCtx}
use cs_image_system.Lineage.Capabilities.{is_base_image, on_runtime}
use cs_image_system.Lineage.Parents.{
  is_follow, source_of, head_id, newer_head, effective_parent_build,
}
use cs_image_system.Lineage.Decision.{
  is_forced, same_inputs, refresh_days_of, refresh_reason, reason_with_head, reason_given,
}

-- An image that follows its source and is bound: the source has no other head than the pin.
abbrev pub IsAtHead : BakeCtx → BakeImage → Option String → Type 0
IsAtHead ctx image runtime =
    (pin src head : String)
    → is_base_image ctx image ≡ false
    → image_pin ctx.pins ctx.builds image.name (on_runtime ctx image runtime) ≡ some pin
    → truthy (some pin) ≡ true
    → is_follow image.parent_policy ≡ true
    → source_of image ≡ some src
    → head_id ctx src (on_runtime ctx image runtime) ≡ some head
    → head ≡ pin

-- No refresh is due: the policy asks for none, or the head is younger.
abbrev pub IsYoung : BakeCtx → String → Build → Type 0
IsYoung ctx series head =
    (days age : ℕ)
    → refresh_days_of ctx series ≡ some days
    → ctx.age_seconds (or_else head.run "") ≡ some age
    → (days ≡ 0) ⊎ (age < days * 86400)

pub record IsCurrent (ctx : BakeCtx) (image : BakeImage) (runtime : Option String)
    (source_bakes : Bool) (fingerprint : String) : Type 0 where
  pub head : Build
  pub unforced : is_forced ctx image.name runtime ≡ false
  pub has_head : series_head ctx.builds image.name runtime ≡ some head
  pub has_build : head.build_id == "" ≡ false
  pub at_head : IsAtHead ctx image runtime
  pub source_stays :
      truthy (effective_parent_build ctx image runtime).0
        && is_follow image.parent_policy
        && is_some (source_of image)
        && source_bakes
      ≡ false
  pub inputs_stay : same_inputs head fingerprint ≡ true
  pub is_young : IsYoung ctx image.name head

refresh_reason-none_iff :
    (ctx : BakeCtx) (series : String) (head : Build)
    → (refresh_reason ctx series head ≡ none) ↔ IsYoung ctx series head
unfolding refresh_reason
refresh_reason-none_iff ctx series head = elim (Option-cases (refresh_days_of ctx series)) [
  | inl no_policy ↦ (λ _ days age has_days. cc, λ _. ground (arith, no_policy))
  | inr (days, has_days) ↦ elim (Option-cases (ctx.age_seconds (or_else head.run ""))) [
    | inl no_age ↦ (λ _ d a _ has_age. cc, λ _. ground (arith, has_days, no_age))
    | inr (age, has_age) ↦ (
      λ quiet d a same_days same_age. ground (arith, quiet, same_days, same_age, has_days, has_age),
      λ young. ground (arith, young days age has_days has_age, has_days, has_age),
    )
  ]
]

newer_head-none_iff :
    (ctx : BakeCtx) (image : BakeImage) (rt : Option String) (pin : String)
    → (newer_head ctx image rt pin ≡ none) ↔ (
        (src head : String)
        → is_follow image.parent_policy ≡ true
        → source_of image ≡ some src
        → head_id ctx src rt ≡ some head
        → head ≡ pin)
unfolding newer_head
newer_head-none_iff ctx image rt pin = (
  λ quiet src head follows has_src has_head.
      ground (arith, eq_iff head pin, quiet, follows, has_src, has_head),
  λ stays. elim (Option-cases (source_of image)) [
    | inl alone ↦ rw alone (ground arith)
    | inr (src, has_src) ↦ elim (Option-cases (head_id ctx src rt)) [
      | inl no_head ↦ rw (has_src, no_head) (ground arith)
      | inr (head, has_head) ↦ ground (arith, eq_iff head pin, stays src head, has_src, has_head)
    ]
  ],
)

superseded-IsAtHead :
    (ctx : BakeCtx) (image : BakeImage) (rt : Option String)
    → (truthy (effective_parent_build ctx image rt).1 ≡ false) ↔ IsAtHead ctx image rt
unfolding effective_parent_build
superseded-IsAtHead ctx image rt = (
  λ same pin src head imaged bound set follows has_src has_head.
      (newer_head-none_iff ctx image (on_runtime ctx image rt) pin).0
        (ground (arith, imaged, bound, set, same)) src head follows has_src has_head,
  λ stays.
      elim (Option-cases (image_pin ctx.pins ctx.builds image.name (on_runtime ctx image rt))) [
        | inl unbound ↦ ground (arith, unbound)
        | inr (pin, bound) ↦ elim (Bool-cases (truthy (some pin))) [
          | inl set ↦ ground (
            arith,
            bound,
            set,
            (newer_head-none_iff ctx image (on_runtime ctx image rt) pin).1,
            stays pin,
            Bool-cases (is_base_image ctx image),
          )
          | inr unset ↦ ground (arith, bound, unset)
        ]
      ],
)

pub reason_given-IsCurrent :
    (ctx : BakeCtx) (image : BakeImage) (rt : Option String) (bakes : Bool) (fingerprint : String)
    → (reason_given ctx image rt bakes fingerprint ≡ none)
      ↔ IsCurrent ctx image rt bakes fingerprint
unfolding reason_given reason_with_head
reason_given-IsCurrent ctx image rt bakes fingerprint = (
  λ quiet. elim (Option-cases (series_head ctx.builds image.name rt)) [
    | inl no_head ↦ absurd (ground (arith, no_head, quiet))
    | inr (head, has_head) ↦ record {
      head = head;
      unforced = ground (arith, quiet);
      has_head = has_head;
      has_build = ground (arith, quiet, has_head);
      at_head = (superseded-IsAtHead ctx image rt).0 (ground (arith, quiet, has_head));
      source_stays = ground (arith, quiet, has_head);
      inputs_stay = ground (arith, quiet, has_head);
      is_young = (refresh_reason-none_iff ctx image.name head).0 (ground (arith, quiet, has_head));
    }
  ],
  λ c. ground (
    arith,
    c.unforced,
    c.has_head,
    c.has_build,
    (superseded-IsAtHead ctx image rt).1 c.at_head,
    c.source_stays,
    c.inputs_stay,
    (refresh_reason-none_iff ctx image.name c.head).1 c.is_young,
  ),
)
