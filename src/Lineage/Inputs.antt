-- ===== src/Lineage/Inputs.antt =====
-- lineage.py: what the fingerprint of an image hashes, besides the fingerprint of its parent.
use cs_image_system.Base.{
  ℕ, zero, suc, String, Bool, true, false, not, ◌||◌, Option, none, some, List, [], ◌∷◌, map,
  truthy, option_eq, or_else, ◌==◌, if◌then◌else◌,
}
use cs_image_system.Base.Dict.{get}
use cs_image_system.Base.Words.{◌+++◌}
use cs_image_system.Meta.{Mod}
use cs_image_system.Lineage.{
  ModFiles, Modification, mapping, with_files, ModPayload, of_mapping, of_files, ModRecord,
  BakeImage, RuntimeEntry, OsBuilder, BaseInputs, Payload, BakeCtx,
}
use cs_image_system.Lineage.Capabilities.{is_base_image, runtime_of, capability_stamp}

-- The text of the first candidate that is a file, else the path.
unfoldable pub text_of : BakeCtx → String → String
text_of ctx path =
    let here = or_else (ctx.read_file path) path in
    if ctx.is_absolute path
    then here
    else or_else (ctx.read_file (ctx.working_path +++ "/" +++ path)) here

abbrev pub is_nil : {A : Type 0} → List A → Bool
is_nil [] = true
is_nil (_ ∷ _) = false

unfoldable pub mod_payload : BakeCtx → String → ModFiles → ModPayload
unfolding text_of
mod_payload ctx type_ f =
    let read = map (λ (path : String). (path, text_of ctx path)) in
    of_files type_ f.config (read f.playbooks) f.script (read f.scripts) f.ensure

unfoldable pub operation_of : String → ModFiles → String
operation_of type_ f =
    if not (is_nil f.playbooks)
    then "ansible"
    else if not (is_nil f.script) || not (is_nil f.scripts) || not (f.ensure == "")
    then "bash"
    else type_

unfoldable pub mod_record : BakeCtx → Modification → ModRecord
unfolding mod_payload operation_of
mod_record ctx (mapping name type_ content) = record {
  name = name;
  type_ = type_;
  operation = none;
  idempotent = none;
  content_hash = ctx.sha_of_mod (of_mapping name type_ content);
}
mod_record ctx (with_files name type_ f) = record {
  name = name;
  type_ = type_;
  operation = some (operation_of type_ f);
  idempotent = some (
      if not (is_nil f.playbooks)
      then "ansible"
      else if f.idempotent == ""
      then "unknown"
      else f.idempotent);
  content_hash = ctx.sha_of_mod (mod_payload ctx type_ f);
}

unfoldable pub mod_records : BakeCtx → BakeImage → List ModRecord
unfolding mod_record
mod_records ctx image = map (mod_record ctx) image.modifications

-- What the record of a build keeps of a modification.
unfoldable pub recorded_mod : ModRecord → Mod
recorded_mod r = record { name = r.name; content_hash = r.content_hash }

unfoldable pub verify_commands : BakeCtx → BakeImage → Option String → List String
verify_commands ctx image runtime =
    if is_base_image ctx image
    then if truthy runtime then ctx.base_verify_commands image (or_else runtime "") else []
    else ctx.instance_verify_commands image

-- A size that is declared and not zero.
unfoldable pub set_size : Option ℕ → Option ℕ
set_size none = none
set_size (some zero) = none
set_size (some (suc n)) = some (suc n)

-- The size that the first entry on the runtime with a size declares.
unfoldable pub entry_disk_size : BakeCtx → Option String → List RuntimeEntry → Option ℕ
unfolding set_size
entry_disk_size ctx runtime [] = none
entry_disk_size ctx runtime (entry ∷ entries) =
    let later = entry_disk_size ctx runtime entries in
    if option_eq (runtime_of ctx entry.image_builder) runtime
    then elim (set_size entry.default_primary_disk_size) [ none ↦ later | some n ↦ some n ]
    else later

-- The runtime's own size, else the one that is declared for the image.
unfoldable pub bake_disk_size : BakeCtx → BakeImage → Option String → Option ℕ
unfolding entry_disk_size
bake_disk_size ctx image runtime =
    elim (if truthy runtime
      then set_size (get ctx.default_disk_sizes (or_else runtime ""))
      else none) [
        | some n ↦ some n
        | none ↦ elim (get ctx.os_builders image.name) [
          | none ↦ image.primary_disk_size
          | some osb ↦ elim (entry_disk_size ctx runtime osb.runtimes) [
            | some n ↦ some n
            | none ↦ osb.default_primary_disk_size
          ]
        ]
      ]

unfoldable pub runtime_source :
    BakeCtx → Option String → List RuntimeEntry → Option (Option String × String)
runtime_source ctx runtime [] = none
runtime_source ctx runtime (entry ∷ entries) =
    if option_eq runtime none || option_eq (runtime_of ctx entry.image_builder) runtime
    then some (entry.image_id, entry.query)
    else runtime_source ctx runtime entries

-- The inputs of a base image, which are those of its OS builder.
unfoldable pub base_inputs : BakeCtx → Option String → OsBuilder → BaseInputs
unfolding runtime_source
base_inputs ctx runtime osb = record {
  vendor = record {
    family = osb.family;
    family_version = osb.family_version;
    architecture = osb.architecture;
    runtime_source = runtime_source ctx runtime osb.runtimes;
  };
  admin_user = osb.admin_user;
  admin_public_keys = osb.admin_public_keys;
  update = osb.update;
}

unfoldable pub payload : BakeCtx → BakeImage → Option String → String → Payload
unfolding capability_stamp mod_records verify_commands bake_disk_size base_inputs
payload ctx image runtime parent = record {
  series = image.name;
  parent = parent;
  capabilities = capability_stamp ctx image runtime;
  mods = if is_base_image ctx image then [] else mod_records ctx image;
  tests = verify_commands ctx image runtime;
  disk_size = bake_disk_size ctx image runtime;
  base = elim (get ctx.os_builders image.name) [
    | none ↦ none
    | some osb ↦ some (base_inputs ctx runtime osb)
  ];
}
