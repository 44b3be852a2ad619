-- ===== src/Lib.antt =====
-- The core of cs-image-system, a declarative provisioning compiler: the part that keeps the
-- memory of what was built and decides what a run may do. Paths below are from the repository's
-- root.
--
-- Base holds what the components share: tests, lists, dictionaries in insertion order (Base/Dict)
-- and sorting (Base/Sorting). A Python function that raises is a function into a result or error
-- list; a text of an error or a log line is a constructor with the values that the text names,
-- and log lines are not modelled. A file of meta-state is the value that it holds: `read` and
-- `write` of packages/base/src/cs_image_system/base/meta_state.py hand that value over unchanged,
-- so that the scan for secrets, the YAML text, the decryption and the clock are outside the
-- model.
--
-- Storage models packages/base/src/cs_image_system/base/storage_state.py with the storage part of
-- meta_state.py and of models/storage.py: Storage.antt has the data, Storage/Record
-- `record_storage_transition`, Storage/Transitions the attachments, the pending and the
-- undeclared transitions and their recording, Storage/Validate `validate_transitions`. A run
-- context is the record `Ctx`.
--
-- Apply models `apply_flag_allows` of packages/base/src/cs_image_system/base/utils.py, the flag
-- of a lifecycle and the roots that it lets apply.
--
-- Generations models packages/base/src/cs_image_system/base/generations.py with the generations
-- of meta_state.py: Generations/Record has the operations on `instance-state.yaml`,
-- Generations/Flow the signals of a launch, a resize and a decommission and
-- `reconcile_generations`, which asks the provider for the machine of each name. A runtime plugin
-- is a record of its two answers, a parameter of the model. The `Kind` is one of the two that
-- `open_generation` accepts, so that its refusal of another kind is outside the model.
--
-- Power models packages/contract/src/cs_image_system/contract/power_state.py, the states of a
-- machine, and packages/base/src/cs_image_system/base/power_state.py: Power/Task has
-- `wait_until_reachable` and `running_for_task`, which may start a machine that is off for one
-- bounded task. A runtime plugin and the clock are a record over a world that their calls change;
-- the calls that the task makes are kept in a list. The body of the `with` block is a function of
-- the yielded value. The loop of the wait has fuel for one poll at once and one after each pause
-- of ten seconds that the timeout leaves time for, which is enough for a clock that does not run
-- backwards and a pause that lasts as long as asked.
--
-- Meta models the rest of meta_state.py: Meta/Lineage the records of builds, Meta/Pinning the
-- pins and their audit list, Meta/Journal the launch records, the bounded journals and the state
-- locations.
--
-- Dispose models packages/base/src/cs_image_system/base/commands/dispose.py: Dispose/Plan has
-- `select_builds`, `refuse_if_in_use` and `retention_plan`, Dispose/Images `dispose_images`. The
-- provider's deletion of an image is a field of a runtime plugin, which answers or raises. A call
-- that ends in an error returns what stands in the files by then.
--
-- Release models packages/base/src/cs_image_system/base/release.py: Release/Gate has `release`
-- with its guards in the order of the code and `declared_release_targets`, Release/Pinned
-- `released_builds`, `release_grace` and `validate_released_pins`. Whether an image declares
-- post-bake tests is a field of the model's image.
--
-- Lifecycles models packages/contract/src/cs_image_system/contract/lifecycles.py
-- (Lifecycles/Builtin) and packages/base/src/cs_image_system/base/lifecycles.py
-- (Lifecycles/Registry): the registry of plugin lifecycles is an argument, and `lower` changes
-- the letters of ASCII only.
--
-- Posix models packages/base/src/cs_image_system/base/posix_ids.py with the claims of
-- packages/contract/src/cs_image_system/contract/identity_vocabulary.py: Posix.antt has the
-- claims and the verdict on one name, Posix/Resolve `resolve_posix_ids`.
--
-- Lineage models packages/base/src/cs_image_system/base/lineage.py: Lineage.antt has the data,
-- Lineage/Parents the parent of an image and the fingerprint of its inputs, Lineage/Decision the
-- bake decision and the bake plan, and Lineage/Record the bindings of images and instances and
-- the record of a bake. Lineage/Inputs has what the fingerprint of an image hashes besides its
-- parent, and Lineage/Capabilities models the chain of an image and the capability stamp of
-- packages/base/src/cs_image_system/base/capabilities.py, which reads the pins and the recorded
-- builds. The commands that verify a bake (image_tests.py and the plugins, which read the
-- configuration and no record), the files on disk, the hashes and the age of a run are arguments.
-- The chain of parents is followed on fuel; fuel for each image of the chain is enough. The chain
-- of names that the stamp reads is followed on two more than the images of the configuration, as
-- each step but the last sees a new image.
--
-- Launch models packages/base/src/cs_image_system/base/launch_params.py: Launch.antt has the
-- data, Launch/Names the hostname, the machine type and the computed parameters, Launch/Record
-- the records of the declared instances, Launch/Hooks the hooks after an apply (`mark_launched`,
-- `forget_decommissioned`, `forget_ephemerals`) and Launch/Checks the checks before a run. The
-- state has the launch records, the pins, the generations and the log of the registrations to
-- retire; a registry and a runtime's default machine type are arguments. The rendering of scripts
-- and the hash of the user data are not modelled.
--
-- Aliases models packages/base/src/cs_image_system/base/alias_pool.py: Aliases/Line has the lines
-- of the pool and the pattern of a spent line, Aliases/Draw the draw and the return of a name,
-- and Aliases/Requests the alias of an instance and the end of a run. The lock and the
-- replacement of the file are not modelled, and a line is without its ending.
--
-- Upgrade models packages/base/src/cs_image_system/base/commands/upgrade.py, with its refusals as
-- values. Runs models two checks of packages/base/src/cs_image_system/base/commands: Runs/Scope
-- the rule of run_scope.py that a real run bakes only where it may apply, and Runs/Gate the gate
-- of gate.py on the destroys of a plan; the plan and the file of sanctioned addresses are given
-- as their entries.
--
-- Not modelled: the loading of the configuration and of plugins, the orchestration of a run and
-- its external programs, the rendering of terraform, packer, ansible and shell texts, the state
-- backends and their locks, the encryption of secrets, the command line, and the plugins of
-- runtimes, identities and operating systems, which call services and stand in the models as
-- parameters.
pub mod Base
pub mod Storage
pub mod Apply
pub mod Lifecycles
pub mod Generations
pub mod Power
pub mod Meta
pub mod Dispose
pub mod Release
pub mod Posix
pub mod Lineage
pub mod Launch
pub mod Aliases
pub mod Upgrade
pub mod Runs
