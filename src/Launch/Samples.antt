-- ===== src/Launch/Samples.antt =====
-- An instance on an applied root, before and after its launch, and an instance that is no longer
-- declared.
use cs_image_system.Base.{String, Bool, true, false, none, some, List, [], ◌∷◌, if◌then◌else◌}
use cs_image_system.Apply.{switch}
use cs_image_system.Meta.{no_pins}
use cs_image_system.Generations.{Params}
use cs_image_system.Lineage.{BakeCtx}
use cs_image_system.Launch.{LaunchInstance, LaunchCtx, Server, LaunchState}

abbrev bake : BakeCtx
bake = record {
  builds = [];
  pins = no_pins;
  images_map = [];
  os_builders = [];
  image_builders = [];
  storage_builders = [];
  default_disk_sizes = [];
  working_path = "/work";
  is_absolute = λ _. false;
  read_file = λ _. none;
  base_verify_commands = λ _ _. [];
  instance_verify_commands = λ _. [];
  sha_of_mod = λ _. "";
  sha = λ payload. payload.series;
  age_seconds = λ _. none;
  force_bake = [];
  only_images = none;
  implied_scope = none;
  bake_decisions = [];
  generated_lifecycles = [];
  current_lifecycle = none;
  run_id = "r2";
}

abbrev pub web : LaunchInstance
web = record {
  pinned = record { name = "web"; image = some "app"; runtime = some "aws"; image_policy = none };
  type_ = "ec2";
  ephemeral = false;
  machine_type = some "t3.small";
  group = some "ops";
  storages = [];
  mounts = [];
  others = [];
}

-- The registry of the group has the servers.
abbrev pub with_servers : List Server → LaunchCtx
with_servers servers = record {
  bake = bake;
  now = "t2";
  dry_run = false;
  apply_instances = switch true;
  instances = web ∷ [];
  alias_of = λ _. none;
  default_machine_type = λ _. "t3.micro";
  roots_on_runtime = λ _. [];
  registered_servers = λ _. some (some servers);
}

abbrev pub params_of : String → Bool → Params
params_of hostname launched = record {
  build = some "unbound";
  hostname = some hostname;
  alias = none;
  machine_type = some "t3.small";
  ephemeral = false;
  group = some "ops";
  mounts = [];
  others = [];
  launched = launched;
  launched_run = if launched then some "r1" else none;
  run = some "r1";
}

-- `web` waits for its launch, and `old` stands but is no longer declared.
abbrev pub waiting : LaunchState
waiting = record {
  params = ("web", params_of "web-001" false) ∷ ("old", params_of "old-001" true) ∷ [];
  pins = no_pins;
  generations = [];
  retired = [];
}

-- `web` stands.
abbrev pub standing : LaunchState
standing = record waiting { params = ("web", params_of "web-001" true) ∷ [] }
