-- ===== src/Configuration/Examples.antt =====
-- Configurations of servers: tests, and the theorems at a concrete blueprint and its overrides.
use sls.Shared.{◌≡◌, refl, false, Option, none, some, [], ◌∷◌}
use sls.Shared.Equality.{nat_eq, list_eq, list_beq}
use sls.Shared.Paths.{clean, path_join}
use sls.Shared.Table.{Table, lookup, insert}
use sls.Shared.Text.{Text, codes, split}
use sls.Shared.Text.Joined.{join}
use sls.Shared.Text.Affixes.{has_prefix, strip}
use sls.Allocator.{Allocations}
use sls.Limits.{no_limits}
use sls.Registry
use sls.Blueprint.{
  scalar, nested, Fields, nil, field, ConfigFile, Definition, Blueprint, insert_all,
}
use sls.OutputMatcher.{new_output_line_matcher}
use sls.Configuration.{merged_layers, flatten_fields}
use sls.Shared.Outcome.{ok}
use sls.Configuration.Build.{
  ServerOverrides, ServerConfiguration, build_server_configuration, assemble, effective_image,
}
use sls.Configuration.Image.{IsBuilt, build_server_configuration-IsBuilt}
use sls.Configuration.Layers.{value_of, IsOrdered, merged_layers-value}

abbrev as_text : Text → Option Text
as_text v = some v

abbrev config : Text
config = codes "config.yml"

-- The software writes a nested key, the overrides the same key with a dot.
abbrev by_software : Table Text ConfigFile
by_software =
    (
      config,
      record {
        parser = codes "yaml";
        find = field (codes "xray") (nested (field (codes "on") (scalar (codes "true")) nil)) nil;
      },
    )
    ∷ []

abbrev by_overrides : Table Text ConfigFile
by_overrides =
    (
      config,
      record { parser = codes "yaml"; find = field (codes "xray.on") (scalar (codes "false")) nil },
    )
    ∷ []

merged_layers-value_example :
    (value_of config (codes "xray.on") (merged_layers by_software [] by_overrides)
      ≡ some (scalar (codes "false")))
    × IsOrdered (merged_layers by_software [] by_overrides)
merged_layers-value_example =
    merged_layers-value by_software [] by_overrides config (codes "xray.on")

-- The range over the merged keys decides which of the two is left.
abbrev software_last : Fields
software_last =
    field (codes "xray.on") (scalar (codes "false"))
      (field (codes "xray") (nested (field (codes "on") (scalar (codes "true")) nil)) nil)

abbrev overrides_last : Fields
overrides_last =
    field (codes "xray") (nested (field (codes "on") (scalar (codes "true")) nil))
      (field (codes "xray.on") (scalar (codes "false")) nil)

order_decides :
    (flatten_fields [] software_last [] ≡ (codes "xray.on", codes "true") ∷ [])
    × (flatten_fields [] overrides_last [] ≡ (codes "xray.on", codes "false") ∷ [])
unfolding flatten_fields insert_all insert
order_decides = (refl, refl)

abbrev paper : Definition
paper = record {
  id = codes "paper";
  name = codes "Paper";
  images = record {
    docker_images = (codes "java_8", codes "img:8") ∷ (codes "java_21", codes "img:21") ∷ [];
    mappings =
        ((codes "<1.17", codes "java_8") ∷ []) ∷ ((codes ">=1.17", codes "java_21") ∷ []) ∷ [];
  };
  stop_command = codes "stop";
  invocation = codes "java";
  online_signal = codes "Done";
  install_script = record { entrypoint = codes "bash"; script = codes "x"; skip_scripts = false };
  limits = none;
  configs = by_software;
}

-- The blueprint as it is loaded, with the image of its version.
abbrev old : Blueprint
old = record {
  meta = record { id = codes "old"; name = codes "Old"; type = codes "game" };
  server = record {
    software = codes "paper";
    version = codes "1.8";
    image = codes "img:8";
    path = codes "paper/1.8";
    limits = some no_limits;
    configs = [];
  };
  state = none;
  save = false;
}

abbrev newer : Option ServerOverrides
newer = some (record {
  save = none;
  limits = some (record no_limits { threads = some (codes "0") });
  configs = by_overrides;
  software = none;
  version = some (codes "1.21");
  image = none;
  env = [];
})

abbrev address : Allocations
address = record {
  force_outgoing_ip = false;
  ip = codes "10.0.0.1";
  port = 25565;
  alias = [];
  mappings = [];
  release = (codes "10.0.0.1", 25565);
}

abbrev no_regex : Text → Option Text
no_regex pattern = none

abbrev registry : Table Text Definition
registry = (codes "paper", paper) ∷ []

abbrev built : ServerConfiguration no_regex list_beq as_text
built =
    (assemble no_regex list_beq as_text (codes "s1") newer old address (codes "paper")
      (codes "1.21") paper (record { raw = codes "Done"; reg = none }) (codes "img:8")).0

-- The version of the overrides is installed, on the image of the version of the blueprint.
keeps_old_image :
    build_server_configuration no_regex list_beq as_text (codes "s1") newer old registry address
    ≡ ok (built, paper.install_script)
unfolding build_server_configuration assemble effective_image new_output_line_matcher has_prefix
    strip Registry.get lookup
keeps_old_image = refl

old_image :
    (built.image ≡ codes "img:8")
    × (built.software_version ≡ codes "1.21")
    × (built.server_folder ≡ codes "paper/1.21")
unfolding assemble path_join clean split join
old_image = (refl, refl, refl)

build_server_configuration-IsBuilt_example :
    IsBuilt registry old newer built.image built.limits built.software_version
build_server_configuration-IsBuilt_example =
    build_server_configuration-IsBuilt no_regex list_beq as_text (codes "s1") newer old registry
      address built paper.install_script keeps_old_image
