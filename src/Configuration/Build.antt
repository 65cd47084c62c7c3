-- ===== src/Configuration/Build.antt =====
-- BuildServerConfiguration of protocube/server/configuration.go.
use sls.Shared.{Bool, true, false, not, ◌||◌, Option, none, some, List, [], if◌then◌else◌}
use sls.Shared.Equality.{nat_eq, list_eq}
use sls.Shared.Outcome.{Outcome, ok, err, ◌>>=◌}
use sls.Shared.Paths.{path_join}
use sls.Shared.Table.{Table}
use sls.Shared.Text.{Text, codes}
use sls.Allocator.{Allocations}
use sls.Limits.{Limits, copy_limits, merge_limits}
use sls.Software
use sls.Software.{image_for_version}
use sls.Registry
use sls.Blueprint.{
  ConfigFile, Definition, InstallationScript, State, Blueprint, merge_state, is_blank,
}
use sls.OutputMatcher.{OutputLineMatcher, new_output_line_matcher}
use sls.Configuration.{ConfigurationFile, get_config_files}

-- `models.ServerOverrides`; a map that is not there is empty.
pub record ServerOverrides : Type 0 where
  pub save : Option Bool
  pub limits : Option Limits
  pub configs : Table Text ConfigFile
  pub software : Option Text
  pub version : Option Text
  pub image : Option Text
  pub env : List (Text × Text)

pub data Error : Type 0 where
  software_not_found bad_signal : Error
  no_image : Software.Error → Error

abbrev pub Result : Type 0 → Type 0
Result = Outcome Error

-- A field of the overrides, if there are any and they have it.
abbrev pub override {ℓ} :
    {A : Type ℓ} → (ServerOverrides → Option A) → Option ServerOverrides → Option A
override field none = none
override field (some o) = field o

-- `x := base; if overrides.F != nil { x = *overrides.F }`
abbrev pub or_base {ℓ} : {A : Type ℓ} → Option A → A → A
or_base none base = base
or_base (some x) base = x

abbrev pub is_given {ℓ} : {A : Type ℓ} → Option A → Bool
is_given none = false
is_given (some x) = true

abbrev pub override_configs : Option ServerOverrides → Table Text ConfigFile
override_configs none = []
override_configs (some o) = o.configs

abbrev pub override_env : Option ServerOverrides → List (Text × Text)
override_env none = []
override_env (some o) = o.env

unfoldable pub effective_limits : Option Limits → Option ServerOverrides → Option Limits
effective_limits limits none = copy_limits limits
effective_limits limits (some o) = merge_limits (copy_limits limits) o.limits

abbrev pub server_folder : Text → Text → Text → Option ServerOverrides → Text
server_folder path software version overrides =
    if is_given (override (λ o. o.software) overrides)
      || is_given (override (λ o. o.version) overrides)
    then path_join software version
    else path

-- The image, which falls back to the mappings of the software when none is given.
abbrev pub selected : Software.Result Text → Result Text
selected (Software.ok image) = ok image
selected (Software.err e) = err (no_image e)

unfoldable pub effective_image : Definition → Text → Text → Option Text → Result Text
effective_image sw version image given =
    if is_blank (or_base given image)
    then selected (image_for_version (some sw.images) version)
    else ok (or_base given image)

abbrev pub found_software : Option Definition → Result Definition
found_software none = err software_not_found
found_software (some sw) = ok sw

-- An error of the patches is logged, and there are none.
abbrev pub or_none : Option (List ConfigurationFile) → List ConfigurationFile
or_none none = []
or_none (some files) = files

module _ {R : Type 0} (compile : Text → Option R) (match : R → Text → Bool)
    (new_replace_value : Text → Option Text) where
  pub record ServerConfiguration : Type 0 where
    pub id : Text
    pub done : OutputLineMatcher compile match
    pub stop_type : Text
    pub stop_value : Text
    pub configuration_files : List ConfigurationFile
    pub image : Text
    pub invocation : Text
    pub limits : Option Limits
    pub state : Option State
    pub server_folder : Text
    pub allocations : Allocations
    pub save : Bool
    pub software_id : Text
    pub software_version : Text
    pub has_install_script : Bool
    pub skip_install_script : Bool

  abbrev pub compiled :
      Option (OutputLineMatcher compile match) → Result (OutputLineMatcher compile match)
  compiled none = err bad_signal
  compiled (some m) = ok m

  unfoldable pub assemble :
      Text
      → Option ServerOverrides
      → Blueprint
      → Allocations
      → Text
      → Text
      → Definition
      → OutputLineMatcher compile match
      → Text
      → ServerConfiguration × InstallationScript
  unfolding effective_limits
  assemble id overrides bp alloc software version sw matcher image = (
    record {
      id = id;
      done = matcher;
      stop_type = codes "command";
      stop_value = sw.stop_command;
      configuration_files = or_none (
          get_config_files new_replace_value sw.configs bp.server.configs
            (override_configs overrides));
      image = image;
      invocation = sw.invocation;
      limits = effective_limits bp.server.limits overrides;
      state = merge_state bp.state (override_env overrides);
      server_folder = server_folder bp.server.path software version overrides;
      allocations = alloc;
      save = or_base (override (λ o. o.save) overrides) bp.save;
      software_id = sw.id;
      software_version = version;
      has_install_script = not (is_blank sw.install_script.script);
      skip_install_script = sw.install_script.skip_scripts;
    },
    sw.install_script,
  )

  unfoldable pub build_server_configuration :
      Text
      → Option ServerOverrides
      → Blueprint
      → Table Text Definition
      → Allocations
      → Result (ServerConfiguration × InstallationScript)
  unfolding effective_image assemble
  build_server_configuration id overrides bp registry alloc = do
    let software = or_base (override (λ o. o.software) overrides) bp.server.software
    let version = or_base (override (λ o. o.version) overrides) bp.server.version
    sw ← found_software (Registry.get (λ d. d.id) software registry)
    matcher ← compiled (new_output_line_matcher compile match sw.online_signal)
    image ← effective_image sw version bp.server.image (override (λ o. o.image) overrides)
    ok (assemble id overrides bp alloc software version sw matcher image)
