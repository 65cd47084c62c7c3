-- ===== src/ServerManager/Filled.antt =====
-- The builder of configurations, which BuildServerConfiguration of protocube/server/configuration.go
-- fills in.
use sls.Shared.{◌≡◌, refl, ap, sym, Bool, Option}
use sls.Shared.Outcome.{ok, bind_ok, ok_injective}
use sls.Shared.Table.{Table}
use sls.Shared.Text.{Text}
use sls.Allocator.{Allocations}
use sls.Blueprint.{Definition, InstallationScript, Blueprint}
use sls.Configuration.Build.{
  ServerOverrides, ServerConfiguration, Error, build_server_configuration, assemble, found_software,
  compiled, effective_image, override, or_base,
}
use sls.OutputMatcher.{new_output_line_matcher, marshal, unmarshal}
use sls.Registry
use sls.ServerManager.{Builder}

module _ {R : Type 0} (compile : Text → Option R) (match : R → Text → Bool)
    (new_replace_value : Text → Option Text) (registry : Table Text Definition) where
  pub build_server_configuration-allocations :
      (id : Text) (overrides : Option ServerOverrides) (bp : Blueprint) (alloc : Allocations)
      (c : ServerConfiguration compile match new_replace_value) (script : InstallationScript)
      → build_server_configuration compile match new_replace_value id overrides bp registry alloc
        ≡ ok (c, script)
      → c.allocations ≡ alloc
  unfolding build_server_configuration assemble
  build_server_configuration-allocations id overrides bp alloc c script h =
      let (sw, _, h1) = bind_ok (found_software (Registry.get (λ d. d.id) software registry)) _ h in
      let (matcher, _, h2) =
        bind_ok
          (compiled compile match new_replace_value
            (new_output_line_matcher compile match sw.online_signal))
          _ h1 in
      let (image, _, h3) =
        bind_ok (effective_image sw version bp.server.image (override (λ o. o.image) overrides)) _
          h2 in
      ap (λ r. r.0.allocations) (sym (ok_injective h3))
    where
      software : Text
      software = or_base (override (λ o. o.software) overrides) bp.server.software

      version : Text
      version = or_base (override (λ o. o.version) overrides) bp.server.version

  -- Of the configuration as JSON, the matcher loses its regular expression.
  abbrev read_back :
      ServerConfiguration compile match new_replace_value
      → ServerConfiguration compile match new_replace_value
  read_back c = record c { done = unmarshal compile match (marshal compile match c.done) }

  abbrev pub server_builder :
      Builder
        (ServerConfiguration compile match new_replace_value)
        InstallationScript
        ServerOverrides
        Blueprint
        Error
  server_builder = record {
    build = λ id overrides bp alloc.
        build_server_configuration compile match new_replace_value id overrides bp registry alloc;
    allocations = λ c. c.allocations;
    keeps = build_server_configuration-allocations;
    read_back = read_back;
    read_back_ip = λ c. refl;
    read_back_port = λ c. refl;
  }
