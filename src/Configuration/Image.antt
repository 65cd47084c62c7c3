-- ===== src/Configuration/Image.antt =====
-- What protocube/server/configuration.go takes from the overrides, the blueprint and the software.
use sls.Shared.{◌≡◌, sym, ap, subst, Bool, true, false, Option, none, some, if◌then◌else◌}
use sls.Shared.Equality.{nat_eq, list_eq}
use sls.Shared.Outcome.{ok, bind_ok, ok_injective}
use sls.Shared.Table.{Table}
use sls.Shared.Text.{Text}
use sls.Allocator.{Allocations}
use sls.Limits.{Limits, or_empty, merge_limits}
use sls.Limits.Layers.{IsOver, merge_limits-IsOver, copy_limits-eq}
use sls.Software
use sls.Software.{image_for_version}
use sls.Registry
use sls.Blueprint.{Definition, InstallationScript, Blueprint, is_blank}
use sls.OutputMatcher.{OutputLineMatcher, new_output_line_matcher}
use sls.Configuration.Build.{
  ServerOverrides, override, or_base, effective_limits, effective_image, selected, found_software,
  compiled, assemble, ServerConfiguration, build_server_configuration,
}

abbrev override_limits : Option ServerOverrides → Limits
override_limits o = or_empty (override (λ x. x.limits) o)

effective_limits-IsOver :
    (limits : Option Limits) (o : Option ServerOverrides)
    → IsOver (or_empty limits) (override_limits o) (or_empty (effective_limits limits o))
unfolding effective_limits
effective_limits-IsOver limits none =
    subst (λ l. IsOver (or_empty limits) (or_empty none) (or_empty l)) (sym (copy_limits-eq limits))
      (unfold merge_limits in merge_limits-IsOver limits none)
effective_limits-IsOver limits (some o) =
    subst (λ l. IsOver (or_empty limits) (or_empty o.limits) (or_empty (merge_limits l o.limits)))
      (sym (copy_limits-eq limits)) (merge_limits-IsOver limits o.limits)

-- Where the image comes from, for a given one of the overrides and the one of the blueprint.
pub record Selects (sw : Definition) (version image chosen : Text) : Type 0 where
  pub as_given : is_blank image ≡ false → chosen ≡ image
  pub by_version :
      is_blank image ≡ true → image_for_version (some sw.images) version ≡ Software.ok chosen

effective_image-Selects :
    (sw : Definition) (version image : Text) (given : Option Text) (chosen : Text)
    → effective_image sw version image given ≡ ok chosen
    → Selects sw version (or_base given image) chosen
unfolding effective_image
effective_image-Selects sw version image given chosen h = record {
  as_given = λ b. sym (ok_injective (rw (b, effective_image, if◌then◌else◌) at h));
  by_version = λ b.
      by_result (image_for_version (some sw.images) version)
        (rw (b, effective_image, if◌then◌else◌) at h);
}
  where
    by_result : (r : Software.Result Text) → selected r ≡ ok chosen → r ≡ Software.ok chosen
    by_result (Software.ok i) e = cc
    by_result (Software.err x) e = cc

-- A configuration, by the software and the version that are in effect.
pub record IsBuilt (registry : Table Text Definition) (bp : Blueprint)
    (overrides : Option ServerOverrides) (chosen : Text) (limits : Option Limits) (version : Text)
    : Type 0 where
  pub definition : Definition
  pub registered :
      Registry.get
        (λ d. d.id)
        (or_base (override (λ o. o.software) overrides) bp.server.software)
        registry
      ≡ some definition
  pub in_effect : version ≡ or_base (override (λ o. o.version) overrides) bp.server.version
  pub image :
      Selects definition version
        (or_base (override (λ o. o.image) overrides) bp.server.image)
        chosen
  pub over : IsOver (or_empty bp.server.limits) (override_limits overrides) (or_empty limits)

module _ {R : Type 0} (compile : Text → Option R) (match : R → Text → Bool)
    (new_replace_value : Text → Option Text) where
  -- A configuration that is built has the image of the overrides, or else the one of the blueprint,
  -- whatever software and version the overrides ask for; only if that image is empty, it has the one
  -- that the software gives for the version. Each limit is that of the overrides, or else that of the
  -- blueprint.
  pub build_server_configuration-IsBuilt :
      (id : Text) (overrides : Option ServerOverrides) (bp : Blueprint)
      (registry : Table Text Definition) (alloc : Allocations)
      (cfg : ServerConfiguration compile match new_replace_value) (script : InstallationScript)
      → build_server_configuration compile match new_replace_value id overrides bp registry alloc
        ≡ ok (cfg, script)
      → IsBuilt registry bp overrides cfg.image cfg.limits cfg.software_version
  unfolding build_server_configuration
  build_server_configuration-IsBuilt id overrides bp registry alloc cfg script h =
      let (sw, at, h1) =
        bind_ok (found_software (Registry.get (λ d. d.id) software registry)) _ h in
      let (matcher, _, h2) =
        bind_ok
          (compiled compile match new_replace_value
            (new_output_line_matcher compile match sw.online_signal))
          _ h1 in
      let (image, picked, h3) =
        bind_ok (effective_image sw version bp.server.image (override (λ o. o.image) overrides)) _
          h2 in
      let e : assembled sw matcher image ≡ (cfg, script) = ok_injective h3 in
      record {
        definition = sw;
        registered = found (Registry.get (λ d. d.id) software registry) sw at;
        in_effect = sym (unfold assemble in ap (λ x. x.0.software_version) e);
        image =
            subst2
              (λ v i. Selects sw v (or_base (override (λ o. o.image) overrides) bp.server.image) i)
              version cfg.software_version image cfg.image
              (unfold assemble in ap (λ x. x.0.software_version) e)
              (unfold assemble in ap (λ x. x.0.image) e)
              (effective_image-Selects sw version bp.server.image
                (override (λ o. o.image) overrides) image picked);
        over =
            subst (λ l. IsOver (or_empty bp.server.limits) (override_limits overrides) (or_empty l))
              (unfold assemble in ap (λ x. x.0.limits) e)
              (effective_limits-IsOver bp.server.limits overrides);
      }
    where
      software : Text
      software = or_base (override (λ o. o.software) overrides) bp.server.software

      version : Text
      version = or_base (override (λ o. o.version) overrides) bp.server.version

      assembled :
          Definition
          → OutputLineMatcher compile match
          → Text
          → ServerConfiguration compile match new_replace_value × InstallationScript
      assembled sw matcher image =
          assemble compile match new_replace_value id overrides bp alloc software version sw matcher
            image

      found : (o : Option Definition) (sw : Definition) → found_software o ≡ ok sw → o ≡ some sw
      found none sw e = cc
      found (some x) sw e = cc

      subst2 : (P : Text → Text → Type 0) (a b c d : Text) → a ≡ b → c ≡ d → P a c → P b d
      subst2 P a b c d e f p = subst (λ x. P x d) e (subst (P a) f p)
