-- ===== src/Blueprint/Examples.antt =====
-- Blueprints and their volumes: tests, and the theorems at concrete ones.
use sls.Shared.{◌≡◌, refl, true, false, Option, none, some, List, [], ◌∷◌, Distinct}
use sls.Shared.Paths.{clean, path_join}
use sls.Shared.Table.{Table, lookup}
use sls.Shared.Text.{Text, codes, split}
use sls.Shared.Text.Joined.{join}
use sls.Limits.{Limits, no_limits, copy_limits, merge_limits, validate_limits}
use sls.Shared.Outcome.{ok, err}
use sls.Blueprint.{
  Volume, Server, Blueprint, Definition, Visit, directory, file, bad_shorthand, cow,
  unmarshal_shorthand, unmarshal_mount, unmarshal_copy, cut_first, validate_server, resolve_image,
  load_visits, extension,
}
use sls.Blueprint.Shorthand.{unmarshal_shorthand-roundtrip}
use sls.Blueprint.Loading.{ids, load_visits-Distinct}

abbrev world : Volume
world = record {
  name = codes "world";
  source = codes "worlds/world";
  target = codes "/world";
  mode = codes "rw";
}

unmarshal_shorthand-roundtrip_example :
    (unmarshal_shorthand (codes "world:worlds/world:/world:rw") ≡ ok world)
    × (unmarshal_shorthand (codes "world:worlds/world:/world") ≡ ok (record world { mode = cow }))
unfolding join
unmarshal_shorthand-roundtrip_example = unmarshal_shorthand-roundtrip world (
  (refl, (refl, (refl, (refl, (refl, tt))))),
  (
    (
      refl,
      (refl, (refl, (refl, (refl, (refl, (refl, (refl, (refl, (refl, (refl, (refl, tt))))))))))),
    ),
    ((refl, (refl, (refl, (refl, (refl, (refl, tt)))))), ((refl, (refl, tt)), tt)),
  ),
)

too_many : unmarshal_shorthand (codes "a:b:c:rw:e") ≡ err bad_shorthand
unfolding unmarshal_shorthand split
too_many = refl

reads_mount :
    unmarshal_mount (codes "/srv/a:/home/container:ro")
    ≡ ok (record { source = codes "/srv/a"; target = codes "/home/container"; read_only = true })
unfolding unmarshal_mount split
reads_mount = refl

reads_copy :
    unmarshal_copy (err bad_shorthand) (some (codes "a:b:c"))
    ≡ ok (record { source = codes "a"; target = codes "b:c" })
unfolding unmarshal_copy cut_first
reads_copy = refl

abbrev paper : Definition
paper = record {
  id = codes "paper";
  name = codes "Paper";
  images = record {
    docker_images = (codes "java_21", codes "img:21") ∷ (codes "java_8", codes "img:8") ∷ [];
    mappings = [];
  };
  stop_command = codes "stop";
  invocation = codes "java";
  online_signal = codes "Done";
  install_script = record { entrypoint = codes "bash"; script = []; skip_scripts = false };
  limits = some (record no_limits { threads = some (codes "0-3"); io_weight = some 100 });
  configs = [];
}

abbrev software : Table Text Definition
software = (codes "paper", paper) ∷ []

abbrev lobby : Server
lobby = record {
  software = codes "Paper";
  version = codes "1.21";
  image = codes "java_21";
  path = [];
  limits = some (record no_limits { io_weight = some 500 });
  configs = [];
}

abbrev valid_lobby : Server
valid_lobby = record {
  software = codes "paper";
  version = codes "1.21";
  image = codes "img:21";
  path = codes "paper/1.21";
  limits = some (record no_limits { threads = some (codes "0-3"); io_weight = some 500 });
  configs = [];
}

-- The limits that are not set stay so.
abbrev as_they_are : Limits → Option Limits
as_they_are l = some l

is_valid : validate_server as_they_are software lobby ≡ ok valid_lobby
unfolding validate_server resolve_image lookup copy_limits merge_limits validate_limits path_join
    clean split join
is_valid = refl

abbrev named : Text → Blueprint
named id = record {
  meta = record { id = id; name = codes "n"; type = codes "t" };
  server = valid_lobby;
  state = none;
  save = false;
}

abbrev visits : List Visit
visits =
    directory
    ∷ file (codes "a.yml") (ok (named (codes "one")))
    ∷ file (codes "b.YAML") (ok (named (codes "two")))
    ∷ file (codes "c.txt") (ok (named (codes "three")))
    ∷ file (codes "d.yaml") (ok (named (codes "one")))
    ∷ []

loads_two : ids (load_visits [] visits) ≡ codes "one" ∷ codes "two" ∷ []
unfolding load_visits extension
loads_two = refl

load_visits-Distinct_example : Distinct (ids (load_visits [] visits))
load_visits-Distinct_example = load_visits-Distinct visits
