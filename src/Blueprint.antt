-- ===== src/Blueprint.antt =====
-- protocube/blueprint: the parts of a blueprint and their validation (blueprint.go, parser.go), and
-- the merge of environments (helpers.go). What the YAML package has read is an argument; the software
-- is looked up in the registry of protocube/software.
pub mod Shorthand
pub mod Loading
mod Examples
use sls.Shared.{
  ℕ, ◌+◌, ltb, leb, ◌==◌, Bool, true, false, not, ◌&&◌, ◌||◌, Option, none, some, List, [], ◌∷◌,
  map, if◌then◌else◌, length,
}
use sls.Shared.Equality.{nat_eq, list_eq, list_beq}
use sls.Shared.Outcome.{Outcome, ok, err, ◌>>=◌, ◌>>◌, fail_if}
use sls.Shared.Paths.{path_join}
use sls.Shared.Table.{Table, lookup, insert}
use sls.Shared.Text.{Text, codes, split, trim_space}
use sls.Limits.{Limits, no_limits, copy_limits, merge_limits, validate_limits}
use sls.Software
use sls.Software.{Software, image_for_version}

-- A value of a configuration file: a scalar, or a map from keys to values in the order in which the
-- map is ranged over.
mutual
  pub data Value : Type 0 where
    scalar : Text → Value
    nested : Fields → Value

  pub data Fields : Type 0 where
    nil : Fields
    field : Text → Value → Fields → Fields

pub record ConfigFile : Type 0 where
  pub parser : Text
  pub find : Fields

pub record InstallationScript : Type 0 where
  pub entrypoint : Text
  pub script : Text
  pub skip_scripts : Bool

-- `software.Software`, what a blueprint and a configuration read of it.
pub record Definition : Type 0 where
  pub id : Text
  pub name : Text
  pub images : Software
  pub stop_command : Text
  pub invocation : Text
  pub online_signal : Text
  pub install_script : InstallationScript
  pub limits : Option Limits
  pub configs : Table Text ConfigFile

pub record Meta : Type 0 where
  pub id : Text
  pub name : Text
  pub type : Text

-- A volume mode is a text, which Validate tests.
pub record Volume : Type 0 where
  pub name : Text
  pub source : Text
  pub target : Text
  pub mode : Text

pub record Mount : Type 0 where
  pub source : Text
  pub target : Text
  pub read_only : Bool

pub record Copy : Type 0 where
  pub source : Text
  pub target : Text

pub record State : Type 0 where
  pub volumes : List Volume
  pub mounts : List Mount
  pub copy : List Copy
  pub env : Table Text Text

pub record Server : Type 0 where
  pub software : Text
  pub version : Text
  pub image : Text
  pub path : Text
  pub limits : Option Limits
  pub configs : Table Text ConfigFile

pub record Blueprint : Type 0 where
  pub meta : Meta
  pub server : Server
  pub state : Option State
  pub save : Bool

pub data Error : Type 0 where
  missing_blueprint missing_server missing_field empty_volume_name bad_mode unknown_software : Error
  no_image unknown_image bad_limits bad_shorthand : Error

abbrev pub Result : Type 0 → Type 0
Result = Outcome Error

abbrev pub is_blank : Text → Bool
is_blank [] = true
is_blank (c ∷ s) = false

unfoldable pub validate_meta : Meta → Result (Unit {0})
validate_meta m = do
  fail_if (is_blank m.id) missing_field
  fail_if (is_blank m.name) missing_field
  fail_if (is_blank m.type) missing_field

abbrev pub cow : Text
cow = codes "cow"

abbrev pub is_mode : Text → Bool
is_mode m = list_beq m cow || list_beq m (codes "ro") || list_beq m (codes "rw")

unfoldable pub validate_volume : Volume → Result (Unit {0})
validate_volume v = do
  fail_if (is_blank v.name) empty_volume_name
  fail_if (is_blank v.source) missing_field
  fail_if (is_blank v.target) missing_field
  fail_if (not (is_blank v.mode) && not (is_mode v.mode)) bad_mode

unfoldable pub validate_volumes : List Volume → Result (Unit {0})
unfolding validate_volume
validate_volumes [] = ok tt
validate_volumes (v ∷ vs) = validate_volume v >> validate_volumes vs

-- `name:source:target[:mode]`
abbrev pub volume_of : List Text → Result Volume
volume_of (name ∷ source ∷ target ∷ []) =
    ok (record { name = name; source = source; target = target; mode = cow })
volume_of (name ∷ source ∷ target ∷ mode ∷ []) =
    ok (record { name = name; source = source; target = target; mode = mode })
volume_of _ = err bad_shorthand

unfoldable pub unmarshal_shorthand : Text → Result Volume
unmarshal_shorthand s = volume_of (split s b':')

-- The node as a text, if it is a scalar, and as a struct.
unfoldable pub unmarshal_volume : Option Text → Result Volume → Result Volume
unfolding unmarshal_shorthand
unmarshal_volume none tmp = tmp
unmarshal_volume (some s) tmp =
    if is_blank (trim_space s) then tmp else unmarshal_shorthand (trim_space s)

abbrev pub is_ro : List Text → Bool
is_ro [] = false
is_ro (mode ∷ rest) = list_beq mode (codes "ro")

abbrev pub mount_of : List Text → Result Mount
mount_of [] = err bad_shorthand
mount_of (source ∷ []) = err bad_shorthand
mount_of (source ∷ target ∷ rest) =
    ok (record { source = source; target = target; read_only = is_ro rest })

unfoldable pub unmarshal_mount : Text → Result Mount
unmarshal_mount s = mount_of (split s b':')

-- `strings.SplitN(s, ":", 2)`
unfoldable pub cut_first : ℕ → Text → Option (Text × Text)
cut_first sep [] = none
cut_first sep (c ∷ s) =
    let rest = cut_first sep s in
    if c == sep then some ([], s) else elim rest [ none ↦ none | some (a, b) ↦ some (c ∷ a, b) ]

unfoldable pub unmarshal_copy : Result Copy → Option Text → Result Copy
unfolding cut_first
unmarshal_copy (ok tmp) text = ok tmp
unmarshal_copy (err e) none = err e
unmarshal_copy (err e) (some s) = elim (cut_first b':' s) [
  | none ↦ err bad_shorthand
  | some (source, target) ↦ ok (record { source = source; target = target })
]

-- `strings.ToLower` on ASCII letters
abbrev pub lower : ℕ → ℕ
lower c = if leb b'A' c && leb c b'Z' then c + 32 else c

-- The image of a blueprint without one comes from the mappings; one that is given is a variant of the
-- software.
unfoldable pub resolve_image : Definition → Server → Result Text
resolve_image sw s =
    if is_blank s.image
    then elim (image_for_version (some sw.images) s.version) [
      | Software.ok image ↦ ok image
      | Software.err e ↦ err no_image
    ]
    else elim (lookup s.image sw.images.docker_images) [
      | none ↦ err unknown_image
      | some url ↦ ok url
    ]

abbrev pub default_path : Text → Text → Text → Text
default_path path software version = if is_blank path then path_join software version else path

abbrev pub get_software : Table Text Definition → Text → Result Definition
get_software registry id = elim (lookup id registry) [
  | none ↦ err unknown_software
  | some sw ↦ ok sw
]

abbrev pub checked_limits : (Limits → Option Limits) → Option Limits → Result Limits
checked_limits set_defaults none = err bad_limits
checked_limits set_defaults (some l) = elim (validate_limits set_defaults l) [
  | none ↦ err bad_limits
  | some l' ↦ ok l'
]

abbrev pub given : Option Limits → Option Limits
given none = some no_limits
given (some l) = some l

-- What Validate leaves in the server of a blueprint.
unfoldable pub validate_server :
    (Limits → Option Limits) → Table Text Definition → Server → Result Server
unfolding resolve_image
validate_server set_defaults registry s = do
  fail_if (is_blank s.version) missing_field
  fail_if (is_blank s.software) missing_field
  let software = map lower s.software
  sw ← get_software registry software
  image ← resolve_image sw s
  limits ← checked_limits set_defaults (merge_limits (copy_limits sw.limits) (given s.limits))
  ok (record s {
    software = software;
    image = image;
    limits = some limits;
    path = default_path s.path software s.version;
  })

-- The sections of the file; one that is not there is none.
pub record RawBlueprint : Type 0 where
  pub meta : Option Meta
  pub state : Option State
  pub server : Option Server
  pub save : Bool

abbrev pub section : {A : Type 0} → Option A → Error → Result A
section none e = err e
section (some a) e = ok a

abbrev pub volumes_of : Option State → List Volume
volumes_of none = []
volumes_of (some s) = s.volumes

unfoldable pub unmarshal_blueprint :
    (Limits → Option Limits) → Table Text Definition → RawBlueprint → Result Blueprint
unfolding validate_meta validate_server validate_volumes
unmarshal_blueprint set_defaults registry raw = do
  meta ← section raw.meta missing_blueprint
  validate_meta meta
  server ← section raw.server missing_server
  server' ← validate_server set_defaults registry server
  validate_volumes (volumes_of raw.state)
  ok (record { meta = meta; server = server'; state = raw.state; save = raw.save })

-- The extension of a name without slashes: from its last dot on.
unfoldable pub extension : Text → Text
extension [] = []
extension (c ∷ s) =
    let rest = extension s in elim rest [ [] ↦ if c == b'.' then c ∷ s else [] | d ∷ t ↦ d ∷ t ]

abbrev pub is_yaml : Text → Bool
is_yaml ext = list_beq ext (codes ".yaml") || list_beq ext (codes ".yml")

-- What the walk of the root meets: an error, a directory, or a file with what `load` makes of it.
pub data Visit : Type 0 where
  inaccessible directory : Visit
  file : Text → Result Blueprint → Visit

abbrev pub is_seen : List Text → Text → Bool
is_seen [] id = false
is_seen (x ∷ seen) id = list_beq x id || is_seen seen id

unfoldable pub load_visits : List Text → List Visit → List Blueprint
unfolding extension
load_visits seen [] = []
load_visits seen (inaccessible ∷ vs) = load_visits seen vs
load_visits seen (directory ∷ vs) = load_visits seen vs
load_visits seen (file name (err e) ∷ vs) = load_visits seen vs
load_visits seen (file name (ok bp) ∷ vs) =
    elim (not (is_yaml (map lower (extension name))) || is_seen seen bp.meta.id) [
      | true ↦ load_visits seen vs
      | false ↦ bp ∷ load_visits (bp.meta.id ∷ seen) vs
    ]

unfoldable pub load_all_blueprints :
    Option (Table Text Definition) → List Visit → Option (List Blueprint)
unfolding load_visits
load_all_blueprints none visits = none
load_all_blueprints (some registry) visits = some (load_visits [] visits)

-- The entries of the environment, in the order of the range, written one after the other.
unfoldable pub insert_all : List (Text × Text) → Table Text Text → Table Text Text
insert_all [] m = m
insert_all ((k, v) ∷ env) m = insert_all env (insert k v m)

abbrev pub no_state : State
no_state = record { volumes = []; mounts = []; copy = []; env = [] }

abbrev pub base_state : Option State → State
base_state none = no_state
base_state (some s) = s

unfoldable pub merge_state : Option State → List (Text × Text) → Option State
unfolding insert_all
merge_state base [] = base
merge_state base (e ∷ env) =
    let out = base_state base in some (record out { env = insert_all (e ∷ env) out.env })
