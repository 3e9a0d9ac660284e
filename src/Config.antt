-- ===== src/Config.antt =====
-- The configuration: the names of hosts and what other hosts may do
-- (collab_mode/src/config_man.rs).
pub mod Laws
use collab_mode.Prelude.{
  ℕ, ◌==◌, leb, Bool, true, false, ◌&&◌, ◌||◌, Option, none, some, List, [], ◌∷◌, Text,
  if◌then◌else◌,
}
use collab_mode.Map
use collab_mode.Map.{text_eq, text_beq, lookup, insert}
use collab_mode.World.{ConfigProject}
use collab_mode.World.Fix.{set_insert}

-- `c.is_ascii_alphanumeric() || c == '_' || c == '-'`
unfoldable pub is_name_char : ℕ → Bool
is_name_char c =
    (leb 48 c && leb c 57)
    || (leb 65 c && leb c 90)
    || (leb 97 c && leb c 122)
    || c == 95
    || c == 45

unfoldable pub all_letters : Text → Bool
unfolding is_name_char
all_letters [] = true
all_letters (c ∷ name) = is_name_char c && all_letters name

-- `Ok(())` and the two errors.
pub data NameCheck : Type 0 where
  name_ok : NameCheck
  name_empty : NameCheck
  name_has_other : Text → NameCheck

unfoldable pub sanitize_name : Text → NameCheck
unfolding all_letters
sanitize_name [] = name_empty
sanitize_name (c ∷ name) = if all_letters (c ∷ name) then name_ok else name_has_other (c ∷ name)

pub record Permission : Type 0 where
  pub write : Bool
  pub create : Bool
  pub delete : Bool

abbrev pub default_permission : Permission
default_permission = record { write = true; create = true; delete = false }

pub record Config : Type 0 where
  pub projects : List ConfigProject
  pub trusted_hosts : List Text
  pub host_id : Option Text
  pub permission : List (Text × Permission)

abbrev pub default_config : Config
default_config = record { projects = []; trusted_hosts = []; host_id = none; permission = [] }

-- `Some(host_id) == self.config.host_id.as_ref()`
unfoldable pub is_own : Text → Option Text → Bool
is_own host none = false
is_own host (some own) = text_beq host own

abbrev pub permission_of : Option Permission → Permission
permission_of none = default_permission
permission_of (some p) = p

unfoldable pub write_allowed : Config → Text → Bool
unfolding is_own
write_allowed config host =
    if is_own host config.host_id
    then true
    else (permission_of (lookup host config.permission)).write

unfoldable pub create_allowed : Config → Text → Bool
unfolding is_own
create_allowed config host =
    if is_own host config.host_id
    then true
    else (permission_of (lookup host config.permission)).create

unfoldable pub delete_allowed : Config → Text → Bool
unfolding is_own
delete_allowed config host =
    if is_own host config.host_id
    then true
    else (permission_of (lookup host config.permission)).delete

unfoldable pub add_permission : Text → Permission → Config → Config
add_permission host p config = record config { permission = insert host p config.permission }

unfoldable pub add_trusted_host : Text → Config → Config
add_trusted_host host config = record config {
  trusted_hosts = set_insert host config.trusted_hosts;
}
