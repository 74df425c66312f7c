-- ===== src/Restore/Locations.antt =====
-- app/services/backup_location.py: which registered PBS a storage points to, and the location of a
-- backup; and `restore_host_pbs_entries` of app/services/restore_orchestrator.py. `is_ip` is the test
-- of `ipaddress`, `resolve` the lookup of a host name, with no address where it fails.
pub mod Identity
use backup_sentinel.Prelude.{
  nat_beq, if◌then◌else◌, ◌==◌, is_empty, any, contains, String, string_append, Bool, ◌||◌, Option,
  none, some, List, [], ◌∷◌, ◌++◌, map, nat_eq, string_eq,
}
use backup_sentinel.Prelude.Text.{strip, lower}
use Prim.Native.Char.{code}
use backup_sentinel.Restore.Match.{HostEntry}

-- A registered PBS: its name, the host of its URL, and its aliases.
pub record Connection : Type 0 where
  pub name : String
  pub host : String
  pub aliases : List String

-- A PBS storage of the restore host.
pub record PbsStorage : Type 0 where
  pub storage : String
  pub server : String
  pub datastore : String
  pub namespace : String

-- `host.split(".")[0]`
abbrev pub first_label : String → String
first_label String.[] = ""
first_label (String.◌∷◌ c s) =
    let rest = first_label s in if nat_beq (code c) b'.' then "" else String.◌∷◌ c rest

abbrev with_namespace : String → String → String
with_namespace location namespace =
    if namespace == "" then location else string_append location (string_append "/" namespace)

abbrev located : String → String → String → String
located server datastore namespace =
    with_namespace (string_append "pbs:" (string_append server (string_append "/" datastore)))
      namespace

unfoldable pub pbs_location : String → String → String → String
pbs_location host datastore namespace = located (lower (strip host)) datastore namespace

unfoldable pub connection_name : Connection → String
connection_name conn = lower (strip (if conn.name == "" then conn.host else conn.name))

unfoldable pub connection_location : Connection → String → String → String
unfolding connection_name
connection_location conn datastore namespace = located (connection_name conn) datastore namespace

abbrev pub meets : List String → List String → Bool
meets xs ys = any (contains ys) xs

module _ (is_ip : String → Bool) (resolve : String → List String) where
  -- `_names`
  unfoldable pub names_of : String → List String
  names_of host =
      let h = lower (strip host) in
      if h == "" then [] else if is_ip h then h ∷ [] else h ∷ first_label h ∷ []

  unfoldable pub alias_names : List String → List String
  alias_names [] = []
  alias_names (alias ∷ aliases) = names_of alias ++ alias_names aliases

  unfoldable pub connection_names : Connection → List String
  unfolding alias_names names_of
  connection_names conn = names_of conn.host ++ connection_name conn ∷ alias_names conn.aliases

  -- the first connection of which the test holds
  unfoldable pub first_where : (Connection → Bool) → List Connection → Option Connection
  first_where p [] = none
  first_where p (c ∷ conns) = let rest = first_where p conns in if p c then some c else rest

  abbrev pub same_name : String → Connection → Bool
  same_name host conn = meets (names_of host) (connection_names conn)

  abbrev pub same_address : List String → Connection → Bool
  same_address addresses conn = any (λ h. meets addresses (resolve h)) (conn.host ∷ conn.aliases)

  abbrev or_by_address : String → List Connection → Option Connection → Option Connection
  or_by_address host conns (some conn) = some conn
  or_by_address host conns none =
      if host == "" || is_empty (resolve host)
      then none
      else first_where (same_address (resolve host)) conns

  unfoldable pub match_pbs_connection : String → List Connection → Option Connection
  unfolding first_where
  match_pbs_connection host conns = or_by_address host conns (first_where (same_name host) conns)

  abbrev location_of : Option Connection → String → String → String → String
  location_of (some conn) host datastore namespace = connection_location conn datastore namespace
  location_of none host datastore namespace = located host datastore namespace

  -- an entry of `restore_host_pbs_entries`
  unfoldable pub entry_of : List Connection → PbsStorage → HostEntry
  unfolding match_pbs_connection
  entry_of conns s =
      let host = lower (strip s.server) in
      record {
        location = location_of (match_pbs_connection host conns) host s.datastore s.namespace;
        storage = s.storage;
        pbs = host;
        datastore = s.datastore;
        namespace = s.namespace;
      }

  unfoldable pub restore_host_pbs_entries : List Connection → List PbsStorage → List HostEntry
  restore_host_pbs_entries conns storages = map (entry_of conns) storages

  -- a PVE event on a PBS storage: what it points to, and the location that it is given
  unfoldable pub assign_pbs_server : List Connection → PbsStorage → String
  unfolding match_pbs_connection
  assign_pbs_server conns target =
      location_of (match_pbs_connection target.server conns) (lower (strip target.server))
        target.datastore target.namespace
