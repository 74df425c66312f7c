-- ===== src/Restore/Tests/Addresses.antt =====
-- Addresses, names and locations at small inputs.
use backup_sentinel.Prelude.{
  if◌then◌else◌, ◌==◌, ==_false→≢, ℕ, String, ◌≡◌, refl, Bool, ◌||◌, none, some, List, [], ◌∷◌,
  arith, nat_eq, string_eq,
}
use backup_sentinel.Restore.Locations.{
  Connection, match_pbs_connection, assign_pbs_server, connection_name, connection_location,
  names_of, connection_names,
}
use backup_sentinel.Restore.Addresses.{
  parse_cidr, sandbox_host_ip, netmask_from_prefix, prefix_from_netmask,
}
use backup_sentinel.Restore.Names.{sandbox_name}
use backup_sentinel.Restore.Locations.Identity.{IsMatch, match_pbs_connection-IsMatch}
use backup_sentinel.Restore.Addresses.Subnet.{
  IsOtherHost, sandbox_host_ip-IsOtherHost, prefix_from_netmask-netmask_from_prefix,
}

reads : parse_cidr " 10.0.0.7/24 " 24 ≡ some (167772167, 24)
unfolding parse_cidr
reads = refl

-- Without a prefix, and with none that can be read.
reads_bare : parse_cidr "10.0.0.7" 16 ≡ some (167772167, 16)
unfolding parse_cidr
reads_bare = refl

rejects : parse_cidr "10.0.0.07/24" 24 ≡ none
unfolding parse_cidr
rejects = refl

-- The guest has the first host of its subnet.
next_host : sandbox_host_ip 167772161 30 ≡ some 167772162
unfolding sandbox_host_ip
next_host = refl

-- Of a subnet of one address the helper gets the next address, outside of it.
single : sandbox_host_ip 167772161 32 ≡ some 167772162
unfolding sandbox_host_ip
single = refl

sandbox_host_ip-IsOtherHost_example :
    (host : ℕ) × ((sandbox_host_ip 167772161 30 ≡ some host) × IsOtherHost 167772161 30 host)
sandbox_host_ip-IsOtherHost_example =
    sandbox_host_ip-IsOtherHost 167772161 30 (omega arith) (omega arith)

prefix_from_netmask-netmask_from_prefix_example :
    prefix_from_netmask (some (netmask_from_prefix 20)) ≡ 20
prefix_from_netmask-netmask_from_prefix_example =
    prefix_from_netmask-netmask_from_prefix 20 (omega arith)

names_guest : sandbox_name "Muc Prod" "Web_01 " "" ≡ "muc-prod-web-01"
unfolding sandbox_name
names_guest = refl

names_nothing : sandbox_name "" "---" "" ≡ "restore"
unfolding sandbox_name
names_nothing = refl

abbrev no_ip : String → Bool
no_ip host = host == "10.0.0.9"

abbrev lookup : String → List String
lookup host = if host == "pbs1.example" || host == "10.0.0.9" then "10.0.0.9" ∷ [] else []

abbrev one_connection : List Connection
one_connection = record { name = "Main"; host = "pbs1.example"; aliases = [] } ∷ []

-- The connection goes by its name, also where it is configured by its address.
by_address :
    assign_pbs_server no_ip lookup one_connection
      (record { storage = "pbs"; server = "10.0.0.9"; datastore = "store"; namespace = "" })
    ≡ "pbs:main/store"
unfolding assign_pbs_server names_of connection_names connection_name connection_location
by_address = refl

match_pbs_connection-IsMatch_example :
    IsMatch no_ip lookup "10.0.0.9" one_connection
      (match_pbs_connection no_ip lookup "10.0.0.9" one_connection)
match_pbs_connection-IsMatch_example =
    match_pbs_connection-IsMatch no_ip lookup "10.0.0.9" one_connection
      (==_false→≢ "10.0.0.9" "" refl)
