-- ===== src/GeeRpc/Discovery.antt =====
-- geerpc/xclient/discovery.go and discovery_gee.go: which server to call.
pub mod RoundRobin
pub mod Refreshing
use mathlib.Core.List.{reverse}
use days_project.Common.{
  ℕ, suc, ◌+◌, ◌-◌, ◌%◌, ◌&&◌, List, [], ◌∷◌, Option, none, some, Bool, true, false, Text, codes,
  text_dec, ite, Result, ok, err, length, get_elem?, ltb, split, if◌then◌else◌, ◌==◌,
}

pub data SelectMode : Type 0 where
  random_select round_robin_select : SelectMode
  other_mode : ℕ → SelectMode

-- `MultiServersDiscovery`; `draws` are the values that `r.Intn` will give, before the reduction to
-- the range asked for.
pub record MultiServersDiscovery : Type 0 where
  pub draws : ℕ → ℕ
  pub drawn : ℕ
  pub servers : List Text
  pub index : ℕ

abbrev pub max_int32 : ℕ
max_int32 = 2147483647

-- `NewMultiServerDiscovery`: the first draw is the index to begin with.
unfoldable pub new_discovery : (ℕ → ℕ) → List Text → MultiServersDiscovery
new_discovery draws servers = record {
  draws = draws;
  drawn = 1;
  servers = servers;
  index = draws 0 % (max_int32 - 1);
}

-- `Update`
unfoldable pub update : MultiServersDiscovery → List Text → MultiServersDiscovery
update d servers = record d { servers = servers }

abbrev pub no_servers : Text
no_servers = codes "rpc discovery: no available servers"

abbrev pub unsupported : Text
unsupported = codes "rpc discovery: not supported select mode"

-- An index into the servers; out of range it is a panic, `none`.
unfoldable pub pick :
    MultiServersDiscovery → List Text → ℕ → Option (MultiServersDiscovery × Result Text)
pick d servers i = elim (get_elem? servers i) [ none ↦ none | some s ↦ some (d, ok s) ]

-- `Get`
unfoldable pub get :
    SelectMode → MultiServersDiscovery → Option (MultiServersDiscovery × Result Text)
unfolding pick
get mode d =
    let n = length d.servers in
    if n == 0 then some (d, err no_servers) else elim mode [
      | random_select ↦ pick (record d { drawn = suc d.drawn }) d.servers (d.draws d.drawn % n)
      | round_robin_select ↦ pick (record d { index = (d.index + 1) % n }) d.servers (d.index % n)
      | other_mode m ↦ some (d, err unsupported)
    ]

-- `GetAll`: a copy of the list
unfoldable pub get_all : MultiServersDiscovery → Result (List Text)
get_all d = ok d.servers

-- `GeeRegistryDiscovery`, which embeds the discovery; times are counts of one unit.
pub record GeeRegistryDiscovery : Type 0 where
  pub multi : MultiServersDiscovery
  pub timeout : ℕ
  pub last_update : ℕ

abbrev pub default_update_timeout : ℕ
default_update_timeout = 10

-- `NewGeeRegistryDiscovery`
unfoldable pub new_registry_discovery : (ℕ → ℕ) → ℕ → GeeRegistryDiscovery
new_registry_discovery draws timeout = record {
  multi = new_discovery draws [];
  timeout = if timeout == 0 then default_update_timeout else timeout;
  last_update = 0;
}

-- The method `Update` of a `GeeRegistryDiscovery`
unfoldable pub update_at : ℕ → GeeRegistryDiscovery → List Text → GeeRegistryDiscovery
update_at now d servers = record d { multi = update d.multi servers; last_update = now }

unfoldable pub trim_left : Text → Text
trim_left [] = []
trim_left (c ∷ s) =
    let rest = trim_left s in
    if c == b' ' then rest else if ltb 8 c && ltb c 14 then rest else c ∷ s

-- `strings.TrimSpace` of ASCII
unfoldable pub trim_space : Text → Text
trim_space s = reverse (trim_left (reverse (trim_left s)))

-- The loop over the header's fields in `Refresh`.
unfoldable pub servers_of : List Text → List Text
unfolding trim_space
servers_of [] = []
servers_of (server ∷ rest) =
    let more = servers_of rest in
    ite (text_dec (trim_space server) []) more (trim_space server ∷ more)

-- `Refresh` at the time `now`; `fetch` is the registry's answer, the header `X-Geerpc-Servers`.
unfoldable pub refresh : ℕ → Result Text → GeeRegistryDiscovery → GeeRegistryDiscovery × Option Text
unfolding servers_of
refresh now fetch d = if ltb now (d.last_update + d.timeout) then (d, none) else elim fetch [
  | err e ↦ (d, some e)
  | ok header ↦ (
    record d { multi = update d.multi (servers_of (split header b',')); last_update = now },
    none,
  )
]

-- The method `Get` of a `GeeRegistryDiscovery`
unfoldable pub get_fresh :
    ℕ
    → Result Text
    → SelectMode
    → GeeRegistryDiscovery
    → Option (GeeRegistryDiscovery × Result Text)
get_fresh now fetch mode d =
    let (d', failed) = refresh now fetch d in
    elim failed [
      | some e ↦ some (d', err e)
      | none ↦ elim (get mode d'.multi) [
        | none ↦ none
        | some (m, result) ↦ some (record d' { multi = m }, result)
      ]
    ]

-- The method `GetAll` of a `GeeRegistryDiscovery`
unfoldable pub get_all_fresh :
    ℕ → Result Text → GeeRegistryDiscovery → GeeRegistryDiscovery × Result (List Text)
get_all_fresh now fetch d =
    let (d', failed) = refresh now fetch d in
    (d', elim failed [ some e ↦ err e | none ↦ get_all d'.multi ])
