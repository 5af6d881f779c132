-- ===== src/GeeRpc/Discovery/Refreshing.antt =====
-- A discovery that asks the registry: geerpc/xclient/discovery_gee.go with geerpc/registry/registry.go.
use days_project.Common.{
  ℕ, ◌+◌, ◌≤◌, ◌<◌, ◌≡◌, refl, sym, ap, ◌∙◌, ◌≢◌, List, [], ◌∷◌, none, Text, text_dec, Result, ok,
  All, Lacks, AllLack, join, split, split-join, if_neg, if_pos, arith,
}
use days_project.GeeRpc.Registry
use days_project.GeeRpc.Registry.{GeeRegistry, alive_servers, Answer, servers_header, serve_http}
use days_project.GeeRpc.Discovery.{
  update, GeeRegistryDiscovery, trim_space, trim_left, servers_of, refresh,
}

-- A registered address has no comma, and no white space at its ends; it is not empty.
abbrev pub IsAddress : Text → Type 0
IsAddress a = Lacks b',' a × (trim_space a ≡ a) × (a ≢ [])

all_lack : (ps : List Text) → All IsAddress ps → AllLack b',' ps
all_lack [] h = tt
all_lack (p ∷ ps) h = (h.0.0, all_lack ps h.1)

servers_of_addresses : (ps : List Text) → All IsAddress ps → servers_of ps ≡ ps
unfolding servers_of
servers_of_addresses [] h = refl
servers_of_addresses (p ∷ ps) h =
    if_neg (text_dec (trim_space p) []) (λ e. h.0.2 (sym h.0.1 ∙ e)) _ _
    ∙ ap (λ t. t ∷ servers_of ps) h.0.1
    ∙ ap (◌∷◌ p) (servers_of_addresses ps h.1)

trim_space-nil : trim_space [] ≡ []
unfolding trim_space trim_left
trim_space-nil = refl

servers_of-header :
    (ps : List Text) → All IsAddress ps → servers_of (split (join ps (b',' ∷ [])) b',') ≡ ps
servers_of-header [] h =
    unfold servers_of in
    unfold split in unfold join in if_pos (text_dec (trim_space []) []) trim_space-nil _ _
servers_of-header (p ∷ ps) h =
    ap servers_of (split-join b',' p ps h.0.0 (all_lack ps h.1)) ∙ servers_of_addresses (p ∷ ps) h

-- A discovery whose list is due, and which gets the answer of the registry's `ServeHTTP`, has exactly
-- the servers that the registry holds for alive at that time, in the registry's order, if these are
-- addresses without a comma or white space around; and it does not ask again before its timeout.
pub refresh-serve_http :
    (now asked : ℕ) (r : GeeRegistry) (header : Text) (d : GeeRegistryDiscovery)
    → (serve_http asked Registry.get [] r).1 ≡ servers_header header
    → All IsAddress (alive_servers asked r).1
    → d.last_update + d.timeout ≤ now
    → let (d', failed) = refresh now (ok header) d in
      (failed ≡ none)
      × (d'.multi.servers ≡ (alive_servers asked r).1)
      × ((later : ℕ) (answer : Result Text)
          → later < now + d.timeout
          → refresh later answer d' ≡ (d', none))
unfolding refresh serve_http update
refresh-serve_http now asked r header d answered addresses due =
    let spelled : header ≡ join (alive_servers asked r).1 (b',' ∷ []) = cc (answered) in
    let read : servers_of (split header b',') ≡ (alive_servers asked r).1 =
      ap (λ t. servers_of (split t b',')) spelled
      ∙ servers_of-header (alive_servers asked r).1 addresses in
    (ground (arith, due), ground (arith, due, read), λ later answer soon. ground (arith, due, soon))
