-- ===== src/GeeRpc/Discovery/RoundRobin.antt =====
-- Every mode stays in range, and the round robin visits the servers in turn.
use days_project.Common.{
  ℕ, zero, suc, ◌+◌, ◌%◌, ◌<◌, ◌≡◌, refl, sym, ap, ◌∙◌, ◌≢◌, List, Option, none, some, Text, Result,
  ok, err, length, get_elem?, get_elem?-some, arith, ℕ_discrete,
}
use native.Mathlib.Nat.{add-zero, mod-add-mod}
use days_project.GeeRpc.Discovery.{
  SelectMode, random_select, round_robin_select, other_mode, MultiServersDiscovery, no_servers,
  unsupported, pick, get,
}

pick_total :
    (d : MultiServersDiscovery) (servers : List Text) (i : ℕ)
    → i < length servers
    → (s : Text) × (get_elem? servers i ≡ some s) × (pick d servers i ≡ some (d, ok s))
unfolding pick
pick_total d servers i lt = let (s, e) = get_elem?-some servers i lt in (s, e, ground (arith, e))

-- The state after `k` round-robin calls, which all succeed, and the server that the next one gives.
unfoldable pub turns : ℕ → MultiServersDiscovery → Option MultiServersDiscovery
turns zero d = some d
turns (suc k) d = elim (get round_robin_select d) [ none ↦ none | some (d', s) ↦ turns k d' ]

get_round_robin :
    (d : MultiServersDiscovery)
    → length d.servers ≢ 0
    → (s : Text) × (get_elem? d.servers (d.index % length d.servers) ≡ some s)
      × (get round_robin_select d
          ≡ some (record d { index = (d.index + 1) % length d.servers }, ok s))
unfolding get
get_round_robin d full =
    let (s, e, ran) =
      pick_total (record d { index = (d.index + 1) % length d.servers }) d.servers
        (d.index % length d.servers) (grind arith) in
    (s, e, ground (arith, ran, full))

turn_index : (i k n : ℕ) → (i + suc k) % n ≡ ((i + 1) % n + k) % n
turn_index i k n =
    let regrouped : i + suc k ≡ i + 1 + k = omega arith in
    ap (λ t. t % n) regrouped ∙ sym (mod-add-mod (i + 1) n k)

-- With at least one server, the call after `k` round-robin calls gives the server at the index
-- `(index + k) % n`: the calls visit all servers in turn, from where the index stands.
pub get-turns :
    (k : ℕ) (d : MultiServersDiscovery)
    → length d.servers ≢ 0
    → (d' : MultiServersDiscovery) × (e : MultiServersDiscovery) × (s : Text) × (turns k d
        ≡ some d')
      × (get round_robin_select d' ≡ some (e, ok s))
      × (get_elem? d.servers ((d.index + k) % length d.servers) ≡ some s)
unfolding turns
get-turns zero d full =
    let (s, e, ran) = get_round_robin d full in (d, _, s, refl, ran, rw add-zero e)
get-turns (suc k) d full =
    let n = length d.servers in
    let (s, e, ran) = get_round_robin d full in
    let (d', e', s', went, next, found) =
      get-turns k (record d { index = (d.index + 1) % n }) full in
    (
      d',
      e',
      s',
      rw (ran, turns) went,
      next,
      ap (get_elem? d.servers) (turn_index d.index k n) ∙ found,
    )

get_of_mode :
    (mode : SelectMode) (d : MultiServersDiscovery)
    → length d.servers ≢ 0
    → (d' : MultiServersDiscovery) × (r : Result Text) × (get mode d ≡ some (d', r))
      × (d'.servers ≡ d.servers)
unfolding get
get_of_mode random_select d full =
    let (s, e, ran) =
      pick_total (record d { drawn = suc d.drawn }) d.servers (d.draws d.drawn % length d.servers)
        (grind arith) in
    (record d { drawn = suc d.drawn }, ok s, ground (arith, ran, full), refl)
get_of_mode round_robin_select d full =
    let (s, e, ran) = get_round_robin d full in
    (record d { index = (d.index + 1) % length d.servers }, ok s, ran, refl)
get_of_mode (other_mode m) d full = (d, err unsupported, ground (arith, full), refl)

-- `Get` never indexes out of range, in any mode.
pub get_total :
    (mode : SelectMode) (d : MultiServersDiscovery)
    → (d' : MultiServersDiscovery) × (r : Result Text) × (get mode d ≡ some (d', r))
      × (d'.servers ≡ d.servers)
unfolding get
get_total mode d = elim (ℕ_discrete (length d.servers) 0) [
  | yes e ↦ (d, err no_servers, ground (arith, e), refl)
  | no full ↦ get_of_mode mode d full
]
