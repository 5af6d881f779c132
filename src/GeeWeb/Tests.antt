-- ===== src/GeeWeb/Tests.antt =====
-- The theorems about geeweb at concrete inputs.
mod Engine
mod Static
use days_project.Common.{
  arith, ◌≤◌, ◌<◌, All, ℕ, suc, ◌+◌, ◌≡◌, refl, ◌⊎◌, List, [], ◌∷◌, some, true, false, Text, err,
  codes, GoMap, has_prefix, lookup, ℕ_discrete,
}
use days_project.GeeWeb.Trie
use days_project.GeeWeb.Trie.{Node, node, nil, pattern_of, is_wild_part}
use days_project.GeeWeb.Trie.Insertion.{StarsEnd, search-insert, static_replaces_wild}
use days_project.GeeWeb.Router
use days_project.GeeWeb.Router.{Routed}
use days_project.GeeWeb.Router.Lookups.{
  IsValid, add_route-IsValid, get_route_total, get_route-add_route,
}
use days_project.GeeWeb.Response.{new_exchange}
use days_project.GeeWeb.Response.Statuses.{
  Request, status_of, json_of, code_of, perform_all, first_code, last_code, statuses,
}
use days_project.GeeWeb.Context.{
  panics, recovery, recover_with, trace, Ending, finished, panicking, advance, run, run_from,
  HandlerFunc, act, call_next, returned, Context, next, new_context,
}
use days_project.GeeWeb.Context.Order.{below, called, recovery_repanics, next-new_context}

abbrev root : Node
root = node [] [] false nil

abbrev empty : Router.Router ℕ
empty = record { roots = []; handlers = [] }

empty-IsValid : IsValid empty
unfolding lookup
empty-IsValid method n e = absurd (cc)

static_replaces_wild_example :
    (r : Node) × (Trie.search (codes "tom" ∷ []) (
        Trie.insert
          (codes "/admin")
          (codes "admin" ∷ [])
          (Trie.insert (codes "/:name") (codes ":name" ∷ []) root))
      ≡ some r)
    × (pattern_of r ≡ codes "/admin")
unfolding is_wild_part
static_replaces_wild_example =
    static_replaces_wild (codes "/:name") (codes "/admin") (codes ":name") (codes "admin")
      (codes "tom") refl (λ e. cc)

-- A router that sends every path to one handler.
abbrev files : Router.Router ℕ
files = Router.add_route empty (codes "GET") (codes "/*f") 0

get_route-add_route_example :
    (n : Node) × (params : GoMap Text Text) × (Router.get_route
        (Router.add_route files (codes "GET") (codes "/a/b") 1)
        (codes "GET")
        (codes "/a/b")
      ≡ Routed.routed n params)
    × ((pattern_of n ≡ codes "/a/b")
        ⊎ ((Trie.is_star n ≡ true)
            × ((o : Node) × (Router.get_route files (codes "GET") (codes "/a/b")
                  ≡ Routed.routed o params)
                × (pattern_of o ≡ pattern_of n))))
get_route-add_route_example =
    get_route-add_route files (codes "GET") (codes "/a/b") 1 (λ e. cc)
      (add_route-IsValid empty (codes "GET") (codes "/*f") 0 (λ e. cc) empty-IsValid)

-- A handler that doubles the state after the rest of the chain, and one that adds to it.
abbrev chain : List (HandlerFunc ℕ)
chain = call_next (act (λ n. n + n) returned) ∷ act (λ n. suc n) returned ∷ []

next-new_context_example :
    (ending : Ending) × (d : Context ℕ) × (next 3 chain (new_context 1) ≡ some (ending, d))
    × ((m : ℕ) × (m ≤ 2) × (d.started ≡ below m))
    × (ending ≡ finished → d.started ≡ below 2)
next-new_context_example = next-new_context chain 1

-- The first handler runs around the second.
chain_state :
    next 3 chain (new_context 1)
    ≡ some (finished, record { next_index = 4; started = 1 ∷ 0 ∷ []; state = 4 })
unfolding next run_from new_context run advance
chain_state = refl

-- A handler behind one that panicked runs, if the panic was recovered from.
recovered_chain :
    next 4 (recovery 0 ∷ panics ∷ act (λ n. suc n) returned ∷ []) (new_context 1)
    ≡ some (finished, record { next_index = 4; started = 2 ∷ 1 ∷ 0 ∷ []; state = 2 })
unfolding next run_from new_context run advance recovery recover_with trace
recovered_chain = refl

recovery_repanics_example :
    next {S = ℕ} 3 (recovery 4198400 ∷ panics ∷ []) (new_context 1)
    ≡ some (panicking, record { next_index = 2; started = 1 ∷ 0 ∷ []; state = 1 })
unfolding next run_from new_context run advance called
recovery_repanics_example = recovery_repanics 4198400 2 (panics ∷ []) 1 _ (omega arith) refl

-- A value that cannot be encoded, and the code that a later handler gives.
abbrev calls : List Request
calls = json_of 200 (err (codes "json: unsupported type")) ∷ status_of 500 ∷ []

calls_final : All (λ r. (code : ℕ) → code_of r ≡ some code → (200 ≤ code) × (code < 1000)) calls
calls_final = (λ code e. ground (arith, e), (λ code e. ground (arith, e), tt))

statuses_example :
    ((perform_all calls (new_exchange (codes "GET") (codes "/") [] [])).writer.status
      ≡ first_code calls)
    × ((perform_all calls (new_exchange (codes "GET") (codes "/") [] [])).status_code
        ≡ last_code 0 calls)
statuses_example = statuses calls (codes "GET") (codes "/") [] [] calls_final

-- The status is 200 although the encoder failed, and `StatusCode` is 500.
sent_codes : (first_code calls ≡ some 200) × (last_code 0 calls ≡ 500)
sent_codes = (refl, refl)
