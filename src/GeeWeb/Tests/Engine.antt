-- ===== src/GeeWeb/Tests/Engine.antt =====
-- The theorem about `ServeHTTP` at a concrete engine.
use days_project.Common.{
  ℕ, suc, ◌≡◌, ◌≤◌, refl, [], ◌∷◌, ◌++◌, Option, some, none, Text, codes, has_prefix, lookup,
  ℕ_discrete, insert, text_dec, split,
}
use days_project.GeeWeb.Router
use days_project.GeeWeb.Trie
use days_project.GeeWeb.Engine.{Engine, new, group, add_route, use_middlewares, middlewares_for}
use days_project.GeeWeb.Engine.Serving.{serve_http, handle}
use days_project.GeeWeb.Engine.Serving.Answered.{
  Built, built_new, built_group, built_route, built_use, IsLast, chain_length, answered,
}
use days_project.GeeWeb.Response.{Exchange, string}
use days_project.GeeWeb.Context.{
  HandlerFunc, returned, act, call_next, Ending, finished, Context, new_context, next, run_from,
  run, advance,
}
use days_project.GeeWeb.Context.Order.{below}

-- A handler that answers, and a middleware that counts the requests.
abbrev hello : HandlerFunc (Exchange × ℕ)
hello = act (λ s. (string 200 (codes "hello") s.0, s.1)) returned

abbrev counter : HandlerFunc (Exchange × ℕ)
counter = call_next (act (λ s. (s.0, suc s.1)) returned)

abbrev versioned : Engine (HandlerFunc (Exchange × ℕ))
versioned = record {
  router = Router.new_router;
  groups =
      record { prefix = []; middlewares = []; parent = none }
      ∷ record { prefix = codes "/v1"; middlewares = []; parent = some 0 }
      ∷ [];
}

abbrev routed_engine : Engine (HandlerFunc (Exchange × ℕ))
routed_engine = record versioned {
  router = Router.add_route Router.new_router (codes "GET") (codes "/v1/hello") hello;
}

-- `New`, `Group("/v1")`, `GET("/hello", hello)` on the group and `Use(counter)` on the engine
abbrev counted : Engine (HandlerFunc (Exchange × ℕ))
counted = use_middlewares routed_engine 0 (counter ∷ [])

counted-Built : Built counted
unfolding new group add_route
counted-Built = built_use 0 (counter ∷ []) (
    built_route 1 (record { prefix = codes "/v1"; middlewares = []; parent = some 0 }) (codes "GET")
      (codes "/hello") hello routed_engine (built_group 0 (codes "/v1") versioned built_new refl)
      refl (λ e. cc) refl)

answered_example :
    (last : HandlerFunc (Exchange × ℕ)) × (d : Exchange) × (ending : Ending)
    × (end_context : Context (Exchange × ℕ)) × IsLast counted.router
        (codes "GET")
        (codes "/v1/hello")
        last
    × (serve_http
          (suc (chain_length counted (codes "/v1/hello")))
          counted
          (codes "GET")
          (codes "/v1/hello")
          []
          []
          0
        ≡ next
            (suc (chain_length counted (codes "/v1/hello")))
            (middlewares_for (codes "/v1/hello") counted.groups ++ last ∷ [])
            (new_context (d, 0)))
    × (serve_http
          (suc (chain_length counted (codes "/v1/hello")))
          counted
          (codes "GET")
          (codes "/v1/hello")
          []
          []
          0
        ≡ some (ending, end_context))
    × ((m : ℕ) × (m ≤ chain_length counted (codes "/v1/hello")) × (end_context.started ≡ below m))
    × (ending ≡ finished → end_context.started ≡ below (chain_length counted (codes "/v1/hello")))
answered_example = answered counted (codes "GET") (codes "/v1/hello") [] [] 0 counted-Built

-- What a request's answer is, and what the counter then is.
abbrev answer_of : Option (Ending × Context (Exchange × ℕ)) → Option (Option ℕ × Text × ℕ)
answer_of none = none
answer_of (some (ending, c)) = some (c.state.0.writer.status, c.state.0.writer.body, c.state.1)

served :
    answer_of (serve_http 3 counted (codes "GET") (codes "/v1/hello") [] [] 0)
    ≡ some (some 200, codes "hello", 1)
unfolding serve_http next run_from run advance new_context use_middlewares middlewares_for
    has_prefix lookup ℕ_discrete handle Router.get_route Router.add_route insert text_dec
    Trie.search Router.parse_pattern split Trie.is_star Trie.insert Router.new_router
    Trie.first_result Trie.match_children Trie.children_of Trie.insert_child Trie.matches Trie.found
served = refl

not_served :
    answer_of (serve_http 3 counted (codes "GET") (codes "/v2") [] [] 0)
    ≡ some (some 404, codes "404 Not Found:/v2\n", 1)
unfolding serve_http next run_from run advance new_context use_middlewares middlewares_for
    has_prefix lookup ℕ_discrete handle Router.get_route Router.add_route insert text_dec
    Trie.search Router.parse_pattern split Trie.is_star Trie.insert Router.new_router
    Trie.first_result Trie.match_children Trie.children_of Trie.insert_child Trie.matches
    Trie.is_wild_part
not_served = refl
