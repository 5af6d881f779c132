-- ===== src/GeeWeb/Engine/Serving.antt =====
-- geeweb/gee/gee.go and router.go: `ServeHTTP` and `handle`, which run a request on an engine. The
-- handlers of a context share the request and the response of Response.antt and a state `G` of the
-- program's own.
pub mod Answered
use days_project.Common.{
  ℕ, List, [], ◌∷◌, ◌++◌, Option, none, some, Text, codes, lookup, text_dec, GoMap,
}
use days_project.GeeWeb.Trie.{pattern_of}
use days_project.GeeWeb.Router
use days_project.GeeWeb.Router.{handler_key, missing, routed, out_of_range}
use days_project.GeeWeb.Engine.{Engine, middlewares_for}
use days_project.GeeWeb.Response.{Exchange, new_exchange, string}
use days_project.GeeWeb.Context.{
  HandlerFunc, returned, panics, act, Ending, panicking, Context, new_context, next,
}

module _ {G : Type 0} where
  -- The handler of a request without a route.
  unfoldable pub not_found : HandlerFunc (Exchange × G)
  unfolding string
  not_found =
      act (λ s. (string 404 (codes "404 Not Found:" ++ s.0.path ++ codes "\n") s.0, s.1)) returned

  -- `r.handlers[key]`: a call of a missing handler, which is nil, panics.
  unfoldable pub handler_of :
      Router.Router (HandlerFunc (Exchange × G)) → Text → HandlerFunc (Exchange × G)
  handler_of r key = elim (lookup text_dec key r.handlers) [ none ↦ panics | some h ↦ h ]

  -- `handle`, for a context with the handlers `middlewares` that no `Next` has run yet
  unfoldable pub handle :
      ℕ
      → Router.Router (HandlerFunc (Exchange × G))
      → List (HandlerFunc (Exchange × G))
      → Exchange × G
      → Option (Ending × Context (Exchange × G))
  unfolding not_found handler_of
  handle fuel r middlewares (c, g) = elim (Router.get_route r c.method c.path) [
    | out_of_range ↦ some (panicking, new_context (c, g))
    | missing ↦ next fuel (middlewares ++ not_found ∷ []) (new_context (c, g))
    | routed n params ↦
        next fuel (middlewares ++ handler_of r (handler_key c.method (pattern_of n)) ∷ [])
          (new_context (record c { params = params }, g))
  ]

  -- `ServeHTTP` for a request's method, path, form and query
  unfoldable pub serve_http :
      ℕ
      → Engine (HandlerFunc (Exchange × G))
      → (method path : Text) (form query : GoMap Text Text) → G
      → Option (Ending × Context (Exchange × G))
  unfolding handle middlewares_for new_exchange
  serve_http fuel e method path form query g =
      handle fuel e.router (middlewares_for path e.groups) (new_exchange method path form query, g)
