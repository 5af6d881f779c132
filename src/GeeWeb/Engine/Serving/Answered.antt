-- ===== src/GeeWeb/Engine/Serving/Answered.antt =====
-- Every request to an engine is answered by a chain of handlers that are there.
use days_project.Common.{
  ℕ, suc, ◌≡◌, refl, ap, subst, ◌∙◌, ◌≢◌, ◌⊎◌, inl, inr, List, [], ◌∷◌, ◌++◌, Option, some, none,
  Text, GoMap, lookup, text_dec, length, length-append, ◌≤◌, get_elem?, arith, Option-cases,
}
use days_project.GeeWeb.Trie.{Node, pattern_of}
use days_project.GeeWeb.Router
use days_project.GeeWeb.Router.{handler_key, missing, routed}
use days_project.GeeWeb.Router.Lookups.{IsValid, add_route-IsValid, get_route_total}
use days_project.GeeWeb.Router.Handled.{Handled, add_route-Handled, get_route-HasHandler}
use days_project.GeeWeb.Engine.{
  Engine, RouterGroup, new, group, add_route, use_middlewares, middlewares_for,
}
use days_project.GeeWeb.Response.{Exchange, new_exchange}
use days_project.GeeWeb.Context.{HandlerFunc, Ending, finished, Context, new_context, next}
use days_project.GeeWeb.Context.Order.{below, next-new_context}
use days_project.GeeWeb.Engine.Serving.{not_found, handler_of, handle, serve_http}

-- The engines that `New`, `Group`, `GET` or `POST` with a pattern that is not empty, and `Use` make.
pub data Built {H : Type 0} : Engine H → Type 0 where
  built_new : Built new
  built_group :
      {e : Engine H} (g : ℕ) (prefix : Text) (f : Engine H)
      → Built e
      → group e g prefix ≡ some f
      → Built f
  built_route :
      {e : Engine H} (g : ℕ) (own : RouterGroup H) (method comp : Text) (handler : H) (f : Engine H)
      → Built e
      → get_elem? e.groups g ≡ some own
      → own.prefix ++ comp ≢ []
      → add_route e g method comp handler ≡ some f
      → Built f
  built_use :
      {e : Engine H} (g : ℕ) (new_ones : List H) → Built e → Built (use_middlewares e g new_ones)

module _ {H : Type 0} where
  -- A group leaves the routes as they are.
  group-router :
      (e f : Engine H) (g : ℕ) (prefix : Text) → group e g prefix ≡ some f → e.router ≡ f.router
  unfolding group
  group-router e f g prefix made = elim (Option-cases (get_elem? e.groups g)) [
    | inl out ↦ absurd (cc (rw (out, group) at made))
    | inr (parent, there) ↦
        ap (λ (t : Option (Engine H)). elim t [ none ↦ e.router | some d ↦ d.router ])
          (rw (there, group) at made)
  ]

  add_route-router :
      (e f : Engine H) (g : ℕ) (own : RouterGroup H) (method comp : Text) (handler : H)
      → get_elem? e.groups g ≡ some own
      → add_route e g method comp handler ≡ some f
      → Router.add_route e.router method (own.prefix ++ comp) handler ≡ f.router
  unfolding add_route
  add_route-router e f g own method comp handler there made =
      ap (λ (t : Option (Engine H)). elim t [ none ↦ e.router | some d ↦ d.router ])
        (rw (there, add_route) at made)

  -- What the router of an engine promises.
  abbrev Sound : Router.Router H → Type 0
  Sound r = IsValid r × Handled r

  Sound-of_Built : {e : Engine H} → Built e → Sound e.router
  unfolding new Router.new_router lookup use_middlewares
  Sound-of_Built built_new = (λ method root e. absurd (cc), λ method root e. absurd (cc))
  Sound-of_Built (built_group {e} g prefix f b made) =
      subst Sound (group-router e f g prefix made) (Sound-of_Built b)
  Sound-of_Built (built_route {e} g own method comp handler f b there full made) =
      let (valid, handled) = Sound-of_Built b in
      subst Sound (add_route-router e f g own method comp handler there made) (
        add_route-IsValid e.router method (own.prefix ++ comp) handler full valid,
        add_route-Handled e.router method (own.prefix ++ comp) handler handled,
      )
  Sound-of_Built (built_use g new_ones b) = Sound-of_Built b

module _ {G : Type 0} where
  -- The last handler of a chain: the one for a request without a route, or the one that was
  -- registered with the pattern that the route's lookup gives.
  abbrev pub IsLast :
      Router.Router (HandlerFunc (Exchange × G))
      → (method path : Text) → HandlerFunc (Exchange × G)
      → Type 0
  IsLast r method path last =
      ((Router.get_route r method path ≡ missing) × (last ≡ not_found))
      ⊎ ((n : Node) × (params : GoMap Text Text) × (Router.get_route r method path
            ≡ routed n params)
          × (lookup text_dec (handler_key method (pattern_of n)) r.handlers ≡ some last))

  handle-IsLast :
      (fuel : ℕ) (r : Router.Router (HandlerFunc (Exchange × G)))
      (middlewares : List (HandlerFunc (Exchange × G))) (c : Exchange) (g : G)
      → Sound r
      → (last : HandlerFunc (Exchange × G)) × (d : Exchange) × IsLast r c.method c.path last
        × (handle fuel r middlewares (c, g)
            ≡ next fuel (middlewares ++ last ∷ []) (new_context (d, g)))
  unfolding handle handler_of
  handle-IsLast fuel r middlewares c g (valid, handled) =
      elim (get_route_total r c.method c.path valid) [
        | inl missed ↦ (not_found, c, inl (missed, refl), rw (missed, handle) refl)
        | inr (n, params, hit) ↦
            let (last, there) = get_route-HasHandler r c.method c.path n params handled hit in
            (
              last,
              record c { params = params },
              inr (n, params, hit, there),
              rw (hit, handle) (rw (there, handler_of) refl),
            )
      ]

  -- How many handlers run for a path: the middlewares and the last.
  abbrev pub chain_length : Engine (HandlerFunc (Exchange × G)) → Text → ℕ
  chain_length e path = suc (length (middlewares_for path e.groups))

  -- Every request to an engine that `New`, `Group`, `GET` and `POST` with patterns that are not empty,
  -- and `Use` made is answered without a panic of the lookup and without a call of a nil handler: a
  -- chain runs that is the middlewares of the groups whose prefix the path has, and a last handler,
  -- which is the one for 404 where there is no route, and else the one that was registered with the
  -- route's pattern. With two units of fuel more than there are middlewares, `ServeHTTP` returns or
  -- leaves a panic of a handler; the handlers that ran are the first ones of the chain, each once and
  -- in order, and all of them unless a panic leaves it.
  pub answered :
      (e : Engine (HandlerFunc (Exchange × G))) (method path : Text) (form query : GoMap Text Text)
      (g : G)
      → Built e
      → (last : HandlerFunc (Exchange × G)) × (d : Exchange) × (ending : Ending)
        × (end_context : Context (Exchange × G)) × IsLast e.router method path last
        × (serve_http (suc (chain_length e path)) e method path form query g
            ≡ next
                (suc (chain_length e path))
                (middlewares_for path e.groups ++ last ∷ [])
                (new_context (d, g)))
        × (serve_http (suc (chain_length e path)) e method path form query g
            ≡ some (ending, end_context))
        × ((m : ℕ) × (m ≤ chain_length e path) × (end_context.started ≡ below m))
        × (ending ≡ finished → end_context.started ≡ below (chain_length e path))
  unfolding serve_http new_exchange
  answered e method path form query g b =
      let fuel = suc (chain_length e path) in
      let (last, d, is_last, same) =
        handle-IsLast fuel e.router (middlewares_for path e.groups)
          (new_exchange method path form query) g (Sound-of_Built b) in
      let hs = middlewares_for path e.groups ++ last ∷ [] in
      let len : length hs ≡ chain_length e path =
        omega (arith, length-append (middlewares_for path e.groups) (last ∷ [])) in
      let (ending, c, ran, prefix, all) = rw len at (next-new_context hs (d, g)) in
      (last, d, ending, c, is_last, same, same ∙ ran, prefix, all)
