-- ===== src/GeeWeb/Tests/Static.antt =====
-- An engine that serves the files below /assets.
use days_project.Common.{
  ◌++◌, suc, none, List, ℕ, [], ◌∷◌, Bool, Text, codes, text_dec, ite, true, false,
}
use days_project.GeeWeb.Router
use days_project.GeeWeb.Trie
use days_project.GeeWeb.Engine.{Engine, add_route}
use days_project.GeeWeb.Response.{Exchange, string}
use days_project.GeeWeb.Context.{HandlerFunc, Context, act, call_next, returned}
use days_project.GeeWeb.Static.{static_handler}

abbrev opens : Text → Bool
opens name = ite (text_dec name (codes "css/gee.css")) true false

abbrev file_server : Exchange → Exchange
file_server c = string 200 (codes "body {}") c

-- `path.Join` of clean paths, and `http.StripPrefix` for a server that does not read the path
abbrev path_join : Text → Text → Text
path_join a b = a ++ b

abbrev strip_prefix : Text → (Exchange → Exchange) → Exchange → Exchange
strip_prefix prefix server c = server c

-- A middleware that counts the requests
abbrev counting : List (HandlerFunc (Exchange × ℕ))
counting = act (λ s. (s.0, suc s.1)) (call_next returned) ∷ []

abbrev assets : Engine (HandlerFunc (Exchange × ℕ))
assets = record {
  router =
      Router.add_route Router.new_router (codes "GET") (codes "/assets/*filepath")
        (static_handler path_join strip_prefix opens file_server [] (codes "/assets"));
  groups = record { prefix = []; middlewares = counting; parent = none } ∷ [];
}
