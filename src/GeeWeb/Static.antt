-- ===== src/GeeWeb/Static.antt =====
-- geeweb/gee/gee.go: `GET`, `POST`, and `Static` with its handler. The file system is `opens`, whether
-- `fs.Open` of a name succeeds.
pub mod Routes
pub mod Files
use days_project.Common.{ℕ, Option, none, some, Bool, Text, codes, get_elem?}
use days_project.GeeWeb.Context.{HandlerFunc, returned, act, test}
use days_project.GeeWeb.Engine.{Engine, add_route}
use days_project.GeeWeb.Response.{Exchange, param, status}

module _ {H : Type 0} where
  -- `GET`
  unfoldable pub get : Engine H → ℕ → Text → H → Option (Engine H)
  unfolding add_route
  get e g pattern handler = add_route e g (codes "GET") pattern handler

  -- `POST`
  unfoldable pub post : Engine H → ℕ → Text → H → Option (Engine H)
  unfolding add_route
  post e g pattern handler = add_route e g (codes "POST") pattern handler

-- `urlPattern`; `path_join` is `path.Join`.
unfoldable pub url_pattern : (Text → Text → Text) → Text → Text
url_pattern path_join relative_path = path_join relative_path (codes "/*filepath")

-- `path_join` is `path.Join`, `strip_prefix` is `http.StripPrefix`, and `file_server` is Go's
-- `http.FileServer` over the file system.
module _ {G : Type 0} (path_join : Text → Text → Text)
    (strip_prefix : Text → (Exchange → Exchange) → Exchange → Exchange) (opens : Text → Bool)
    (file_server : Exchange → Exchange) where
  -- `createStaticHandler` of a group with this prefix
  unfoldable pub static_handler : Text → Text → HandlerFunc (Exchange × G)
  unfolding param status
  static_handler prefix relative_path =
      let serve_file = strip_prefix (path_join prefix relative_path) file_server in
      test (λ s. opens (param (codes "filepath") s.0)) (act (λ s. (serve_file s.0, s.1)) returned)
        (act (λ s. (status 404 s.0, s.1)) returned)

  -- `Static` on the group with the index `g`; `none` where there is no such group.
  unfoldable pub static :
      Engine (HandlerFunc (Exchange × G)) → ℕ → Text → Option (Engine (HandlerFunc (Exchange × G)))
  unfolding get url_pattern static_handler
  static e g relative_path = elim (get_elem? e.groups g) [
    | none ↦ none
    | some own ↦
        get e g (url_pattern path_join relative_path) (static_handler own.prefix relative_path)
  ]
