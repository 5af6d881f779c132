-- ===== src/GeeWeb/Engine.antt =====
-- geeweb/gee/gee.go: route groups and the middlewares of a request. The groups stand in a list, the
-- engine's own first, and a group is named by its index. `H` is the type of handlers.
pub mod Chains
pub mod Serving
use days_project.Common.{
  ℕ, suc, zero, List, [], ◌∷◌, ◌++◌, Option, none, some, Bool, Text, has_prefix, get_elem?, lookup,
  text_dec, if◌then◌else◌,
}
use days_project.GeeWeb.Router
use days_project.GeeWeb.Router.{Routed, handler_key, missing, routed, out_of_range}
use days_project.GeeWeb.Trie.{pattern_of}

-- `RouterGroup`, with its parent's index
pub record RouterGroup (H : Type 0) : Type 0 where
  pub prefix : Text
  pub middlewares : List H
  pub parent : Option ℕ

pub record Engine (H : Type 0) : Type 0 where
  pub router : Router.Router H
  pub groups : List (RouterGroup H)

module _ {H : Type 0} where
  -- `New`
  unfoldable pub new : Engine H
  new = record {
    router = Router.new_router;
    groups = record { prefix = []; middlewares = []; parent = none } ∷ [];
  }

  -- `Group` on the group with the index `g`; `none` where there is no such group.
  unfoldable pub group : Engine H → ℕ → Text → Option (Engine H)
  group e g prefix = elim (get_elem? e.groups g) [
    | none ↦ none
    | some parent ↦ some (record e {
      groups =
          e.groups
          ++ record { prefix = parent.prefix ++ prefix; middlewares = []; parent = some g } ∷ [];
    })
  ]

  -- The method `addRoute` of a group, which `GET` and `POST` call.
  unfoldable pub add_route : Engine H → ℕ → Text → Text → H → Option (Engine H)
  add_route e g method comp handler = elim (get_elem? e.groups g) [
    | none ↦ none
    | some own ↦
        some (record e { router = Router.add_route e.router method (own.prefix ++ comp) handler })
  ]

  -- `append` to the middlewares of one of the groups
  unfoldable pub use_at : ℕ → List H → List (RouterGroup H) → List (RouterGroup H)
  use_at g new_ones [] = []
  use_at zero new_ones (own ∷ rest) =
      record own { middlewares = own.middlewares ++ new_ones } ∷ rest
  use_at (suc g) new_ones (own ∷ rest) = own ∷ use_at g new_ones rest

  -- `Use` on the group with the index `g`
  unfoldable pub use_middlewares : Engine H → ℕ → List H → Engine H
  unfolding use_at
  use_middlewares e g new_ones = record e { groups = use_at g new_ones e.groups }

  -- The loop of `ServeHTTP`: the middlewares of every group whose prefix the path has.
  unfoldable pub middlewares_for : Text → List (RouterGroup H) → List H
  middlewares_for path [] = []
  middlewares_for path (own ∷ rest) =
      let later = middlewares_for path rest in
      if has_prefix path own.prefix then own.middlewares ++ later else later
