-- ===== src/GeeWeb/Router.antt =====
-- geeweb/gee/router.go: routes by method, and the parameters of a matched path. `H` is the type of
-- handlers.
pub mod Depth
pub mod Handled
pub mod Lookups
use days_project.Common.{
  ℕ, suc, List, [], ◌∷◌, ◌++◌, Option, none, some, Bool, true, false, Text, text_dec, ite, split,
  join, GoMap, lookup, insert, ltb, leb, length, get_elem?, drop, if◌then◌else◌, ◌&&◌, ◌==◌,
}
use mathlib.Core.Option.{get_or}
use days_project.GeeWeb.Trie
use days_project.GeeWeb.Trie.{Node, node, nil, pattern_of}

-- `s[0] == c`, of a string that is not empty
unfoldable pub first_is : ℕ → Text → Bool
first_is c [] = false
first_is c (x ∷ s) = x == c

-- The loop of `parsePattern`, with its `break`.
unfoldable pub parts_of : List Text → List Text
unfolding first_is
parts_of [] = []
parts_of (item ∷ vs) =
    let more = parts_of vs in
    ite (text_dec item []) more (item ∷ (if first_is b'*' item then [] else more))

unfoldable pub parse_pattern : Text → List Text
unfolding parts_of
parse_pattern pattern = parts_of (split pattern b'/')

-- `router`
pub record Router (H : Type 0) : Type 0 where
  pub roots : GoMap Text Node
  pub handlers : GoMap Text H

-- `method + "-" + pattern`
abbrev pub handler_key : Text → Text → Text
handler_key method pattern = method ++ b'-' ∷ pattern

-- What `getRoute` gives: `nil, nil`; a node with the parameters; or the panic of an index or a
-- slice out of range.
pub data Routed : Type 0 where
  missing : Routed
  routed : Node → GoMap Text Text → Routed
  out_of_range : Routed

-- The loop over the parts of the pattern, from `index` on.
unfoldable pub bind_params : ℕ → List Text → List Text → GoMap Text Text → Option (GoMap Text Text)
unfolding first_is
bind_params index [] search_parts params = some params
bind_params index (part ∷ parts) search_parts params =
    let name = drop 1 part in
    let named = λ (value : Text).
      bind_params (suc index) parts search_parts (insert text_dec name value params) in
    let plain = bind_params (suc index) parts search_parts params in
    let star : Option (GoMap Text Text) =
      if leb index (length search_parts)
      then some (insert text_dec name (join (drop index search_parts) (b'/' ∷ [])) params)
      else none in
    if first_is b':' part
    then elim (get_elem? search_parts index) [ none ↦ none | some value ↦ named value ]
    else if first_is b'*' part && ltb 1 (length part)
    then star
    else plain

-- The end of `getRoute`, at the node that the search gave.
unfoldable pub route_to : List Text → Node → Routed
unfolding bind_params
route_to search_parts n = elim (bind_params 0 (parse_pattern (pattern_of n)) search_parts []) [
  | none ↦ Routed.out_of_range
  | some params ↦ Routed.routed n params
]

module _ {H : Type 0} where
  unfoldable pub new_router : Router H
  new_router = record { roots = []; handlers = [] }

  -- The tree of a method: `&node{}` where there is none yet.
  unfoldable pub root_of : Router H → Text → Node
  root_of r method = get_or (lookup text_dec method r.roots) (node [] [] false nil)

  -- `addRoute`
  unfoldable pub add_route : Router H → Text → Text → H → Router H
  unfolding root_of
  add_route r method pattern handler = record {
    roots =
        insert text_dec method (Trie.insert pattern (parse_pattern pattern) (root_of r method))
          r.roots;
    handlers = insert text_dec (handler_key method pattern) handler r.handlers;
  }

  -- `getRoute`
  unfoldable pub get_route : Router H → Text → Text → Routed
  unfolding route_to
  get_route r method path = elim (lookup text_dec method r.roots) [
    | none ↦ Routed.missing
    | some root ↦ elim (Trie.search (parse_pattern path) root) [
      | none ↦ Routed.missing
      | some n ↦ route_to (parse_pattern path) n
    ]
  ]
