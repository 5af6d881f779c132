-- ===== src/GeeWeb/Static/Routes.antt =====
-- The route below which files are served.
use days_project.Common.{
  ℕ, suc, ◌+◌, ◌≤◌, ◌≡◌, refl, ap, ◌∙◌, ◌≢◌, List, [], ◌∷◌, ◌++◌, some, Bool, true, false, Text,
  codes, All, length, length-append, drop, join, GoMap, lookup, insert, lookup-insert_self,
  text_dec, has_prefix, arith, if_neg, if_pos, ℕ_discrete, drop-append,
}
use mathlib.Core.Path.{ap₂}
use days_project.GeeWeb.Trie
use days_project.GeeWeb.Trie.{
  node, nil, matches, is_wild_part, match_children, new_node, insert_child, found, first_result,
  is_star, children_of,
}
use days_project.GeeWeb.Trie.Insertion.{matches-insert, matches-new_node}
use days_project.GeeWeb.Router
use days_project.GeeWeb.Router.{
  first_is, parse_pattern, routed, bind_params, route_to, get_route, add_route, root_of,
}

abbrev pub star : Text
star = codes "*filepath"

-- The parts are no parameters.
abbrev pub IsPlain : Text → Type 0
IsPlain part = is_wild_part part ≡ false

pub plain-is_star : (p : Text) → IsPlain p → has_prefix p (b'*' ∷ []) ≡ false
unfolding is_wild_part has_prefix
plain-is_star [] h = refl
plain-is_star (c ∷ s) h = ground (arith, h)

pub plain-first_is : (p : Text) → IsPlain p → (first_is b':' p ≡ false) × (first_is b'*' p ≡ false)
unfolding is_wild_part first_is
plain-first_is [] h = (refl, refl)
plain-first_is (c ∷ s) h = (ground (arith, h), ground (arith, h))

pub search-star :
    (pattern : Text) (rest : List Text)
    → pattern ≢ []
    → Trie.search rest (node pattern star true nil) ≡ some (node pattern star true nil)
unfolding Trie.search found is_star has_prefix ℕ_discrete
search-star pattern [] full = if_neg (text_dec pattern []) full _ _
search-star pattern (r ∷ rest) full = if_neg (text_dec pattern []) full _ _

-- In a tree with this route only, a search for the parts and at least one more ends at it.
pub search_static :
    (pattern part : Text) (wild : Bool) (statics rest : List Text)
    → pattern ≢ []
    → has_prefix part (b'*' ∷ []) ≡ false
    → All IsPlain statics
    → rest ≢ []
    → Trie.search
        (statics ++ rest)
        (Trie.insert pattern (statics ++ star ∷ []) (node [] part wild nil))
      ≡ some (node pattern star true nil)
unfolding Trie.search Trie.insert insert_child match_children first_result is_star children_of
    matches found has_prefix is_wild_part
search_static pattern part wild [] [] full low h some_left = absurd (some_left refl)
search_static pattern part wild [] (r ∷ rest) full low h some_left =
    let found_it = search-star pattern rest full in
    elim (text_dec star r) [
      | yes e ↦ rw low (rw (if_pos (text_dec star r) e) (rw (found_it, first_result) refl))
      | no n ↦ rw low (rw (if_neg (text_dec star r) n) (rw (found_it, first_result) refl))
    ]
search_static pattern part wild (p ∷ statics) rest full low h some_left =
    let fits : matches p (Trie.insert pattern (statics ++ star ∷ []) (new_node p)) ≡ true =
      matches-insert p pattern (statics ++ star ∷ []) (new_node p) ∙ matches-new_node p in
    let found_it =
      search_static pattern p (is_wild_part p) statics rest full (plain-is_star p h.0) h.1
        some_left in
    rw low (rw fits (rw (found_it, first_result) refl))

pub bind_params_static :
    (index : ℕ) (statics search_parts : List Text) (params : GoMap Text Text)
    → All IsPlain statics
    → index + length statics ≤ length search_parts
    → bind_params index (statics ++ star ∷ []) search_parts params
      ≡ some (
          insert text_dec
            (codes "filepath")
            (join (drop (index + length statics) search_parts) (b'/' ∷ []))
            params)
unfolding bind_params first_is
bind_params_static index [] search_parts params h le =
    let here : bind_params index (star ∷ []) search_parts params
        ≡ some (
            insert text_dec (codes "filepath") (join (drop index search_parts) (b'/' ∷ []))
              params) =
      ground (arith, le) in
    here
    ∙ ap
        (λ k.
          some (insert text_dec (codes "filepath") (join (drop k search_parts) (b'/' ∷ [])) params))
        (omega arith)
bind_params_static index (p ∷ statics) search_parts params h le =
    let (colon, wild) = plain-first_is p h.0 in
    rw colon (
      rw wild (
        bind_params_static (suc index) statics search_parts params h.1 (omega arith)
        ∙ ap
            (λ k.
              some (
                insert text_dec (codes "filepath") (join (drop k search_parts) (b'/' ∷ [])) params))
            (omega arith)))

module _ {H : Type 0} where
  -- On a router with this route only, a path below it leads to it, with the rest of the path as the
  -- parameter `filepath`.
  pub get_route_static :
      (method pattern path : Text) (handler : H) (statics rest : List Text)
      → pattern ≢ []
      → parse_pattern pattern ≡ statics ++ star ∷ []
      → parse_pattern path ≡ statics ++ rest
      → All IsPlain statics
      → rest ≢ []
      → (params : GoMap Text Text) × (get_route
            (add_route Router.new_router method pattern handler)
            method
            path
          ≡ routed (node pattern star true nil) params)
        × (lookup text_dec (codes "filepath") params ≡ some (join rest (b'/' ∷ [])))
  unfolding get_route add_route Router.new_router root_of route_to lookup has_prefix
  get_route_static method pattern path handler statics rest full parts asked plain below =
      let n = node pattern star true nil in
      let params = insert text_dec (codes "filepath") (join rest (b'/' ∷ [])) [] in
      let fresh : root_of (Router.new_router {H = H}) method ≡ node [] [] false nil = refl in
      let there : lookup text_dec method (add_route Router.new_router method pattern handler).roots
          ≡ some (Trie.insert pattern (statics ++ star ∷ []) (node [] [] false nil)) =
        lookup-insert_self text_dec method method _ [] refl
        ∙ ap (λ ps. some (Trie.insert pattern ps (node [] [] false nil))) parts in
      let hit : Trie.search (parse_pattern path)
            (Trie.insert pattern (statics ++ star ∷ []) (node [] [] false nil))
          ≡ some n =
        ap
          (λ ps. Trie.search ps (Trie.insert pattern (statics ++ star ∷ []) (node [] [] false nil)))
          asked
        ∙ search_static pattern [] false statics rest full refl plain below in
      let bound : bind_params 0 (parse_pattern pattern) (parse_pattern path) [] ≡ some params =
        ap₂ (λ ps qs. bind_params 0 ps qs []) parts asked
        ∙ bind_params_static 0 statics (statics ++ rest) [] plain
            (omega (arith, length-append statics rest))
        ∙ ap (λ r. some (insert text_dec (codes "filepath") (join r (b'/' ∷ [])) []))
            (ap (λ k. drop k (statics ++ rest)) (omega arith) ∙ drop-append statics rest) in
      (
        params,
        rw (there, get_route) (rw (hit, get_route) (rw (bound, route_to) refl)),
        lookup-insert_self text_dec (codes "filepath") (codes "filepath") (join rest (b'/' ∷ [])) []
            refl,
      )
