-- ===== src/GeeWeb/Router/Lookups.antt =====
-- Looking up a route: no index is out of range, and a route that was added is found.
use days_project.Common.{
  ℕ, suc, ◌+◌, ◌≤◌, ◌≡◌, refl, ◌≢◌, ◌⊎◌, inl, inr, List, [], ◌∷◌, some, true, Text, text_dec,
  if_pos, if_neg, split, none, false, ap, ◌∙◌, length, get_elem?-some, drop, ltb, has_prefix,
  lookup, insert, lookup-insert, lookup-insert_self, GoMap, join, arith, Bool-cases, Option-cases,
  ◌&&◌, subst,
}
use days_project.GeeWeb.Trie
use days_project.GeeWeb.Trie.{Node, node, nil, pattern_of}
use days_project.GeeWeb.Trie.Insertion.{IsStar, StarsEnd, StarLast, search-insert}
use days_project.GeeWeb.Router.{
  first_is, parts_of, parse_pattern, Router, Routed, bind_params, route_to, root_of, add_route,
  get_route,
}
use days_project.GeeWeb.Router.Depth.{AtDepth, insert-AtDepth, IsShort, search-IsShort}

first_is_of_IsStar : (item : Text) → IsStar item → first_is b'*' item ≡ true
unfolding first_is has_prefix
first_is_of_IsStar [] s = absurd (cc)
first_is_of_IsStar (c ∷ s) star = ground arith

parts_of-StarLast : (vs : List Text) → StarLast (parts_of vs)
unfolding parts_of
parts_of-StarLast [] = tt
parts_of-StarLast (item ∷ vs) = elim (text_dec item []) [
  | yes e ↦ rw (if_pos (text_dec item []) e) (parts_of-StarLast vs)
  | no n ↦ rw (if_neg (text_dec item []) n) (elim (Bool-cases (first_is b'*' item)) [
    | inl e ↦ rw e (λ s. refl, tt)
    | inr e ↦ rw e (λ s. absurd (cc (first_is_of_IsStar item s)), parts_of-StarLast vs)
  ])
]

parse_pattern-StarLast : (pattern : Text) → StarLast (parse_pattern pattern)
unfolding parse_pattern
parse_pattern-StarLast pattern = parts_of-StarLast (split pattern b'/')

bind_params_total :
    (index : ℕ) (parts search_parts : List Text) (params : GoMap Text Text)
    → index + length parts ≤ length search_parts
    → (result : GoMap Text Text) × (bind_params index parts search_parts params ≡ some result)
unfolding bind_params
bind_params_total index [] search_parts params le = (params, refl)
bind_params_total index (part ∷ parts) search_parts params le =
    elim (Bool-cases (first_is b':' part)) [
      | inl e ↦
          let (value, here) = get_elem?-some search_parts index (omega arith) in
          let (result, rest) =
            bind_params_total (suc index) parts search_parts
              (insert text_dec (drop 1 part) value params) (omega arith) in
          (result, rw e (ground (arith, here, rest)))
      | inr e ↦ elim (Bool-cases (first_is b'*' part && ltb 1 (length part))) [
        | inl star ↦ (
          insert text_dec (drop 1 part) (join (drop index search_parts) (b'/' ∷ [])) params,
          rw e (rw star (ground arith)),
        )
        | inr plain ↦
            let (result, rest) =
              bind_params_total (suc index) parts search_parts params (omega arith) in
            (result, rw e (rw plain rest))
      ]
    ]

route_to_total :
    (search_parts : List Text) (n : Node)
    → length (parse_pattern (pattern_of n)) ≤ length search_parts
    → (params : GoMap Text Text) × (route_to search_parts n ≡ Routed.routed n params)
unfolding route_to
route_to_total search_parts n le =
    let (params, e) =
      bind_params_total 0 (parse_pattern (pattern_of n)) search_parts [] (omega arith) in
    (params, ground (arith, e))

search_empty : (ps : List Text) → Trie.search ps (node [] [] false nil) ≡ none
unfolding Trie.search Trie.found Trie.is_star Trie.children_of Trie.match_children Trie.first_result
    has_prefix text_dec
search_empty [] = refl
search_empty (p ∷ ps) = refl

-- The trees of a router: each pattern at the depth of its parts, and a pattern at each `*` node.
abbrev pub IsValid : {H : Type 0} → Router H → Type 0
IsValid r =
    (method : Text) (root : Node)
    → lookup text_dec method r.roots ≡ some root
    → StarsEnd root × AtDepth 0 root

module _ {H : Type 0} where
  root_of-valid :
      (r : Router H) (method : Text)
      → IsValid r
      → StarsEnd (root_of r method) × AtDepth 0 (root_of r method)
  unfolding root_of has_prefix
  root_of-valid r method v = elim (Option-cases (lookup text_dec method r.roots)) [
    | inl e ↦ rw e ((λ s. absurd (cc), tt), (λ full. absurd (full refl), tt))
    | inr (root, e) ↦ rw e (v method root e)
  ]

  -- `addRoute` keeps the trees well formed, at a pattern that is not empty.
  pub add_route-IsValid :
      (r : Router H) (method pattern : Text) (handler : H)
      → pattern ≢ []
      → IsValid r
      → IsValid (add_route r method pattern handler)
  unfolding add_route
  add_route-IsValid r method pattern handler full v other root e =
      let (stars, depth) = root_of-valid r method v in
      let new_root = Trie.insert pattern (parse_pattern pattern) (root_of r method) in
      elim (text_dec other method) [
        | yes p ↦
            let same : new_root ≡ root =
              ground (arith, e, p, lookup-insert text_dec other method new_root r.roots) in
            subst (λ t. StarsEnd t × AtDepth 0 t) same
              (
                (search-insert pattern (parse_pattern pattern) (root_of r method) full
                    (parse_pattern-StarLast pattern) stars).0,
                insert-AtDepth pattern (parse_pattern pattern) 0 (root_of r method) (omega arith)
                    depth,
              )
        | no n ↦
            v other root
              (ground (arith, e, n, lookup-insert text_dec other method new_root r.roots))
      ]

  -- On a well-formed router `getRoute` never reads out of range: for every method and path it gives
  -- no route, or a node with parameters.
  pub get_route_total :
      (r : Router H) (method path : Text)
      → IsValid r
      → (get_route r method path ≡ Routed.missing)
        ⊎ ((n : Node) × (params : GoMap Text Text) × (get_route r method path
              ≡ Routed.routed n params))
  unfolding get_route
  get_route_total r method path v = elim (Option-cases (lookup text_dec method r.roots)) [
    | inl e ↦ inl (ground (arith, e))
    | inr (root, e) ↦ elim (Option-cases (Trie.search (parse_pattern path) root)) [
      | inl missed ↦ inl (ground (arith, e, missed))
      | inr (n, hit) ↦
          let short =
            search-IsShort (parse_pattern path) 0 (length (parse_pattern path)) root (omega arith)
              (v method root e).1 in
          let (params, ran) = route_to_total (parse_pattern path) n (subst (IsShort _) hit short) in
          inr (n, params, ground (arith, e, hit, ran))
    ]
  ]

  -- Where a search in the old tree found a node with the pattern of `n`, so did the old router.
  old_route :
      (r : Router H) (method path : Text) (n o : Node) (params : GoMap Text Text)
      → Trie.search (parse_pattern path) (root_of r method) ≡ some o
      → pattern_of o ≡ pattern_of n
      → bind_params 0 (parse_pattern (pattern_of n)) (parse_pattern path) [] ≡ some params
      → get_route r method path ≡ Routed.routed o params
  unfolding get_route root_of route_to
  old_route r method path n o params hit same bound =
      let bound_too : bind_params 0 (parse_pattern (pattern_of o)) (parse_pattern path) []
          ≡ some params =
        ap (λ t. bind_params 0 (parse_pattern t) (parse_pattern path) []) same ∙ bound in
      elim (Option-cases (lookup text_dec method r.roots)) [
        | inl e ↦ absurd (cc (rw (e, root_of) at hit, search_empty (parse_pattern path)))
        | inr (root, e) ↦
            let found_it : Trie.search (parse_pattern path) root ≡ some o =
              rw (e, root_of) at hit in
            rw (e, get_route) (rw (found_it, get_route) (rw (bound_too, route_to) refl))
      ]

  -- A route that was just added, on a well-formed router and with a pattern that is not empty, is
  -- what `getRoute` gives for its own pattern; or else a route with a `*` is, which `getRoute` gave for
  -- it before, with the same parameters: only such a route can hide the new one.
  pub get_route-add_route :
      (r : Router H) (method pattern : Text) (handler : H)
      → pattern ≢ []
      → IsValid r
      → (n : Node) × (params : GoMap Text Text) × (get_route
            (add_route r method pattern handler)
            method
            pattern
          ≡ Routed.routed n params)
        × ((pattern_of n ≡ pattern)
            ⊎ ((Trie.is_star n ≡ true)
                × ((o : Node) × (get_route r method pattern ≡ Routed.routed o params)
                    × (pattern_of o ≡ pattern_of n))))
  unfolding get_route add_route route_to
  get_route-add_route r method pattern handler full v =
      let parts = parse_pattern pattern in
      let new_root = Trie.insert pattern parts (root_of r method) in
      let found_root = lookup-insert_self text_dec method method new_root r.roots refl in
      let (n, hit, leads) =
        (search-insert pattern parts (root_of r method) full (parse_pattern-StarLast pattern)
          (root_of-valid r method v).0).1 in
      let depth =
        insert-AtDepth pattern parts 0 (root_of r method) (omega arith)
          (root_of-valid r method v).1 in
      let short = search-IsShort parts 0 (length parts) new_root (omega arith) depth in
      let (params, bound) =
        bind_params_total 0 (parse_pattern (pattern_of n)) parts []
          (omega (arith, subst (IsShort _) hit short)) in
      (
        n,
        params,
        ground (arith, found_root, hit, bound),
        elim leads [
          | inl g ↦ inl g
          | inr (star, (o, old, same)) ↦
              inr (star, (o, old_route r method pattern n o params old same bound, same))
        ],
      )
