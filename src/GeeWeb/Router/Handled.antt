-- ===== src/GeeWeb/Router/Handled.antt =====
-- Every pattern of a router's trees has a handler.
use days_project.Common.{
  ◌≡◌, ◌≢◌, refl, sym, inl, inr, List, [], ◌∷◌, some, none, Text, text_dec, arith, Bool-cases,
  Option-cases, lookup, insert, lookup-insert_self, lookup-insert_ne, ◌∙◌, GoMap, if_pos, if_neg,
  subst, Option,
}
use days_project.GeeWeb.Trie
use days_project.GeeWeb.Trie.{
  Node, Nodes, node, nil, cons, pattern_of, matches, match_children, new_node, insert_child, found,
  first_result, is_star, children_of,
}
use days_project.GeeWeb.Router.{
  Router, routed, handler_key, parse_pattern, route_to, bind_params, root_of, add_route, get_route,
}

-- `P` holds of the patterns at and below a node that are not empty.
abbrev mutual
  pub Patterns : (Text → Type 0) → Node → Type 0
  Patterns P (node pattern part is_wild children) =
      (pattern ≢ [] → P pattern) × PatternsAll P children

  pub PatternsAll : (Text → Type 0) → Nodes → Type 0
  PatternsAll P nil = Unit
  PatternsAll P (cons n ns) = Patterns P n × PatternsAll P ns

module _ (P Q : Text → Type 0) (more : (p : Text) → P p → Q p) where
  mutual
    Patterns-mono : (n : Node) → Patterns P n → Patterns Q n
    Patterns-mono (node pattern part is_wild children) h =
        (λ full. more pattern (h.0 full), PatternsAll-mono children h.1)

    PatternsAll-mono : (ns : Nodes) → PatternsAll P ns → PatternsAll Q ns
    PatternsAll-mono nil h = tt
    PatternsAll-mono (cons n ns) h = (Patterns-mono n h.0, PatternsAll-mono ns h.1)

module _ (P : Text → Type 0) where
  insert_child-PatternsAll :
      (call : Node → Node) (p : Text)
      → ((c : Node) → Patterns P c → Patterns P (call c))
      → (cs : Nodes) → PatternsAll P cs
      → PatternsAll P (insert_child call p cs)
  unfolding insert_child
  insert_child-PatternsAll call p keep nil h =
      (keep (new_node p) (λ full. absurd (full refl), tt), tt)
  insert_child-PatternsAll call p keep (cons c cs) h = elim (Bool-cases (matches p c)) [
    | inl e ↦ rw e (keep c h.0, h.1)
    | inr e ↦ rw e (h.0, insert_child-PatternsAll call p keep cs h.1)
  ]

  insert-Patterns :
      (pattern : Text) (ps : List Text) (n : Node)
      → P pattern
      → Patterns P n
      → Patterns P (Trie.insert pattern ps n)
  unfolding Trie.insert
  insert-Patterns pattern [] (node old part is_wild cs) new h = (λ full. new, h.1)
  insert-Patterns pattern (p ∷ ps) (node old part is_wild cs) new h = (
    h.0,
    insert_child-PatternsAll (Trie.insert pattern ps) p
        (λ c hc. insert-Patterns pattern ps c new hc) cs h.1,
  )

  Patterns-here : (n : Node) → Patterns P n → pattern_of n ≢ [] → P (pattern_of n)
  Patterns-here (node pattern part is_wild cs) h full = h.0 full

  -- What a search ends with has a pattern of which `P` holds.
  abbrev pub Gives : Option Node → Type 0
  Gives none = Unit
  Gives (some r) = P (pattern_of r)

  found-Gives : (n : Node) → Patterns P n → Gives (found n)
  unfolding found
  found-Gives n h = elim (text_dec (pattern_of n) []) [
    | yes empty ↦ rw (if_pos (text_dec (pattern_of n) []) empty) tt
    | no full ↦ rw (if_neg (text_dec (pattern_of n) []) full) (Patterns-here n h full)
  ]

  first_result-Gives :
      (call : Node → Option Node) (p : Text)
      → ((c : Node) → Patterns P c → Gives (call c))
      → (cs : Nodes) → PatternsAll P cs
      → Gives (first_result call (match_children p cs))
  unfolding first_result match_children
  first_result-Gives call p finds nil h = tt
  first_result-Gives call p finds (cons c cs) h = elim (Bool-cases (matches p c)) [
    | inl e ↦ elim (Option-cases (call c)) [
      | inl missed ↦ rw e (rw (missed, first_result) (first_result-Gives call p finds cs h.1))
      | inr (r, hit) ↦ rw e (rw (hit, first_result) (rw hit at (finds c h.0)))
    ]
    | inr e ↦ rw e (first_result-Gives call p finds cs h.1)
  ]

  search-Gives : (ps : List Text) (n : Node) → Patterns P n → Gives (Trie.search ps n)
  unfolding Trie.search children_of
  search-Gives [] n h = found-Gives n h
  search-Gives (p ∷ ps) (node old part is_wild cs) h =
      elim (Bool-cases (is_star (node old part is_wild cs))) [
        | inl e ↦ rw e (found-Gives (node old part is_wild cs) h)
        | inr e ↦ rw e (first_result-Gives (Trie.search ps) p (λ c g. search-Gives ps c g) cs h.1)
      ]

-- A route leads to the node that the search gave.
route_to-routed :
    (search_parts : List Text) (m n : Node) (params : GoMap Text Text)
    → route_to search_parts m ≡ routed n params
    → m ≡ n
unfolding route_to
route_to-routed search_parts m n params e =
    elim (Option-cases (bind_params 0 (parse_pattern (pattern_of m)) search_parts [])) [
      | inl out ↦ absurd (cc (rw (out, route_to) at e))
      | inr (bound, ran) ↦ cc (rw (ran, route_to) at e)
    ]

module _ {H : Type 0} where
  -- The pattern has a handler for the method.
  abbrev pub HasHandler : Text → GoMap Text H → Text → Type 0
  HasHandler method handlers p =
      (h : H) × (lookup text_dec (handler_key method p) handlers ≡ some h)

  -- In a router's trees, every pattern that is not empty has a handler for the method of its tree.
  abbrev pub Handled : Router H → Type 0
  Handled r =
      (method : Text) (root : Node)
      → lookup text_dec method r.roots ≡ some root
      → Patterns (HasHandler method r.handlers) root

  -- A handler that is there stays, or is replaced.
  insert-HasHandler :
      (key : Text) (handler : H) (method p : Text) (handlers : GoMap Text H)
      → HasHandler method handlers p
      → HasHandler method (insert text_dec key handler handlers) p
  insert-HasHandler key handler method p handlers (h, e) =
      elim (text_dec (handler_key method p) key) [
        | yes same ↦
            (handler, lookup-insert_self text_dec (handler_key method p) key handler handlers same)
        | no n ↦ (h, lookup-insert_ne text_dec (handler_key method p) key handler handlers n ∙ e)
      ]

  root_of-Patterns :
      (r : Router H) (method : Text)
      → Handled r
      → Patterns (HasHandler method r.handlers) (root_of r method)
  unfolding root_of
  root_of-Patterns r method v = elim (Option-cases (lookup text_dec method r.roots)) [
    | inl e ↦ rw e (λ full. absurd (full refl), tt)
    | inr (root, e) ↦ rw e (v method root e)
  ]

  pub add_route-Handled :
      (r : Router H) (method pattern : Text) (handler : H)
      → Handled r
      → Handled (add_route r method pattern handler)
  unfolding add_route
  add_route-Handled r method pattern handler v other root e =
      let key = handler_key method pattern in
      let handlers = insert text_dec key handler r.handlers in
      let more = λ (m p : Text). insert-HasHandler key handler m p r.handlers in
      let new_root = Trie.insert pattern (parse_pattern pattern) (root_of r method) in
      elim (text_dec other method) [
        | yes same ↦
            let moved : new_root ≡ root =
              ground (arith, e, same, lookup-insert_self text_dec other method new_root r.roots) in
            let new : Patterns (HasHandler method handlers) new_root =
              insert-Patterns (HasHandler method handlers) pattern (parse_pattern pattern)
                (root_of r method)
                (handler, lookup-insert_self text_dec key key handler r.handlers refl)
                (Patterns-mono (HasHandler method r.handlers) (HasHandler method handlers)
                  (more method) (root_of r method) (root_of-Patterns r method v)) in
            subst (λ m. Patterns (HasHandler m handlers) root) (sym same)
              (subst (Patterns (HasHandler method handlers)) moved new)
        | no n ↦
            Patterns-mono (HasHandler other r.handlers) (HasHandler other handlers) (more other)
              root
              (v other root
                (ground (arith, e, n, lookup-insert_ne text_dec other method new_root r.roots)))
      ]

  -- Where the lookup of a route gives a node, its pattern has a handler.
  pub get_route-HasHandler :
      (r : Router H) (method path : Text) (n : Node) (params : GoMap Text Text)
      → Handled r
      → get_route r method path ≡ routed n params
      → HasHandler method r.handlers (pattern_of n)
  unfolding get_route
  get_route-HasHandler r method path n params v e =
      elim (Option-cases (lookup text_dec method r.roots)) [
        | inl none_there ↦ absurd (cc (rw (none_there, get_route) at e))
        | inr (root, there) ↦ elim (Option-cases (Trie.search (parse_pattern path) root)) [
          | inl missed ↦ absurd (cc (rw (missed, get_route) at (rw (there, get_route) at e)))
          | inr (m, hit) ↦
              let P = HasHandler method r.handlers in
              let gives = search-Gives P (parse_pattern path) root (v method root there) in
              subst (λ t. P (pattern_of t))
                (route_to-routed (parse_pattern path) m n params
                  (rw (hit, get_route) at (rw (there, get_route) at e)))
                (subst (Gives P) hit gives)
        ]
      ]
