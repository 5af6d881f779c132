-- ===== src/GeeWeb/Trie/Insertion.antt =====
-- What a search finds after an insertion.
use days_project.Common.{
  ◌≡◌, refl, ◌≢◌, ◌⊎◌, inl, inr, List, [], ◌∷◌, none, some, true, false, Text, text_dec, has_prefix,
  arith, Bool-cases, if_neg, if_pos,
}
use days_project.GeeWeb.Trie.{
  Node, Nodes, node, nil, cons, pattern_of, matches, is_wild_part, match_children, new_node,
  insert_child, insert, found, first_result, is_star, children_of, search,
}

abbrev pub IsStar : Text → Type 0
IsStar part = has_prefix part (b'*' ∷ []) ≡ true

-- Below and at a node, a node whose part starts with `*` has a pattern.
abbrev mutual
  pub StarsEnd : Node → Type 0
  StarsEnd (node pattern part is_wild children) =
      (IsStar part → pattern ≢ []) × StarsEndAll children

  pub StarsEndAll : Nodes → Type 0
  StarsEndAll nil = Unit
  StarsEndAll (cons n ns) = StarsEnd n × StarsEndAll ns

-- A part that starts with `*` is the last.
abbrev pub StarLast : List Text → Type 0
StarLast [] = Unit
StarLast (p ∷ ps) = (IsStar p → ps ≡ []) × StarLast ps

-- A node that an insertion of `ps` may reach: `StarsEnd` holds, but a new `*` node has its pattern
-- still to come.
abbrev Ready : List Text → Node → Type 0
Ready ps (node pattern part is_wild children) =
    (IsStar part → (ps ≡ []) ⊎ (pattern ≢ [])) × StarsEndAll children

Ready-of_StarsEnd : (ps : List Text) (n : Node) → StarsEnd n → Ready ps n
Ready-of_StarsEnd ps (node pattern part is_wild children) h = (λ s. inr (h.0 s), h.1)

-- What a search gives after an insertion into `n`: the pattern that was inserted; or a `*` node whose
-- pattern the same search gave before.
abbrev Leads : Text → List Text → Node → Node → Type 0
Leads pattern ps n r =
    (pattern_of r ≡ pattern)
    ⊎ ((is_star r ≡ true) × ((o : Node) × (search ps n ≡ some o) × (pattern_of o ≡ pattern_of r)))

search-new_node : (ps : List Text) (p : Text) → (IsStar p → ps ≡ []) → search ps (new_node p) ≡ none
unfolding search found is_star children_of match_children first_result text_dec
search-new_node [] p last = refl
search-new_node (q ∷ ps) p last = ground arith

module _ (call : Node → Node) (pattern p : Text) (ps : List Text) (last : IsStar p → ps ≡ []) where
  insert_child-StarsEnd :
      ((c : Node) → Ready ps c → StarsEnd (call c))
      → (cs : Nodes) → StarsEndAll cs
      → StarsEndAll (insert_child call p cs)
  unfolding insert_child
  insert_child-StarsEnd keep nil h = (keep (new_node p) (λ s. inl (last s), tt), tt)
  insert_child-StarsEnd keep (cons c cs) h = elim (Bool-cases (matches p c)) [
    | inl e ↦ rw e (keep c (Ready-of_StarsEnd ps c h.0), h.1)
    | inr e ↦ rw e (h.0, insert_child-StarsEnd keep cs h.1)
  ]

  first_result-insert_child :
      ((c : Node) → Ready ps c → (r : Node) × (search ps (call c) ≡ some r) × Leads pattern ps c r)
      → ((c : Node) → matches p (call c) ≡ matches p c)
      → matches p (new_node p) ≡ true
      → (cs : Nodes) → StarsEndAll cs
      → (r : Node) × (first_result (search ps) (match_children p (insert_child call p cs)) ≡ some r)
        × ((pattern_of r ≡ pattern)
            ⊎ ((is_star r ≡ true)
                × ((o : Node) × (first_result (search ps) (match_children p cs) ≡ some o)
                    × (pattern_of o ≡ pattern_of r))))
  unfolding insert_child match_children first_result
  first_result-insert_child finds same fits nil h =
      let (r, e, leads) = finds (new_node p) (λ s. inl (last s), tt) in
      (
        r,
        rw (same (new_node p)) (rw fits (rw (e, first_result) refl)),
        elim leads [ inl g ↦ inl g | inr g ↦ absurd (cc (g.1.1, search-new_node ps p last)) ],
      )
  first_result-insert_child finds same fits (cons c cs) h = elim (Bool-cases (matches p c)) [
    | inl e ↦
        let (r, found_it, leads) = finds c (Ready-of_StarsEnd ps c h.0) in
        (
          r,
          ground (arith, e, same c, found_it),
          elim leads [
            | inl g ↦ inl g
            | inr (star, (o, old, g)) ↦ inr (star, (o, ground (arith, e, old), g))
          ],
        )
    | inr e ↦
        let (r, found_it, leads) = first_result-insert_child finds same fits cs h.1 in
        (
          r,
          ground (arith, e, found_it),
          elim leads [
            | inl g ↦ inl g
            | inr (star, (o, old, g)) ↦ inr (star, (o, ground (arith, e, old), g))
          ],
        )
  ]

pub matches-insert :
    (p pattern : Text) (ps : List Text) (n : Node) → matches p (insert pattern ps n) ≡ matches p n
unfolding insert matches
matches-insert p pattern [] (node old part is_wild cs) = refl
matches-insert p pattern (q ∷ ps) (node old part is_wild cs) = refl

pub matches-new_node : (p : Text) → matches p (new_node p) ≡ true
unfolding matches
matches-new_node p = if_pos (text_dec p p) refl true (is_wild_part p)

insert-StarsEnd-Ready :
    (pattern : Text) (ps : List Text) (n : Node)
    → pattern ≢ []
    → StarLast ps
    → Ready ps n
    → StarsEnd (insert pattern ps n)
unfolding insert
insert-StarsEnd-Ready pattern [] (node old part is_wild cs) full last h = (λ s. full, h.1)
insert-StarsEnd-Ready pattern (p ∷ ps) (node old part is_wild cs) full last h = (
  λ s. elim (h.0 s) [ inl e ↦ absurd (cc) | inr g ↦ g ],
  insert_child-StarsEnd (insert pattern ps) pattern p ps last.0
      (λ c r. insert-StarsEnd-Ready pattern ps c full last.1 r) cs h.1,
)

found-some : (n : Node) → pattern_of n ≢ [] → found n ≡ some n
unfolding found
found-some n full = if_neg (text_dec (pattern_of n) []) full none (some n)

search-insert-Ready :
    (pattern : Text) (ps : List Text) (n : Node)
    → pattern ≢ []
    → StarLast ps
    → Ready ps n
    → (r : Node) × (search ps (insert pattern ps n) ≡ some r) × Leads pattern ps n r
unfolding insert search is_star children_of
search-insert-Ready pattern [] (node old part is_wild cs) full last h =
    (_, found-some _ full, inl refl)
search-insert-Ready pattern (p ∷ ps) (node old part is_wild cs) full last h =
    elim (Bool-cases (has_prefix part (b'*' ∷ []))) [
      | inl s ↦ elim (h.0 s) [
        | inl e ↦ absurd (cc)
        | inr g ↦ (
          node old part is_wild (insert_child (insert pattern ps) p cs),
          rw s (found-some (node old part is_wild (insert_child (insert pattern ps) p cs)) g),
          inr (s, (node old part is_wild cs, rw s (found-some (node old part is_wild cs) g), refl)),
        )
      ]
      | inr s ↦
          let (r, e, leads) =
            first_result-insert_child (insert pattern ps) pattern p ps last.0
              (λ c g. search-insert-Ready pattern ps c full last.1 g) (matches-insert p pattern ps)
              (matches-new_node p) cs h.1 in
          (
            r,
            rw s e,
            elim leads [
              | inl g ↦ inl g
              | inr (star, (o, old_found, g)) ↦ inr (star, (o, rw s old_found, g))
            ],
          )
    ]

-- Inserting a route that is not empty, whose part with a `*` is its last, keeps a pattern on every
-- `*` node; and a search for the route's own parts then finds the route, or a `*` node whose pattern it
-- found before.
pub search-insert :
    (pattern : Text) (ps : List Text) (n : Node)
    → pattern ≢ []
    → StarLast ps
    → StarsEnd n
    → StarsEnd (insert pattern ps n)
      × ((r : Node) × (search ps (insert pattern ps n) ≡ some r)
          × ((pattern_of r ≡ pattern)
              ⊎ ((is_star r ≡ true)
                  × ((o : Node) × (search ps n ≡ some o) × (pattern_of o ≡ pattern_of r)))))
search-insert pattern ps n full last h =
    let r = Ready-of_StarsEnd ps n h in
    (insert-StarsEnd-Ready pattern ps n full last r, search-insert-Ready pattern ps n full last r)

-- Registering a static part after a wild one replaces the wild route: the search for any part then
-- gives the static pattern. Both are the root's children, and no request part is served otherwise.
pub static_replaces_wild :
    (wild_pattern static_pattern wild static request : Text)
    → is_wild_part wild ≡ true
    → static_pattern ≢ []
    → (r : Node) × (search (request ∷ []) (
          insert static_pattern
            (static ∷ [])
            (insert wild_pattern (wild ∷ []) (node [] [] false nil)))
        ≡ some r)
      × (pattern_of r ≡ static_pattern)
unfolding search insert insert_child match_children matches first_result is_star children_of found
    has_prefix
static_replaces_wild wild_pattern static_pattern wild static request w full =
    (node static_pattern wild true nil, ground (arith, w, full), refl)
