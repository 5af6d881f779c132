-- ===== src/GeeWeb/Router/Depth.antt =====
-- A pattern stands at the depth of its number of parts, so a search finds no longer one.
use days_project.Common.{
  ℕ, suc, ◌+◌, ◌≤◌, ◌≡◌, refl, ◌≢◌, List, [], ◌∷◌, Option, none, some, Text, text_dec, length,
  arith, Bool-cases, Option-cases, inl, inr, if_pos, if_neg,
}
use days_project.GeeWeb.Trie.{
  Node, Nodes, node, nil, cons, pattern_of, matches, match_children, new_node, insert_child, insert,
  found, first_result, is_star, children_of, search,
}
use days_project.GeeWeb.Router.{parse_pattern}

abbrev mutual
  pub AtDepth : ℕ → Node → Type 0
  AtDepth d (node pattern part is_wild children) =
      (pattern ≢ [] → length (parse_pattern pattern) ≡ d) × AllAtDepth (suc d) children

  pub AllAtDepth : ℕ → Nodes → Type 0
  AllAtDepth d nil = Unit
  AllAtDepth d (cons n ns) = AtDepth d n × AllAtDepth d ns

insert_child-AllAtDepth :
    (d : ℕ) (call : Node → Node) (p : Text)
    → ((c : Node) → AtDepth d c → AtDepth d (call c))
    → (cs : Nodes) → AllAtDepth d cs
    → AllAtDepth d (insert_child call p cs)
unfolding insert_child
insert_child-AllAtDepth d call p keep nil h = (keep (new_node p) (λ e. absurd (e refl), tt), tt)
insert_child-AllAtDepth d call p keep (cons c cs) h = elim (Bool-cases (matches p c)) [
  | inl e ↦ rw e (keep c h.0, h.1)
  | inr e ↦ rw e (h.0, insert_child-AllAtDepth d call p keep cs h.1)
]

pub insert-AtDepth :
    (pattern : Text) (ps : List Text) (d : ℕ) (n : Node)
    → length (parse_pattern pattern) ≡ d + length ps
    → AtDepth d n
    → AtDepth d (insert pattern ps n)
unfolding insert
insert-AtDepth pattern [] d (node old part is_wild cs) e h = (λ full. omega (arith, e), h.1)
insert-AtDepth pattern (p ∷ ps) d (node old part is_wild cs) e h = (
  h.0,
  insert_child-AllAtDepth (suc d) (insert pattern ps) p
      (λ c g. insert-AtDepth pattern ps (suc d) c (omega (arith, e)) g) cs h.1,
)

-- What a search may end with: a pattern of at most `most` parts.
abbrev pub IsShort : ℕ → Option Node → Type 0
IsShort most none = Unit
IsShort most (some r) = length (parse_pattern (pattern_of r)) ≤ most

found-IsShort : (d most : ℕ) (n : Node) → AtDepth d n → d ≤ most → IsShort most (found n)
unfolding found
found-IsShort d most (node pattern part is_wild cs) h le = elim (text_dec pattern []) [
  | yes e ↦ rw (if_pos (text_dec pattern []) e) tt
  | no n ↦ rw (if_neg (text_dec pattern []) n) (omega (arith, h.0 n))
]

first_result-IsShort :
    (d most : ℕ) (call : Node → Option Node) (p : Text)
    → ((c : Node) → AtDepth d c → IsShort most (call c))
    → (cs : Nodes) → AllAtDepth d cs
    → IsShort most (first_result call (match_children p cs))
unfolding first_result match_children
first_result-IsShort d most call p short nil h = tt
first_result-IsShort d most call p short (cons c cs) h = elim (Bool-cases (matches p c)) [
  | inl e ↦ elim (Option-cases (call c)) [
    | inl missed ↦
        rw e (rw (missed, first_result) (first_result-IsShort d most call p short cs h.1))
    | inr (r, hit) ↦ rw e (rw (hit, first_result) (rw hit at (short c h.0)))
  ]
  | inr e ↦ rw e (first_result-IsShort d most call p short cs h.1)
]

pub search-IsShort :
    (ps : List Text) (d most : ℕ) (n : Node)
    → d + length ps ≤ most
    → AtDepth d n
    → IsShort most (search ps n)
unfolding search children_of
search-IsShort [] d most n le h = found-IsShort d most n h (omega arith)
search-IsShort (p ∷ ps) d most (node pattern part is_wild cs) le h =
    elim (Bool-cases (is_star (node pattern part is_wild cs))) [
      | inl e ↦ rw e (found-IsShort d most (node pattern part is_wild cs) h (omega arith))
      | inr e ↦ rw e (
          first_result-IsShort (suc d) most (search ps) p
            (λ c g. search-IsShort ps (suc d) most c (omega arith) g) cs h.1)
    ]
