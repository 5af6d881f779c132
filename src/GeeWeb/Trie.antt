-- ===== src/GeeWeb/Trie.antt =====
-- geeweb/gee/trie.go: the prefix tree of routes. Nodes are not shared, so a change through a
-- pointer is a new tree. The parts that are left stand for `parts[height:]`.
pub mod Insertion
use days_project.Common.{
  List, [], ◌∷◌, Option, none, some, Bool, true, false, Text, text_dec, ite, has_prefix,
  if◌then◌else◌, ◌||◌, ℕ_discrete, ◌==◌,
}

mutual
  -- `node`, with its list of children
  pub data Node : Type 0 where
    node : (pattern part : Text) (is_wild : Bool) → Nodes → Node

  pub data Nodes : Type 0 where
    nil : Nodes
    cons : Node → Nodes → Nodes

abbrev pub pattern_of : Node → Text
pattern_of (node pattern part is_wild children) = pattern

-- `child.part == part || child.isWild`
unfoldable pub matches : Text → Node → Bool
matches p (node pattern part is_wild children) = ite (text_dec part p) true is_wild

-- `part[0] == ':' || part[0] == '*'`; no part is empty.
unfoldable pub is_wild_part : Text → Bool
is_wild_part [] = false
is_wild_part (c ∷ s) = (c == b':') || (c == b'*')

-- `matchChildren`
unfoldable pub match_children : Text → Nodes → List Node
match_children p nil = []
match_children p (cons child rest) =
    let later = match_children p rest in if matches p child then child ∷ later else later

abbrev pub new_node : Text → Node
new_node p = node [] p (is_wild_part p) nil

-- The middle of `insert`: `matchChild`, a new last child if there is none, and the call on it.
unfoldable pub insert_child : (Node → Node) → Text → Nodes → Nodes
insert_child call p nil = cons (call (new_node p)) nil
insert_child call p (cons child rest) =
    let later = cons child (insert_child call p rest) in
    if matches p child then cons (call child) rest else later

unfoldable pub insert : Text → List Text → Node → Node
insert pattern [] (node _ part is_wild children) = node pattern part is_wild children
insert pattern (p ∷ ps) (node old part is_wild children) =
    node old part is_wild (insert_child (insert pattern ps) p children)

-- The end of a search: a node without a pattern is no result.
unfoldable pub found : Node → Option Node
found n = ite (text_dec (pattern_of n) []) none (some n)

unfoldable pub first_result : (Node → Option Node) → List Node → Option Node
first_result call [] = none
first_result call (child ∷ rest) =
    let later = first_result call rest in elim (call child) [ some r ↦ some r | none ↦ later ]

unfoldable pub is_star : Node → Bool
is_star (node pattern part is_wild children) = has_prefix part (b'*' ∷ [])

unfoldable pub children_of : Node → Nodes
children_of (node pattern part is_wild children) = children

unfoldable pub search : List Text → Node → Option Node
search [] n = found n
search (p ∷ ps) n =
    let deeper = first_result (search ps) (match_children p (children_of n)) in
    if is_star n then found n else deeper
