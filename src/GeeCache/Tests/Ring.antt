-- ===== src/GeeCache/Tests/Ring.antt =====
-- Keys on rings of two and three nodes.
use days_project.Common.{
  sym, ◌∙◌, ℕ, ◌+◌, ◌*◌, ◌≡◌, refl, ◌⊎◌, inl, inr, List, [], ◌∷◌, some, Text, codes, lookup, In,
  arith, ℕ_discrete, delete, insert,
}
use days_project.GeeCache.ConsistentHash
use days_project.GeeCache.ConsistentHash.Ring
use days_project.GeeCache.ConsistentHash.Growth.{get_after_add}
use days_project.GeeCache.ConsistentHash.Removal.{hashes}
use days_project.GeeCache.ConsistentHash.Shrinkage.{get_after_del}

-- A hash that tells short texts apart.
abbrev sum : Text → ℕ
sum [] = 0
sum (c ∷ s) = c + 2 * sum s

abbrev nodes : List Text
nodes = codes "x" ∷ codes "y" ∷ []

abbrev ring : ConsistentHash.Map
ring = record {
  replicas = 1;
  keys = 10 ∷ 20 ∷ [];
  hash_map = (10, codes "x") ∷ (20, codes "y") ∷ [];
}

ring-IsOwned : Ring.IsOwned ring nodes
unfolding lookup ℕ_discrete
ring-IsOwned k (inl e) = (codes "x", ground (arith, e), inl refl)
ring-IsOwned k (inr (inl e)) = (codes "y", ground (arith, e), inr (inl refl))
ring-IsOwned k (inr (inr h)) = absurd h

-- The ring of two nodes with one hash each.
abbrev pair : ConsistentHash.Map
pair = record {
  replicas = 1;
  keys = 288 ∷ 290 ∷ [];
  hash_map = (288, codes "x") ∷ (290, codes "y") ∷ [];
}

pair_added :
    ConsistentHash.add sum (ConsistentHash.new 1) nodes
    ≡ record pair { hash_map = (290, codes "y") ∷ (288, codes "x") ∷ [] }
unfolding ConsistentHash.add ConsistentHash.new ConsistentHash.itoa ConsistentHash.sort_ints insert
    delete ℕ_discrete
pair_added = refl

pair-IsOwned : Ring.IsOwned pair nodes
unfolding lookup ℕ_discrete
pair-IsOwned k (inl e) = (codes "x", ground (arith, e), inl refl)
pair-IsOwned k (inr (inl e)) = (codes "y", ground (arith, e), inr (inl refl))
pair-IsOwned k (inr (inr h)) = absurd h

pair-own :
    (j : ℕ)
    → In j (hashes sum 1 0 (codes "y"))
    → lookup ℕ_discrete j pair.hash_map ≡ some (codes "y")
unfolding lookup ℕ_discrete ConsistentHash.itoa
pair-own j (inl e) = ground (arith, e)
pair-own j (inr h) = absurd h

pair_get : ConsistentHash.get sum pair (codes "b") ≡ codes "x"
unfolding ConsistentHash.get lookup ℕ_discrete
pair_get = refl

get_after_del_example :
    ConsistentHash.get sum (ConsistentHash.del sum pair (codes "y")) (codes "b")
    ≡ ConsistentHash.get sum pair (codes "b")
get_after_del_example =
    get_after_del sum pair nodes (codes "y") (codes "b") ((omega arith, tt), (tt, tt))
      (elim [ inl e ↦ omega (arith, e) | inr h ↦ h ], (λ h. h, tt)) pair-IsOwned (λ e. cc) pair-own
      (λ e. ground (arith, sym pair_get ∙ e))

get-IsNext_example :
    (k : ℕ) × In k ring.keys
    × Ring.IsNext ring.keys (sum (codes "b")) k
    × (lookup ℕ_discrete k ring.hash_map ≡ some (ConsistentHash.get sum ring (codes "b")))
    × In (ConsistentHash.get sum ring (codes "b")) nodes
get-IsNext_example = Ring.get-IsNext sum ring nodes (codes "b") (omega arith) ring-IsOwned (λ e. cc)

-- A third node, with the hash 292, takes over the keys from 21 on.
get_after_add_example :
    (ConsistentHash.get sum (ConsistentHash.add sum ring (codes "z" ∷ [])) (codes "b") ≡ codes "z")
    ⊎ (ConsistentHash.get sum (ConsistentHash.add sum ring (codes "z" ∷ [])) (codes "b")
        ≡ ConsistentHash.get sum ring (codes "b"))
get_after_add_example =
    get_after_add sum ring nodes (codes "z") (codes "b") (omega arith) ring-IsOwned (λ e. cc)
