-- ===== src/GeeCache/ConsistentHash/Growth.antt =====
-- What another node changes: the keys that it takes over, and no others.
use days_project.Common.{
  ℕ, zero, suc, ◌≡◌, refl, sym, ap, subst, ◌∙◌, ◌≢◌, ◌⊎◌, inl, inr, List, [], ◌∷◌, ◌++◌, some, In,
  arith, Text, lookup, leb, Bool-cases, ℕ_discrete, lookup-insert, eq_of_some, insert,
}
use days_project.GeeCache.ConsistentHash.{
  Map, insert_sorted, sort_ints, add_replicas, add_keys, add, get, itoa,
}
use days_project.GeeCache.ConsistentHash.Ring.{
  IsSorted, IsOwned, IsNext, In-append, In-sort_ints, add-IsSorted, get-IsNext,
}

insert_sorted-In : (k x : ℕ) (ys : List ℕ) → (x ≡ k) ⊎ In k ys → In k (insert_sorted x ys)
unfolding insert_sorted
insert_sorted-In k x [] h = h
insert_sorted-In k x (y ∷ ys) h = elim (Bool-cases (leb x y)) [
  | inl e ↦ rw e h
  | inr e ↦ rw e (elim h [
    | inl g ↦ inr (insert_sorted-In k x ys (inl g))
    | inr (inl g) ↦ inl g
    | inr (inr g) ↦ inr (insert_sorted-In k x ys (inr g))
  ])
]

sort_ints-In : (k : ℕ) (xs : List ℕ) → In k xs → In k (sort_ints xs)
unfolding sort_ints
sort_ints-In k [] h = h
sort_ints-In k (x ∷ xs) (inl e) = insert_sorted-In k x (sort_ints xs) (inl e)
sort_ints-In k (x ∷ xs) (inr h) = insert_sorted-In k x (sort_ints xs) (inr (sort_ints-In k xs h))

append-In : (k : ℕ) (xs ys : List ℕ) → In k xs → In k (xs ++ ys)
append-In k [] ys h = absurd h
append-In k (x ∷ xs) ys (inl e) = inl e
append-In k (x ∷ xs) ys (inr h) = inr (append-In k xs ys h)

-- There is one next key.
pub IsNext-unique :
    (keys : List ℕ) (h j k : ℕ) → In j keys → In k keys → IsNext keys h j → IsNext keys h k → j ≡ k
IsNext-unique keys h j k ij ik (inl (a, b)) (inl (c, d)) = omega (arith, b k ik c, d j ij a)
IsNext-unique keys h j k ij ik (inl (a, b)) (inr (c, d)) = absurd (omega (arith, c j ij, a))
IsNext-unique keys h j k ij ik (inr (a, b)) (inl (c, d)) = absurd (omega (arith, a k ik, c))
IsNext-unique keys h j k ij ik (inr (a, b)) (inr (c, d)) = omega (arith, b k ik, d j ij)

-- It stays the next one where there are fewer keys.
pub IsNext-fewer :
    (keys more : List ℕ) (h k : ℕ)
    → ((j : ℕ) → In j keys → In j more)
    → IsNext more h k
    → IsNext keys h k
IsNext-fewer keys more h k all (inl (a, b)) = inl (a, λ j i. b j (all j i))
IsNext-fewer keys more h k all (inr (a, b)) = inr (λ j i. a j (all j i), λ j i. b j (all j i))

-- The hash belongs to the new node, or it belonged to the ring and its owner is the same.
abbrev pub Grown : Text → Map → Map → ℕ → Type 0
Grown node m m' j =
    (lookup ℕ_discrete j m'.hash_map ≡ some node)
    ⊎ ((lookup ℕ_discrete j m'.hash_map ≡ lookup ℕ_discrete j m.hash_map)
        × (In j m'.keys → In j m.keys))

module _ (hash : Text → ℕ) where
  add_replicas-Grown :
      (n i : ℕ) (node : Text) (m : Map) (j : ℕ) → Grown node m (add_replicas hash n i node m) j
  unfolding add_replicas
  add_replicas-Grown zero i node m j = inr (refl, λ h. h)
  add_replicas-Grown (suc n) i node m j =
      let h = hash (itoa i ++ node) in
      let m' : Map = record m {
        keys = m.keys ++ h ∷ [];
        hash_map = insert ℕ_discrete h node m.hash_map;
      } in
      let known = lookup-insert ℕ_discrete j h node m.hash_map in
      elim (add_replicas-Grown n (suc i) node m' j) [
        | inl e ↦ inl e
        | inr (same, old) ↦ elim (ℕ_discrete j h) [
          | yes p ↦ inl (same ∙ ground (arith, p, known))
          | no p ↦ inr (
            same ∙ ground (arith, p, known),
            λ g. elim (In-append j m.keys (h ∷ []) (old g)) [
              | inl f ↦ f
              | inr (inl f) ↦ absurd (p (sym f))
              | inr (inr f) ↦ absurd f
            ],
          )
        ]
      ]

  add_replicas-In :
      (n i : ℕ) (node : Text) (m : Map) (j : ℕ)
      → In j m.keys
      → In j (add_replicas hash n i node m).keys
  unfolding add_replicas
  add_replicas-In zero i node m j h = h
  add_replicas-In (suc n) i node m j h =
      add_replicas-In n (suc i) node _ j (append-In j m.keys (hash (itoa i ++ node) ∷ []) h)

  -- A node that is added to a sorted and owned ring takes keys over, and changes nothing else: each
  -- key goes to the new node or stays where it was, whatever the hash function does.
  pub get_after_add :
      (m : Map) (nodes : List Text) (node key : Text)
      → IsSorted m.keys
      → IsOwned m nodes
      → m.keys ≢ []
      → (get hash (add hash m (node ∷ [])) key ≡ node)
        ⊎ (get hash (add hash m (node ∷ [])) key ≡ get hash m key)
  unfolding add add_keys
  get_after_add m nodes node key s o full =
      let m' = add hash m (node ∷ []) in
      let grown = add_replicas hash m.replicas 0 node m in
      let more : (j : ℕ) → In j m.keys → In j m'.keys =
        λ j h. sort_ints-In j grown.keys (add_replicas-In m.replicas 0 node m j h) in
      let (sorted, owned) =
        add-IsSorted hash m (node ∷ []) (node ∷ nodes)
          (λ x. elim [ inl e ↦ inl e | inr z ↦ absurd z ])
          (λ k h. let (x, found, listed) = o k h in (x, found, inr listed)) in
      let (k, here, next, found, _) = get-IsNext hash m nodes key s o full in
      let some_key : m'.keys ≢ [] = λ e. subst (In k) e (more k here) in
      let (k', here', next', found', _) =
        get-IsNext hash m' (node ∷ nodes) key sorted owned some_key in
      elim (add_replicas-Grown m.replicas 0 node m k') [
        | inl e ↦ inl (eq_of_some (sym found' ∙ e))
        | inr (same, old) ↦
            let was = old (In-sort_ints k' grown.keys here') in
            let one : k ≡ k' =
              IsNext-unique m.keys (hash key) k k' here was next
                (IsNext-fewer m.keys m'.keys (hash key) k' more next') in
            inr (
              eq_of_some
                (sym found' ∙ same ∙ ap (λ j. lookup ℕ_discrete j m.hash_map) (sym one) ∙ found))
      ]
