-- ===== src/GeeCache/ConsistentHash/Ring.antt =====
-- The ring's keys stay sorted and owned, and a lookup goes clockwise to the next owner.
use days_project.Common.{
  ℕ, zero, suc, ◌%◌, ◌≤◌, ◌<◌, ◌≡◌, refl, sym, ap, subst, ◌∙◌, ◌≢◌, ◌⊎◌, inl, inr, List, [], ◌∷◌,
  ◌++◌, some, In, All, length, get_elem?, arith, Text, lookup, leb, Bool-cases, ℕ_discrete,
  lookup-insert, leb→le,
}
use native.Mathlib.Nat.{mod-eq_of_lt, mod_self}
use days_project.GeeCache.ConsistentHash.{
  Map, insert_sorted, sort_ints, search, add_replicas, add_keys, add, owner_at, get, itoa,
}

abbrev pub IsSorted : List ℕ → Type 0
IsSorted [] = Unit
IsSorted (x ∷ xs) = All (λ y. x ≤ y) xs × IsSorted xs

All-le_trans : (x y : ℕ) (ys : List ℕ) → x ≤ y → All (λ z. y ≤ z) ys → All (λ z. x ≤ z) ys
All-le_trans x y [] h all = tt
All-le_trans x y (z ∷ ys) h all = (omega arith, All-le_trans x y ys h all.1)

All-insert_sorted :
    (P : ℕ → Type 0) (x : ℕ) (ys : List ℕ) → P x → All P ys → All P (insert_sorted x ys)
unfolding insert_sorted
All-insert_sorted P x [] h all = (h, tt)
All-insert_sorted P x (y ∷ ys) h all = elim (Bool-cases (leb x y)) [
  | inl e ↦ rw e (h, all)
  | inr e ↦ rw e (all.0, All-insert_sorted P x ys h all.1)
]

insert_sorted-IsSorted : (x : ℕ) (ys : List ℕ) → IsSorted ys → IsSorted (insert_sorted x ys)
unfolding insert_sorted
insert_sorted-IsSorted x [] s = (tt, tt)
insert_sorted-IsSorted x (y ∷ ys) s = elim (Bool-cases (leb x y)) [
  | inl e ↦ rw e ((leb→le x y e, All-le_trans x y ys (leb→le x y e) s.0), s)
  | inr e ↦
      rw e (All-insert_sorted (λ z. y ≤ z) x ys (ground arith) s.0, insert_sorted-IsSorted x ys s.1)
]

pub sort_ints-IsSorted : (xs : List ℕ) → IsSorted (sort_ints xs)
unfolding sort_ints
sort_ints-IsSorted [] = tt
sort_ints-IsSorted (x ∷ xs) = insert_sorted-IsSorted x (sort_ints xs) (sort_ints-IsSorted xs)

In-insert_sorted : (k x : ℕ) (ys : List ℕ) → In k (insert_sorted x ys) → (x ≡ k) ⊎ In k ys
unfolding insert_sorted
In-insert_sorted k x [] h = h
In-insert_sorted k x (y ∷ ys) h = elim (Bool-cases (leb x y)) [
  | inl e ↦ rw e at h
  | inr e ↦ elim (rw e at h) [
    | inl g ↦ inr (inl g)
    | inr g ↦ elim (In-insert_sorted k x ys g) [ inl f ↦ inl f | inr f ↦ inr (inr f) ]
  ]
]

pub In-sort_ints : (k : ℕ) (xs : List ℕ) → In k (sort_ints xs) → In k xs
unfolding sort_ints
In-sort_ints k [] h = h
In-sort_ints k (x ∷ xs) h = elim (In-insert_sorted k x (sort_ints xs) h) [
  | inl e ↦ inl e
  | inr g ↦ inr (In-sort_ints k xs g)
]

pub In-append : {A : Type 0} (k : A) (xs ys : List A) → In k (xs ++ ys) → In k xs ⊎ In k ys
In-append k [] ys h = inr h
In-append k (x ∷ xs) ys (inl e) = inl (inl e)
In-append k (x ∷ xs) ys (inr h) = elim (In-append k xs ys h) [ inl g ↦ inl (inr g) | inr g ↦ inr g ]

In-of_get_elem? : {A : Type 0} (xs : List A) (i : ℕ) (a : A) → get_elem? xs i ≡ some a → In a xs
In-of_get_elem? [] i a e = absurd (cc)
In-of_get_elem? (x ∷ xs) zero a e = inl (cc)
In-of_get_elem? (x ∷ xs) (suc i) a e = inr (In-of_get_elem? xs i a e)

-- Every hash on the ring has an owner among the nodes.
abbrev pub IsOwned : Map → List Text → Type 0
IsOwned m nodes =
    (k : ℕ)
    → In k m.keys
    → (node : Text) × (lookup ℕ_discrete k m.hash_map ≡ some node) × In node nodes

-- `k` is the next key clockwise from `h`: the least that is at least `h`, or the least of all
-- where none is.
abbrev pub IsNext : List ℕ → ℕ → ℕ → Type 0
IsNext keys h k =
    ((h ≤ k) × ((j : ℕ) → In j keys → h ≤ j → k ≤ j))
    ⊎ (((j : ℕ) → In j keys → j < h) × ((j : ℕ) → In j keys → k ≤ j))

le_of_In : (x j : ℕ) (ys : List ℕ) → All (λ y. x ≤ y) ys → In j ys → x ≤ j
le_of_In x j [] all h = absurd h
le_of_In x j (y ∷ ys) all (inl e) = omega arith
le_of_In x j (y ∷ ys) all (inr h) = le_of_In x j ys all.1 h

first_least :
    (keys : List ℕ)
    → IsSorted keys
    → keys ≢ []
    → (k : ℕ) × (get_elem? keys 0 ≡ some k) × ((j : ℕ) → In j keys → k ≤ j) × (length keys ≢ 0)
first_least [] s full = absurd (full refl)
first_least (x ∷ xs) s full =
    (x, refl, λ j. elim [ inl p ↦ omega arith | inr i ↦ le_of_In x j xs s.0 i ], omega arith)

-- No key is at least `h`, or the index is that of the least such key.
search_first :
    (keys : List ℕ) (h : ℕ)
    → IsSorted keys
    → ((search keys h ≡ length keys) × ((j : ℕ) → In j keys → j < h))
      ⊎ ((k : ℕ) × (search keys h < length keys)
          × (get_elem? keys (search keys h) ≡ some k)
          × (h ≤ k)
          × ((j : ℕ) → In j keys → h ≤ j → k ≤ j))
unfolding search
search_first [] h s = inl (refl, λ j i. absurd i)
search_first (x ∷ xs) h s = elim (Bool-cases (leb h x)) [
  | inl e ↦ inr (
    x,
    rw e (omega arith),
    rw e,
    leb→le h x e,
    λ j. elim [ inl p ↦ λ g. omega arith | inr i ↦ λ g. le_of_In x j xs s.0 i ],
  )
  | inr e ↦ elim (search_first xs h s.1) [
    | inl (last, below) ↦
        inl (rw e (ap suc last), λ j. elim [ inl p ↦ ground arith | inr i ↦ below j i ])
    | inr (k, range, found, above, least) ↦ inr (
      k,
      rw e (omega arith),
      rw e found,
      above,
      λ j. elim [ inl p ↦ λ g. absurd (ground arith) | inr i ↦ least j i ],
    )
  ]
]

module _ (hash : Text → ℕ) where
  add_replicas-IsOwned :
      (n i : ℕ) (key : Text) (m : Map) (nodes : List Text)
      → In key nodes
      → IsOwned m nodes
      → IsOwned (add_replicas hash n i key m) nodes
  unfolding add_replicas
  add_replicas-IsOwned zero i key m nodes here o = o
  add_replicas-IsOwned (suc n) i key m nodes here o =
      add_replicas-IsOwned n (suc i) key _ nodes here (λ k h.
        elim (ℕ_discrete k (hash (itoa i ++ key))) [
          | yes p ↦ (
            key,
            ground (arith, p, lookup-insert ℕ_discrete k (hash (itoa i ++ key)) key m.hash_map),
            here,
          )
          | no p ↦ elim (In-append k m.keys (hash (itoa i ++ key) ∷ []) h) [
            | inl g ↦
                let (node, found, listed) = o k g in
                (
                  node,
                  ground (
                    arith,
                    p,
                    found,
                    lookup-insert ℕ_discrete k (hash (itoa i ++ key)) key m.hash_map,
                  ),
                  listed,
                )
            | inr (inl e) ↦ absurd (p (sym e))
            | inr (inr z) ↦ absurd z
          ]
        ])

  add_keys-IsOwned :
      (keys : List Text) (m : Map) (nodes : List Text)
      → ((key : Text) → In key keys → In key nodes)
      → IsOwned m nodes
      → IsOwned (add_keys hash keys m) nodes
  unfolding add_keys
  add_keys-IsOwned [] m nodes all o = o
  add_keys-IsOwned (key ∷ keys) m nodes all o =
      add_keys-IsOwned keys _ nodes (λ k h. all k (inr h))
        (add_replicas-IsOwned m.replicas 0 key m nodes (all key (inl refl)) o)

  -- `Add` leaves the ring sorted, and every hash on it owned by one of the nodes, if that held
  -- before and the nodes include the new ones.
  pub add-IsSorted :
      (m : Map) (keys nodes : List Text)
      → ((key : Text) → In key keys → In key nodes)
      → IsOwned m nodes
      → IsSorted (add hash m keys).keys × IsOwned (add hash m keys) nodes
  unfolding add
  add-IsSorted m keys nodes all o = (
    sort_ints-IsSorted (add_keys hash keys m).keys,
    λ k h. add_keys-IsOwned keys m nodes all o k (In-sort_ints k (add_keys hash keys m).keys h),
  )

  -- What `Get` returns once the index is known.
  get_of_index :
      (m : Map) (nodes : List Text) (key : Text) (i k : ℕ)
      → IsOwned m nodes
      → length m.keys ≢ 0
      → search m.keys (hash key) % length m.keys ≡ i
      → get_elem? m.keys i ≡ some k
      → (lookup ℕ_discrete k m.hash_map ≡ some (get hash m key)) × In (get hash m key) nodes
  unfolding get owner_at
  get_of_index m nodes key i k o full e found =
      let (node, owned, listed) = o k (In-of_get_elem? m.keys i k found) in
      let result : get hash m key ≡ node = ground (arith, e, found, owned, full) in
      (owned ∙ ap some (sym result), subst (λ t. In t nodes) (sym result) listed)

  -- On a ring that is sorted, owned and not empty, `Get` returns the node, one of the nodes given,
  -- that owns the next hash clockwise from the key's.
  pub get-IsNext :
      (m : Map) (nodes : List Text) (key : Text)
      → IsSorted m.keys
      → IsOwned m nodes
      → m.keys ≢ []
      → (k : ℕ) × In k m.keys
        × IsNext m.keys (hash key) k
        × (lookup ℕ_discrete k m.hash_map ≡ some (get hash m key))
        × In (get hash m key) nodes
  get-IsNext m nodes key s o full =
      let (first, at_zero, least, filled) = first_least m.keys s full in
      elim (search_first m.keys (hash key) s) [
        | inl (last, below) ↦
            let (owned, listed) =
              get_of_index m nodes key 0 first o filled (rw last (mod_self _)) at_zero in
            (first, In-of_get_elem? m.keys 0 first at_zero, inr (below, least), owned, listed)
        | inr (k, range, found, above, next) ↦
            let (owned, listed) =
              get_of_index m nodes key (search m.keys (hash key)) k o filled (mod-eq_of_lt range)
                found in
            (k, In-of_get_elem? m.keys _ k found, inl (above, next), owned, listed)
      ]
