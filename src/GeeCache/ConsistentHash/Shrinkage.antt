-- ===== src/GeeCache/ConsistentHash/Shrinkage.antt =====
-- What the removal of a node changes: its own keys, and no others.
use days_project.Common.{
  ℕ, zero, suc, ◌≡◌, sym, ap, subst, ◌∙◌, ◌≢◌, inl, inr, List, [], ◌∷◌, ◌++◌, some, In, arith, Text,
  lookup, ℕ_discrete, eq_of_some, delete,
}
use days_project.GeeCache.ConsistentHash.{Map, remove_key, del_replicas, del, get, itoa}
use days_project.GeeCache.ConsistentHash.Ring.{IsSorted, IsOwned, IsNext, get-IsNext}
use days_project.GeeCache.ConsistentHash.Removal.{hashes, remove_key-cases, del-IsSorted}
use days_project.GeeCache.ConsistentHash.Growth.{IsNext-unique, IsNext-fewer}

-- No hash stands twice on the ring.
abbrev pub IsDistinct : List ℕ → Type 0
IsDistinct [] = Unit
IsDistinct (x ∷ xs) = (¬ In x xs) × IsDistinct xs

In-remove_key : (j h : ℕ) (ks : List ℕ) → In j (remove_key h ks) → In j ks
unfolding remove_key
In-remove_key j h [] i = i
In-remove_key j h (k ∷ ks) i = elim (remove_key-cases h k ks) [
  | inl e ↦ inr (subst (In j) e i)
  | inr e ↦ elim (subst (In j) e i) [ inl f ↦ inl f | inr f ↦ inr (In-remove_key j h ks f) ]
]

In-remove_key_self : (h : ℕ) (ks : List ℕ) → IsDistinct ks → ¬ In h (remove_key h ks)
unfolding remove_key
In-remove_key_self h [] d i = i
In-remove_key_self h (k ∷ ks) d i = elim (ℕ_discrete k h) [
  | yes e ↦ absurd (ground (arith, e, d, i))
  | no n ↦ absurd (ground (arith, n, i, In-remove_key_self h ks d.1))
]

remove_key-IsDistinct : (h : ℕ) (ks : List ℕ) → IsDistinct ks → IsDistinct (remove_key h ks)
unfolding remove_key
remove_key-IsDistinct h [] d = d
remove_key-IsDistinct h (k ∷ ks) d = elim (remove_key-cases h k ks) [
  | inl e ↦ subst IsDistinct (sym e) d.1
  | inr e ↦
      subst IsDistinct (sym e) (λ i. d.0 (In-remove_key k h ks i), remove_key-IsDistinct h ks d.1)
]

remove_key-In : (j h : ℕ) (ks : List ℕ) → h ≢ j → In j ks → In j (remove_key h ks)
unfolding remove_key
remove_key-In j h [] n i = i
remove_key-In j h (k ∷ ks) n i = ground (arith, remove_key-In j h ks n)

module _ (hash : Text → ℕ) where
  In-del_replicas :
      (j n i : ℕ) (node : Text) (m : Map)
      → IsDistinct m.keys
      → In j (del_replicas hash n i node m).keys
      → In j m.keys × (¬ In j (hashes hash n i node))
  unfolding del_replicas
  In-del_replicas j zero i node m d h = (h, λ e. e)
  In-del_replicas j (suc n) i node m d h =
      let x = hash (itoa i ++ node) in
      let (there, other) =
        In-del_replicas j n (suc i) node
          (record m { keys = remove_key x m.keys; hash_map = delete ℕ_discrete x m.hash_map })
          (remove_key-IsDistinct x m.keys d) h in
      (
        In-remove_key j x m.keys there,
        elim [
          | inl e ↦
              In-remove_key_self x m.keys d (subst (λ k. In k (remove_key x m.keys)) (sym e) there)
          | inr g ↦ other g
        ],
      )

  del_replicas-In :
      (j n i : ℕ) (node : Text) (m : Map)
      → (¬ In j (hashes hash n i node))
      → In j m.keys
      → In j (del_replicas hash n i node m).keys
  unfolding del_replicas
  del_replicas-In j zero i node m out h = h
  del_replicas-In j (suc n) i node m out h =
      del_replicas-In j n (suc i) node _ (λ g. out (inr g))
        (remove_key-In j (hash (itoa i ++ node)) m.keys (λ e. out (inl e)) h)

  -- On a sorted and owned ring without double hashes, where the node owns its own hashes, the removal
  -- of a node moves no key of another node.
  pub get_after_del :
      (m : Map) (nodes : List Text) (node key : Text)
      → IsSorted m.keys
      → IsDistinct m.keys
      → IsOwned m nodes
      → m.keys ≢ []
      → ((j : ℕ)
          → In j (hashes hash m.replicas 0 node)
          → lookup ℕ_discrete j m.hash_map ≡ some node)
      → get hash m key ≢ node
      → get hash (del hash m node) key ≡ get hash m key
  unfolding del
  get_after_del m nodes node key s d o full own other =
      let m' = del hash m node in
      let (sorted, gone, same) = del-IsSorted hash m node s in
      let (k, here, next, found, _) = get-IsNext hash m nodes key s o full in
      let apart : ¬ In k (hashes hash m.replicas 0 node) =
        λ h. other (eq_of_some (sym found ∙ own k h)) in
      let stays : In k m'.keys = del_replicas-In k m.replicas 0 node m apart here in
      let owned : IsOwned m' nodes = λ j h.
        let (old, out) = In-del_replicas j m.replicas 0 node m d h in
        let (x, has, listed) = o j old in (x, same j out ∙ has, listed) in
      let (k', here', next', found', _) =
        get-IsNext hash m' nodes key sorted owned (λ e. subst (In k) e stays) in
      let fewer : IsNext m'.keys (hash key) k =
        IsNext-fewer m'.keys m.keys (hash key) k
          (λ j h. (In-del_replicas j m.replicas 0 node m d h).0) next in
      let one : k' ≡ k = IsNext-unique m'.keys (hash key) k' k here' stays next' fewer in
      eq_of_some (sym found' ∙ ap (λ j. lookup ℕ_discrete j m'.hash_map) one ∙ same k apart ∙ found)
