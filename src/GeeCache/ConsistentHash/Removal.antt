-- ===== src/GeeCache/ConsistentHash/Removal.antt =====
-- `Del` of geecache/consistenthash/consistenthash.go: what it leaves in the ring and in the map.
use days_project.Common.{
  ℕ, zero, suc, ◌≤◌, ◌≡◌, refl, sym, subst, ◌∙◌, ◌⊎◌, inl, inr, List, [], ◌∷◌, ◌++◌, none, lookup,
  Text, delete, lookup-delete_self, lookup-delete_ne, All, In, arith, ℕ_discrete,
}
use days_project.GeeCache.ConsistentHash.{Map, itoa, remove_key, del_replicas, del}
use days_project.GeeCache.ConsistentHash.Ring.{IsSorted}

pub remove_key-cases :
    (h k : ℕ) (ks : List ℕ)
    → (remove_key h (k ∷ ks) ≡ ks) ⊎ (remove_key h (k ∷ ks) ≡ k ∷ remove_key h ks)
unfolding remove_key
remove_key-cases h k ks = elim (ℕ_discrete k h) [
  | yes e ↦ inl (ground (arith, e))
  | no n ↦ inr (ground (arith, n))
]

All-remove_key : (x h : ℕ) (ks : List ℕ) → All (λ k. x ≤ k) ks → All (λ k. x ≤ k) (remove_key h ks)
unfolding remove_key
All-remove_key x h [] a = a
All-remove_key x h (k ∷ ks) a = elim (remove_key-cases h k ks) [
  | inl e ↦ subst (All (λ j. x ≤ j)) (sym e) a.1
  | inr e ↦ subst (All (λ j. x ≤ j)) (sym e) (a.0, All-remove_key x h ks a.1)
]

remove_key-IsSorted : (h : ℕ) (ks : List ℕ) → IsSorted ks → IsSorted (remove_key h ks)
unfolding remove_key
remove_key-IsSorted h [] s = s
remove_key-IsSorted h (k ∷ ks) s = elim (remove_key-cases h k ks) [
  | inl e ↦ subst IsSorted (sym e) s.1
  | inr e ↦ subst IsSorted (sym e) (All-remove_key k h ks s.0, remove_key-IsSorted h ks s.1)
]

module _ (hash : Text → ℕ) where
  -- The hashes of the `n` virtual nodes of `key` from the one with the number `i` on.
  abbrev pub hashes : ℕ → ℕ → Text → List ℕ
  hashes zero i key = []
  hashes (suc n) i key = hash (itoa i ++ key) ∷ hashes n (suc i) key

  del_replicas-IsSorted :
      (n i : ℕ) (key : Text) (m : Map)
      → IsSorted m.keys
      → IsSorted (del_replicas hash n i key m).keys
  unfolding del_replicas
  del_replicas-IsSorted zero i key m s = s
  del_replicas-IsSorted (suc n) i key m s =
      let h = hash (itoa i ++ key) in
      del_replicas-IsSorted n (suc i) key
        (record m { keys = remove_key h m.keys; hash_map = delete ℕ_discrete h m.hash_map })
        (remove_key-IsSorted h m.keys s)

  del_replicas_other :
      (j n i : ℕ) (key : Text) (m : Map)
      → ¬ (In j (hashes n i key))
      → lookup ℕ_discrete j (del_replicas hash n i key m).hash_map ≡ lookup ℕ_discrete j m.hash_map
  unfolding del_replicas
  del_replicas_other j zero i key m out = refl
  del_replicas_other j (suc n) i key m out =
      let h = hash (itoa i ++ key) in
      del_replicas_other j n (suc i) key
        (record m { keys = remove_key h m.keys; hash_map = delete ℕ_discrete h m.hash_map })
        (λ k. out (inr k))
      ∙ lookup-delete_ne ℕ_discrete j h m.hash_map (λ e. out (inl (sym e)))

  del_replicas_gone :
      (j n i : ℕ) (key : Text) (m : Map)
      → lookup ℕ_discrete j m.hash_map ≡ none
      → lookup ℕ_discrete j (del_replicas hash n i key m).hash_map ≡ none
  unfolding del_replicas
  del_replicas_gone j zero i key m e = e
  del_replicas_gone j (suc n) i key m e =
      let h = hash (itoa i ++ key) in
      del_replicas_gone j n (suc i) key
        (record m { keys = remove_key h m.keys; hash_map = delete ℕ_discrete h m.hash_map })
        (ground (
          arith,
          lookup-delete_ne ℕ_discrete j h m.hash_map,
          lookup-delete_self ℕ_discrete j h m.hash_map,
          e,
        ))

  del_replicas_own :
      (j n i : ℕ) (key : Text) (m : Map)
      → In j (hashes n i key)
      → lookup ℕ_discrete j (del_replicas hash n i key m).hash_map ≡ none
  unfolding del_replicas
  del_replicas_own j zero i key m h = absurd h
  del_replicas_own j (suc n) i key m (inl e) =
      let h = hash (itoa i ++ key) in
      del_replicas_gone j n (suc i) key
        (record m { keys = remove_key h m.keys; hash_map = delete ℕ_discrete h m.hash_map })
        (lookup-delete_self ℕ_discrete j h m.hash_map (sym e))
  del_replicas_own j (suc n) i key m (inr later) =
      let h = hash (itoa i ++ key) in
      del_replicas_own j n (suc i) key
        (record m { keys = remove_key h m.keys; hash_map = delete ℕ_discrete h m.hash_map }) later

  -- `Del` keeps a sorted ring sorted. After it no virtual node of the key has an owner, and every
  -- other hash has the owner that it had before.
  pub del-IsSorted :
      (m : Map) (key : Text)
      → IsSorted m.keys
      → IsSorted (del hash m key).keys
        × ((j : ℕ)
            → In j (hashes m.replicas 0 key)
            → lookup ℕ_discrete j (del hash m key).hash_map ≡ none)
        × ((j : ℕ)
            → ¬ (In j (hashes m.replicas 0 key))
            → lookup ℕ_discrete j (del hash m key).hash_map ≡ lookup ℕ_discrete j m.hash_map)
  unfolding del
  del-IsSorted m key s = (
    del_replicas-IsSorted m.replicas 0 key m s,
    λ j own. del_replicas_own j m.replicas 0 key m own,
    λ j other. del_replicas_other j m.replicas 0 key m other,
  )
