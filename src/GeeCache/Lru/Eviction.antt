-- ===== src/GeeCache/Lru/Eviction.antt =====
-- The loop of `Add`: it ends, keeps the invariant, meets the budget and evicts from the back.
use days_project.Common.{
  ℕ, zero, suc, ◌+◌, ◌^◌, ◌≤◌, ◌<◌, ◌≡◌, refl, sym, ap, ◌∙◌, ◌⊎◌, inl, inr, List, [], ◌∷◌, ◌++◌,
  none, some, true, false, length, arith, Text, Option-cases, Bool-cases,
}
use mathlib.Core.List.{append-nil, append_assoc}
use days_project.GeeCache.Lru.{Cache, back, remove_oldest, store, over_budget, shrink, add}
use days_project.GeeCache.Lru.Elements.{
  total, In-of_back, nil_of_back, remove_elem-back, length-remove_elem,
}
use days_project.GeeCache.Lru.Invariant.{weight, IsValid, remove_oldest-IsValid, store-IsValid}

module _ {V : Type 0} (size : V → ℕ) where
  -- `d` is `c` with elements of the back of the list gone, and within its budget.
  pub record IsShrunk (c d : Cache V) : Type 0 where
    pub valid : IsValid size d
    pub within : (c.max_bytes ≡ 0) ⊎ (d.nbytes ≤ c.max_bytes)
    pub gone : List ℕ
    pub split : c.ll ≡ d.ll ++ gone
    pub same_heap : d.heap ≡ c.heap
    pub same_max : d.max_bytes ≡ c.max_bytes

  -- With a budget that is not negative, a cache over it has an oldest element.
  pub back_of_over_budget :
      (c : Cache V)
      → IsValid size c
      → c.max_bytes < 2 ^ 63
      → over_budget size c ≡ true
      → (i : ℕ) × (back c.ll ≡ some i)
  unfolding over_budget total
  back_of_over_budget c v sign over = elim (Option-cases (back c.ll)) [
    | inl e ↦
        let empty : total (weight size c.heap) c.ll ≡ 0 =
          ap (total (weight size c.heap)) (nil_of_back c.ll e) in
        absurd (ground (arith, over, empty, v.counted, sign))
    | inr r ↦ r
  ]

  pub within_of_not_over :
      (c : Cache V)
      → IsValid size c
      → c.max_bytes < 2 ^ 63
      → over_budget size c ≡ false
      → (c.max_bytes ≡ 0) ⊎ (c.nbytes ≤ c.max_bytes)
  unfolding over_budget
  within_of_not_over c v sign over = ground (arith, v.counted, v.small)

  pub remove_oldest_split :
      (c : Cache V) (i : ℕ)
      → IsValid size c
      → back c.ll ≡ some i
      → (c.ll ≡ (remove_oldest size c).ll ++ i ∷ [])
        × (suc (length (remove_oldest size c).ll) ≡ length c.ll)
        × ((remove_oldest size c).heap ≡ c.heap)
        × ((remove_oldest size c).max_bytes ≡ c.max_bytes)
  unfolding remove_oldest
  remove_oldest_split c i v e =
      rw (e, remove_oldest)
        (
          remove_elem-back c.ll i v.distinct e,
          length-remove_elem i c.ll (In-of_back c.ll i e),
          refl,
          refl,
        )

  shrink-IsShrunk :
      (fuel : ℕ) (c : Cache V)
      → IsValid size c
      → c.max_bytes < 2 ^ 63
      → length c.ll < fuel
      → (d : Cache V) × (shrink size fuel c ≡ some d) × IsShrunk c d
  unfolding shrink
  shrink-IsShrunk zero c v sign enough = absurd (omega arith)
  shrink-IsShrunk (suc fuel) c v sign enough = elim (Bool-cases (over_budget size c)) [
    | inl over ↦
        let (i, e) = back_of_over_budget c v sign over in
        let (cut, shorter, heap, max) = remove_oldest_split c i v e in
        let (d, ran, s) =
          shrink-IsShrunk fuel (remove_oldest size c) (remove_oldest-IsValid size v) (omega arith)
            (omega arith) in
        (
          d,
          rw (over, shrink) ran,
          record {
            valid = s.valid;
            within = rw max at s.within;
            gone = s.gone ++ i ∷ [];
            split = cut ∙ ap (λ l. l ++ i ∷ []) s.split ∙ append_assoc d.ll s.gone (i ∷ []);
            same_heap = s.same_heap ∙ heap;
            same_max = s.same_max ∙ max;
          },
        )
    | inr fits ↦ (
      c,
      rw (fits, shrink) refl,
      record {
        valid = v;
        within = within_of_not_over c v sign fits;
        gone = [];
        split = sym (append-nil c.ll);
        same_heap = refl;
        same_max = refl;
      },
    )
  ]

  pub store_max :
      (c : Cache V) (key : Text) (value : V) → (store size c key value).max_bytes ≡ c.max_bytes
  unfolding store
  store_max c key value = ground arith

  pub remove_oldest_max : (c : Cache V) → (remove_oldest size c).max_bytes ≡ c.max_bytes
  unfolding remove_oldest
  remove_oldest_max c = ground arith

  pub remove_oldest-heap : (c : Cache V) → (remove_oldest size c).heap ≡ c.heap
  unfolding remove_oldest
  remove_oldest-heap c = ground arith

  -- `Add` returns; it keeps the invariant and the budget, and what it evicts stood at the back of
  -- the list that the new entry was stored in. The budget is not negative, and the sizes add up to
  -- less than 2 ^ 63.
  pub add-IsShrunk :
      (c : Cache V) (key : Text) (value : V)
      → IsValid size c
      → c.max_bytes < 2 ^ 63
      → total (weight size c.heap) c.ll + length key + size value < 2 ^ 63
      → (d : Cache V) × (add size c key value ≡ some d) × IsShrunk (store size c key value) d
  unfolding add
  add-IsShrunk c key value v sign room =
      shrink-IsShrunk (suc (length (store size c key value).ll)) (store size c key value)
        (store-IsValid size v key value room) (omega (arith, store_max c key value)) (omega arith)

  over_of_negative :
      (c : Cache V)
      → IsValid size c
      → 2 ^ 63 ≤ c.max_bytes
      → c.max_bytes < 2 ^ 64
      → over_budget size c ≡ true
  unfolding over_budget
  over_of_negative c v low high = ground (arith, v.counted, v.small)

  -- With a negative `maxBytes` the loop of `Add` never ends: from every state whose size fits, no
  -- number of rounds returns.
  pub shrink_negative :
      (fuel : ℕ) (c : Cache V)
      → IsValid size c
      → 2 ^ 63 ≤ c.max_bytes
      → c.max_bytes < 2 ^ 64
      → shrink size fuel c ≡ none
  unfolding shrink
  shrink_negative zero c v low high = refl
  shrink_negative (suc fuel) c v low high =
      let over : over_budget size c ≡ true = over_of_negative c v low high in
      rw (over, shrink)
        (shrink_negative fuel (remove_oldest size c) (remove_oldest-IsValid size v)
          (omega (arith, remove_oldest_max c)) (omega (arith, remove_oldest_max c)))
