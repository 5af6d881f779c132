-- ===== src/GeeCache/Lru/Reads.antt =====
-- What a Get finds, after another Get and after an Add.
use days_project.Common.{
  ℕ, zero, suc, ◌+◌, ◌^◌, ◌≤◌, ◌<◌, ◌≡◌, refl, sym, ap, ◌∙◌, subst, ◌⊎◌, inl, inr, List, [], ◌∷◌,
  some, false, length, arith, Text, Option-cases, Bool-cases, eq_of_some, if_neg, ℕ_discrete, In,
  lookup, text_dec,
}
use days_project.GeeCache.Lru.{
  Entry, Cache, remove_elem, back, get, remove_oldest, store, over_budget, shrink, add,
}
use days_project.GeeCache.Lru.Elements.{
  Distinct, total, update_self, move_to_front_of_In, In-of_back, nil_of_back,
}
use days_project.GeeCache.Lru.Invariant.{
  weight, IsValid, get-IsValid, remove_oldest-IsValid, store-IsValid,
}
use days_project.GeeCache.Lru.Eviction.{
  store_max, remove_oldest_max, add-IsShrunk, remove_oldest-heap,
}

module _ {V : Type 0} (size : V → ℕ) where
  -- A read finds what any read before it would have found, whatever was read in between, and
  -- keeps the invariant.
  pub get-get :
      (c : Cache V) (k j : Text)
      → IsValid size c
      → IsValid size (get c k).0 × ((get (get c k).0 j).1 ≡ (get c j).1)
  unfolding get
  get-get c k j v = (get-IsValid size v k, ground arith)

  Fits : Cache V → ℕ → Type 0
  Fits c i = (c.max_bytes ≡ 0) ⊎ (weight size c.heap i ≤ c.max_bytes)

  remove_oldest-Fits : (c : Cache V) (i : ℕ) → Fits c i → Fits (remove_oldest size c) i
  unfolding Fits
  remove_oldest-Fits c i fits = rw (remove_oldest_max size c, remove_oldest-heap size c) fits

  not_over_of_single :
      (c : Cache V) (i : ℕ)
      → IsValid size c
      → c.ll ≡ i ∷ []
      → Fits c i
      → c.max_bytes < 2 ^ 63
      → over_budget size c ≡ false
  unfolding over_budget total Fits
  not_over_of_single c i v front fits sign =
      let alone : total (weight size c.heap) c.ll ≡ weight size c.heap i + 0 =
        ap (total (weight size c.heap)) front in
      ground (arith, v.counted, v.small, alone)

  -- The oldest of at least two elements is not the one at the front.
  remove_oldest_front :
      (c : Cache V) (i k : ℕ) (rest : List ℕ)
      → IsValid size c
      → c.ll ≡ i ∷ k ∷ rest
      → (rest' : List ℕ) × ((remove_oldest size c).ll ≡ i ∷ rest')
  unfolding remove_oldest remove_elem back
  remove_oldest_front c i k rest v front = elim (Option-cases (back c.ll)) [
    | inl e ↦ absurd (cc (nil_of_back c.ll e))
    | inr (j, e) ↦
        let two : Distinct (i ∷ k ∷ rest) = subst Distinct front v.distinct in
        let last : In j (k ∷ rest) = In-of_back (k ∷ rest) j (ap back (sym front) ∙ e) in
        (
          remove_elem j (k ∷ rest),
          rw (e, remove_oldest)
              (ap (remove_elem j) front
                ∙ if_neg (ℕ_discrete j i) (λ p. two.0 (subst (λ t. In t (k ∷ rest)) p last)) _ _),
        )
  ]

  -- A loop that starts with an entry at the front that fits the budget by itself keeps it there.
  shrink_front :
      (fuel : ℕ) (c d : Cache V) (i : ℕ) (rest : List ℕ)
      → IsValid size c
      → c.ll ≡ i ∷ rest
      → Fits c i
      → c.max_bytes < 2 ^ 63
      → shrink size fuel c ≡ some d
      → (rest' : List ℕ) × (d.ll ≡ i ∷ rest')
  unfolding shrink
  shrink_front zero c d i rest v front fits sign ran = absurd (cc)
  shrink_front (suc fuel) c d i [] v front fits sign ran = (
    [],
    ap (λ (t : Cache V). t.ll)
          (sym (eq_of_some (rw (not_over_of_single c i v front fits sign, shrink) at ran)))
        ∙ front,
  )
  shrink_front (suc fuel) c d i (k ∷ rest) v front fits sign ran =
      elim (Bool-cases (over_budget size c)) [
        | inr stop ↦ (
          k ∷ rest,
          ap (λ (t : Cache V). t.ll) (sym (eq_of_some (rw (stop, shrink) at ran))) ∙ front,
        )
        | inl over ↦
            let (rest', front') = remove_oldest_front c i k rest v front in
            shrink_front fuel (remove_oldest size c) d i rest' (remove_oldest-IsValid size v) front'
              (remove_oldest-Fits c i fits) (omega (arith, remove_oldest_max size c))
              (rw (over, shrink) at ran)
      ]

  store_front :
      (c : Cache V) (key : Text) (value : V)
      → IsValid size c
      → (i : ℕ) × (rest : List ℕ) × ((store size c key value).ll ≡ i ∷ rest)
        × ((store size c key value).heap i ≡ record { key = key; value = value })
  unfolding store
  store_front c key value v = elim (Option-cases (lookup text_dec key c.cache)) [
    | inl e ↦ (c.fresh, c.ll, rw (e, store), rw (e, store) (update_self c.heap c.fresh _))
    | inr (i, e) ↦
        let (h, same) = v.mapped key i e in
        (
          i,
          remove_elem i c.ll,
          rw (e, store) (move_to_front_of_In i c.ll h),
          rw (e, store) (update_self c.heap i _ ∙ ap (λ t. record { key = t; value = value }) same),
        )
  ]

  -- A `Get` right after an `Add` finds the value, if the entry by itself fits the budget (or there
  -- is none); the budget is not negative, and the sizes add up to less than 2 ^ 63.
  pub get-add :
      (c : Cache V) (key : Text) (value : V)
      → IsValid size c
      → c.max_bytes < 2 ^ 63
      → total (weight size c.heap) c.ll + length key + size value < 2 ^ 63
      → (c.max_bytes ≡ 0) ⊎ (length key + size value ≤ c.max_bytes)
      → (d : Cache V) × (add size c key value ≡ some d) × ((get d key).1 ≡ some value)
  unfolding get Fits add
  get-add c key value v sign room fits =
      let (d, ran, s) = add-IsShrunk size c key value v sign room in
      let (i, rest, front, stored) = store_front c key value v in
      let (rest', kept) =
        shrink_front (suc (length (store size c key value).ll)) (store size c key value) d i rest
          (store-IsValid size v key value room) front
          (omega (
            arith,
            store_max size c key value,
            ap (λ (e : Entry V). length e.key + size e.value) stored,
            fits,
          ))
          (omega (arith, store_max size c key value)) ran in
      let read : d.heap i ≡ record { key = key; value = value } =
        ap (λ h. h i) s.same_heap ∙ stored in
      let found : lookup text_dec key d.cache ≡ some i =
        ap (λ (e : Entry V). lookup text_dec e.key d.cache) (sym read)
        ∙ s.valid.listed i (subst (In i) (sym kept) (inl refl)) in
      (d, ran, rw (found, get) (ap (λ (e : Entry V). some e.value) read))
