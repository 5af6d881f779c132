-- ===== src/GeeCache/Lru/Refinement.antt =====
-- The LRU cache with its pointers, list, map and byte count does what the list of entries does.
use days_project.Common.{
  ℕ, zero, suc, ◌+◌, ◌-◌, ◌^◌, ◌≤◌, ◌<◌, ◌≡◌, refl, sym, ap, ◌∙◌, subst, ◌≢◌, inl, inr, List, [],
  ◌∷◌, ◌++◌, none, some, true, false, length, arith, Text, text_dec, lookup, delete, GoMap, leb,
  Option-cases, Bool-cases, eq_of_some, if◌then◌else◌,
}
use days_project.GeeCache.Lru.{
  Entry, Cache, remove_elem, update, get, remove_oldest, store, over_budget, shrink, add,
}
use days_project.GeeCache.Lru.Elements.{
  total, ne_of_In-remove_elem, move_to_front_of_In, update_self, update_ne,
}
use days_project.GeeCache.Lru.Invariant.{
  weight, IsValid, key_unique, remove_oldest-IsValid, store-IsValid,
}
use days_project.GeeCache.Lru.Eviction.{
  back_of_over_budget, within_of_not_over, remove_oldest_split, store_max, add-IsShrunk,
}
use days_project.GeeCache.Lru.Spec
use days_project.GeeCache.Lru.View.{
  entry_at, entries, view, entries-append, entries_congr, absent, present,
}

module _ {V : Type 0} (size : V → ℕ) where
  -- What a key of the map shows of the entries.
  mapped_entry :
      (c : Cache V) (key : Text) (i : ℕ)
      → IsValid size c
      → lookup text_dec key c.cache ≡ some i
      → (lookup text_dec key (view c) ≡ some (c.heap i).value)
        × (delete text_dec key (view c) ≡ entries c.heap (remove_elem i c.ll))
  mapped_entry c key i v e =
      let (h, same) = v.mapped key i e in
      let (a, b) = present c.heap c.ll i v.distinct h (λ j g f. key_unique size v j i g h f) in
      (
        ap (λ k. lookup text_dec k (view c)) (sym same) ∙ a,
        ap (λ k. delete text_dec k (view c)) (sym same) ∙ b,
      )

  unmapped_entry :
      (c : Cache V) (key : Text)
      → IsValid size c
      → lookup text_dec key c.cache ≡ none
      → (lookup text_dec key (view c) ≡ none) × (delete text_dec key (view c) ≡ view c)
  unmapped_entry c key v e =
      absent c.heap c.ll key (λ i h f. cc (e, v.listed i h, ap (λ t. lookup text_dec t c.cache) f))

  -- `Get` does what the specification's `get` does, and gives the same value.
  pub get_refines :
      (c : Cache V) (key : Text)
      → IsValid size c
      → (view (get c key).0, (get c key).1) ≡ Spec.get (view c) key
  unfolding get Spec.get
  get_refines c key v = elim (Option-cases (lookup text_dec key c.cache)) [
    | inl e ↦
        let (a, b) = unmapped_entry c key v e in
        let spec : Spec.get (view c) key ≡ (view c, none) = ground (arith, a) in
        rw (e, get) (sym spec)
    | inr (i, e) ↦
        let (h, same) = v.mapped key i e in
        let (a, b) = mapped_entry c key i v e in
        let spec : Spec.get (view c) key
            ≡ ((key, (c.heap i).value) ∷ delete text_dec key (view c), some (c.heap i).value) =
          ground (arith, a) in
        let front : entries c.heap (i ∷ remove_elem i c.ll)
            ≡ (key, (c.heap i).value) ∷ delete text_dec key (view c) =
          ap (λ k. (k, (c.heap i).value) ∷ entries c.heap (remove_elem i c.ll)) same
          ∙ ap (◌∷◌ (key, (c.heap i).value)) (sym b) in
        rw (e, get, move_to_front_of_In i c.ll h)
          (ap (λ l. (l, some (c.heap i).value)) front ∙ sym spec)
  ]

  pub store_refines :
      (c : Cache V) (key : Text) (value : V)
      → IsValid size c
      → view (store size c key value) ≡ Spec.store (view c) key value
  unfolding store Spec.store
  store_refines c key value v = elim (Option-cases (lookup text_dec key c.cache)) [
    | inl e ↦
        let (a, b) = unmapped_entry c key v e in
        let new_heap = update c.heap c.fresh (record { key = key; value = value }) in
        let front : entry_at new_heap c.fresh ≡ (key, value) =
          ap (λ (x : Entry V). (x.key, x.value)) (update_self c.heap c.fresh _) in
        let rest : entries new_heap c.ll ≡ view c =
          entries_congr c.heap new_heap c.ll (λ j g.
            update_ne c.heap c.fresh _ j (λ p. absurd (omega (arith, v.allocated j g, p)))) in
        rw (e, store)
          (ap (λ x. x ∷ entries new_heap c.ll) front ∙ ap (◌∷◌ (key, value)) (rest ∙ sym b))
    | inr (i, e) ↦
        let (h, same) = v.mapped key i e in
        let (a, b) = mapped_entry c key i v e in
        let written : Entry V = record { key = (c.heap i).key; value = value } in
        let new_heap = update c.heap i written in
        let front : entry_at new_heap i ≡ (key, value) =
          ap (λ (x : Entry V). (x.key, x.value)) (update_self c.heap i written)
          ∙ ap (λ k. (k, value)) same in
        let rest : entries new_heap (remove_elem i c.ll) ≡ entries c.heap (remove_elem i c.ll) =
          entries_congr c.heap new_heap (remove_elem i c.ll) (λ j g.
            update_ne c.heap i written j
              (λ p. ne_of_In-remove_elem i j c.ll v.distinct g (sym p))) in
        rw (e, store, move_to_front_of_In i c.ll h)
          (ap (λ x. x ∷ entries new_heap (remove_elem i c.ll)) front
            ∙ ap (◌∷◌ (key, value)) (rest ∙ sym b))
  ]

  abbrev pub weigh : GoMap Text V → ℕ
  weigh [] = 0
  weigh (e ∷ l) = length e.0 + size e.1 + weigh l

  pub weigh-entries :
      (heap : ℕ → Entry V) (l : List ℕ) → weigh (entries heap l) ≡ total (weight size heap) l
  unfolding total
  weigh-entries heap [] = refl
  weigh-entries heap (i ∷ l) = omega (arith, weigh-entries heap l)

  fit_all : (budget : ℕ) (l : GoMap Text V) → weigh l ≤ budget → Spec.fit size budget l ≡ l
  unfolding Spec.fit
  fit_all budget [] h = refl
  fit_all budget (e ∷ l) h = ground (arith, fit_all (budget - (length e.0 + size e.1)) l)

  -- A last entry for which there is no room is left off.
  fit-snoc :
      (budget : ℕ) (l : GoMap Text V) (e : Text × V)
      → budget < weigh (l ++ e ∷ [])
      → Spec.fit size budget (l ++ e ∷ []) ≡ Spec.fit size budget l
  unfolding Spec.fit
  fit-snoc budget [] e h = ground arith
  fit-snoc budget (f ∷ l) e h = ground (arith, fit-snoc (budget - (length f.0 + size f.1)) l e)

  over_budget-lt :
      (c : Cache V)
      → IsValid size c
      → c.max_bytes < 2 ^ 63
      → over_budget size c ≡ true
      → (c.max_bytes ≢ 0) × (c.max_bytes < weigh (view c))
  unfolding over_budget
  over_budget-lt c v sign over = (
    ground (arith, over),
    ground (arith, over, v.counted, v.small, sign, weigh-entries c.heap c.ll),
  )

  shrink_refines :
      (fuel : ℕ) (c d : Cache V)
      → IsValid size c
      → c.max_bytes < 2 ^ 63
      → shrink size fuel c ≡ some d
      → view d ≡ (if leb c.max_bytes 0 then view c else Spec.fit size c.max_bytes (view c))
  unfolding shrink
  shrink_refines zero c d v sign ran = absurd (cc)
  shrink_refines (suc fuel) c d v sign ran = elim (Bool-cases (over_budget size c)) [
    | inr fits ↦
        let same : c ≡ d = eq_of_some (rw (fits, shrink) at ran) in
        let room = within_of_not_over size c v sign fits in
        let whole = fit_all c.max_bytes (view c) in
        ap view (sym same) ∙ ground (arith, room, whole, v.counted, weigh-entries c.heap c.ll)
    | inl over ↦
        let (i, e) = back_of_over_budget size c v sign over in
        let c' = remove_oldest size c in
        let (cut, shorter, heap, max) = remove_oldest_split size c i v e in
        let (bounded, heavy) = over_budget-lt c v sign over in
        let seen : view c ≡ view c' ++ entry_at c.heap i ∷ [] =
          ap (entries c.heap) cut
          ∙ entries-append c.heap c'.ll (i ∷ [])
          ∙ ap (λ h. entries h c'.ll ++ entry_at c.heap i ∷ []) (sym heap) in
        let shorter_fit : Spec.fit size c.max_bytes (view c) ≡ Spec.fit size c.max_bytes (view c') =
          ap (Spec.fit size c.max_bytes) seen
          ∙ fit-snoc c.max_bytes (view c') (entry_at c.heap i)
              (subst (λ l. c.max_bytes < weigh l) seen heavy) in
        let later =
          shrink_refines fuel c' d (remove_oldest-IsValid size v) (omega (arith, max))
            (rw (over, shrink) at ran) in
        let positive : leb c.max_bytes 0 ≡ false = ground (arith, bounded) in
        let kept : view d
            ≡ (if leb c.max_bytes 0 then view c' else Spec.fit size c.max_bytes (view c')) =
          later ∙ ap (λ b. if leb b 0 then view c' else Spec.fit size b (view c')) max in
        rw positive ((rw positive at kept) ∙ sym shorter_fit)
  ]

  -- `Add` returns, and does what the specification's `add` does: the entry stands in front, in place
  -- of an older one under its key, and of the list the longest part from the front is left that
  -- fits the budget; the budget stays. The budget is not negative, and the sizes add up to less than 2 ^ 63.
  pub add_refines :
      (c : Cache V) (key : Text) (value : V)
      → IsValid size c
      → c.max_bytes < 2 ^ 63
      → total (weight size c.heap) c.ll + length key + size value < 2 ^ 63
      → (d : Cache V) × (add size c key value ≡ some d)
        × IsValid size d
        × (d.max_bytes ≡ c.max_bytes)
        × (view d ≡ Spec.add size c.max_bytes (view c) key value)
  unfolding add Spec.add
  add_refines c key value v sign room =
      let (d, ran, s) = add-IsShrunk size c key value v sign room in
      let c' = store size c key value in
      let max = store_max size c key value in
      let shrunk =
        shrink_refines (suc (length c'.ll)) c' d (store-IsValid size v key value room)
          (omega (arith, max)) ran in
      let stored = store_refines c key value v in
      (
        d,
        ran,
        s.valid,
        s.same_max ∙ max,
        shrunk
            ∙ ap (λ b. if leb b 0 then view c' else Spec.fit size b (view c')) max
            ∙ ap (λ l. if leb c.max_bytes 0 then l else Spec.fit size c.max_bytes l) stored,
      )
