-- ===== src/GeeCache/Lru/Evictions.antt =====
-- The calls of `OnEvicted` that an `Add` makes.
use days_project.Common.{
  ◌⊎◌, ℕ, zero, suc, ◌+◌, ◌^◌, ◌≤◌, ◌<◌, ◌≡◌, refl, sym, ap, ◌∙◌, subst, inl, inr, List, [], ◌∷◌,
  ◌++◌, some, Bool, true, false, arith, Text, Bool-cases, eq_of_some, if◌then◌else◌, length,
  Option-cases, lookup, text_dec,
}
use mathlib.Core.List.{append_assoc, append-nil, reverse, reverse-cons}
use days_project.GeeCache.Lru.{Cache, remove_oldest, store, over_budget, shrink, add, back}
use days_project.GeeCache.Lru.Elements.{total}
use days_project.GeeCache.Lru.Invariant.{weight, IsValid, remove_oldest-IsValid, store-IsValid}
use days_project.GeeCache.Lru.Eviction.{
  back_of_over_budget, remove_oldest_split, store_max, add-IsShrunk,
}
use days_project.GeeCache.Lru.View.{entry_at, entries, view, entries-append}
use days_project.GeeCache.Lru.Refinement.{store_refines}
use days_project.GeeCache.Lru.Spec

-- A log that got one entry and then more.
log-append :
    {A : Type 0} (on : Bool) (before gone : List A) (x : A)
    → (before ++ (if on then x ∷ [] else [])) ++ (if on then gone else [])
      ≡ before ++ (if on then x ∷ gone else [])
log-append true before gone x = append_assoc before (x ∷ []) gone
log-append false before gone x = append-nil (before ++ [])

module _ {V : Type 0} (size : V → ℕ) where
  -- One round of the loop logs the entry that it drops.
  remove_oldest-evicted :
      (c : Cache V) (i : ℕ)
      → back c.ll ≡ some i
      → ((remove_oldest size c).on_evicted ≡ c.on_evicted)
        × ((remove_oldest size c).evicted
            ≡ c.evicted ++ (if c.on_evicted then entry_at c.heap i ∷ [] else []))
  unfolding remove_oldest
  remove_oldest-evicted c i e = elim (Bool-cases c.on_evicted) [
    | inl on ↦ (rw (e, remove_oldest) refl, rw (e, remove_oldest) (ground (arith, on)))
    | inr off ↦ (
      rw (e, remove_oldest) refl,
      rw (e, remove_oldest) (ground (arith, off, append-nil c.evicted)),
    )
  ]

  -- The log of the entries that were dropped, in the order in which they stood from the back.
  abbrev pub Logged : Cache V → Cache V → Type 0
  Logged c d =
      (gone : List (Text × V)) × (view c ≡ view d ++ reverse gone)
      × (d.evicted ≡ c.evicted ++ (if c.on_evicted then gone else []))

  shrink-Logged :
      (fuel : ℕ) (c d : Cache V)
      → IsValid size c
      → c.max_bytes < 2 ^ 63
      → shrink size fuel c ≡ some d
      → Logged c d
  unfolding shrink
  shrink-Logged zero c d v sign ran = absurd (cc)
  shrink-Logged (suc fuel) c d v sign ran = elim (Bool-cases (over_budget size c)) [
    | inr fits ↦
        let same : c ≡ d = eq_of_some (rw (fits, shrink) at ran) in
        subst (Logged c) same ([], sym (append-nil (view c)), ground (arith, append-nil c.evicted))
    | inl over ↦
        let (i, e) = back_of_over_budget size c v sign over in
        let c' = remove_oldest size c in
        let (cut, shorter, heap, max) = remove_oldest_split size c i v e in
        let (on, logged) = remove_oldest-evicted c i e in
        let (gone, kept, log) =
          shrink-Logged fuel c' d (remove_oldest-IsValid size v) (omega (arith, max, sign))
            (rw (over, shrink) at ran) in
        let seen : view c ≡ view c' ++ entry_at c.heap i ∷ [] =
          ap (entries c.heap) cut
          ∙ entries-append c.heap c'.ll (i ∷ [])
          ∙ ap (λ h. entries h c'.ll ++ entry_at c.heap i ∷ []) (sym heap) in
        (
          entry_at c.heap i ∷ gone,
          seen
              ∙ ap (λ l. l ++ entry_at c.heap i ∷ []) kept
              ∙ append_assoc (view d) (reverse gone) (entry_at c.heap i ∷ [])
              ∙ ap (λ l. view d ++ l) (sym (reverse-cons (entry_at c.heap i) gone)),
          log
              ∙ ap (λ b. c'.evicted ++ (if b then gone else [])) on
              ∙ ap (λ l. l ++ (if c.on_evicted then gone else [])) logged
              ∙ log-append c.on_evicted c.evicted gone (entry_at c.heap i),
        )
  ]

  store-evicted :
      (c : Cache V) (key : Text) (value : V)
      → ((store size c key value).on_evicted ≡ c.on_evicted)
        × ((store size c key value).evicted ≡ c.evicted)
  unfolding store
  store-evicted c key value = elim (Option-cases (lookup text_dec key c.cache)) [
    | inl e ↦ rw (e, store) (refl, refl)
    | inr (i, e) ↦ rw (e, store) (refl, refl)
  ]

  -- `Add` returns within its budget, and with `OnEvicted` set has called it once for each entry that
  -- it dropped, from the one that was not used for the longest time on; what is left and what was
  -- dropped are the entries after the write. The budget is not negative, and the sizes add up to less
  -- than 2 ^ 63.
  pub add-evicted :
      (c : Cache V) (key : Text) (value : V)
      → IsValid size c
      → c.max_bytes < 2 ^ 63
      → total (weight size c.heap) c.ll + length key + size value < 2 ^ 63
      → (d : Cache V) × (gone : List (Text × V)) × (add size c key value ≡ some d)
        × ((c.max_bytes ≡ 0) ⊎ (d.nbytes ≤ c.max_bytes))
        × (Spec.store (view c) key value ≡ view d ++ reverse gone)
        × (d.evicted ≡ c.evicted ++ (if c.on_evicted then gone else []))
  unfolding add
  add-evicted c key value v sign room =
      let (d, ran, s) = add-IsShrunk size c key value v sign room in
      let c' = store size c key value in
      let max = store_max size c key value in
      let (on, log) = store-evicted c key value in
      let (gone, kept, logged) =
        shrink-Logged (suc (length c'.ll)) c' d (store-IsValid size v key value room)
          (omega (arith, max, sign)) ran in
      (
        d,
        gone,
        ran,
        rw max at s.within,
        sym (store_refines size c key value v) ∙ kept,
        logged
            ∙ ap (λ b. c'.evicted ++ (if b then gone else [])) on
            ∙ ap (λ l. l ++ (if c.on_evicted then gone else [])) log,
      )
