-- ===== src/GeeCache/Lru/Histories.antt =====
-- Histories of Adds and Gets on an LRU cache.
use days_project.Common.{
  ℕ, ◌+◌, ◌-◌, ◌^◌, ◌≤◌, ◌<◌, ◌≡◌, refl, ap, ◌∙◌, inl, inr, List, [], ◌∷◌, Option, some, arith,
  Text, text_dec, lookup, delete, GoMap, length, Option-cases, ◌>>=◌,
}
use days_project.GeeCache.Lru.{Cache, get, add}
use days_project.GeeCache.Lru.Invariant.{IsValid, get-IsValid}
use days_project.GeeCache.Lru.View.{view}
use days_project.GeeCache.Lru.Refinement.{weigh, weigh-entries, get_refines, add_refines}
use days_project.GeeCache.Lru.Spec
use days_project.GeeCache.Lru.Spec.{Request, read, write}

module _ {V : Type 0} (size : V → ℕ) where
  -- The calls of a client one after the other; `none` means that a loop of `Add` did not end.
  unfoldable pub run : List (Request V) → Cache V → Option (Cache V × List (Option V))
  run [] c = some (c, [])
  run (read key ∷ rest) c = do
    let (c', found) = get c key
    (d, replies) ← run rest c'
    some (d, found ∷ replies)
  run (write key value ∷ rest) c = do c' ← add size c key value; run rest c'

  -- What the writes of a history add up to.
  abbrev pub load : List (Request V) → ℕ
  load [] = 0
  load (read key ∷ rest) = load rest
  load (write key value ∷ rest) = length key + size value + load rest

  weigh-delete : (key : Text) (l : GoMap Text V) → weigh size (delete text_dec key l) ≤ weigh size l
  unfolding delete
  weigh-delete key [] = ground arith
  weigh-delete key (e ∷ l) = ground (arith, weigh-delete key l)

  weigh_of_lookup :
      (key : Text) (l : GoMap Text V) (value : V)
      → lookup text_dec key l ≡ some value
      → length key + size value + weigh size (delete text_dec key l) ≤ weigh size l
  unfolding delete lookup
  weigh_of_lookup key [] value e = absurd (cc)
  weigh_of_lookup key (x ∷ l) value e =
      ground (arith, weigh_of_lookup key l value, weigh-delete key l, e)

  pub weigh-fit :
      (budget : ℕ) (l : GoMap Text V) → weigh size (Spec.fit size budget l) ≤ weigh size l
  unfolding Spec.fit
  weigh-fit budget [] = ground arith
  weigh-fit budget (e ∷ l) = ground (arith, weigh-fit (budget - (length e.0 + size e.1)) l)

  pub weigh-get : (l : GoMap Text V) (key : Text) → weigh size (Spec.get l key).0 ≤ weigh size l
  unfolding Spec.get
  weigh-get l key = elim (Option-cases (lookup text_dec key l)) [
    | inl e ↦ ground (arith, e)
    | inr (value, e) ↦ ground (arith, e, weigh_of_lookup key l value e)
  ]

  weigh-add :
      (budget : ℕ) (l : GoMap Text V) (key : Text) (value : V)
      → weigh size (Spec.add size budget l key value) ≤ length key + size value + weigh size l
  unfolding Spec.add Spec.store
  weigh-add budget l key value =
      ground (arith, weigh-fit budget (Spec.store l key value), weigh-delete key l)

  get_max : (c : Cache V) (key : Text) → (get c key).0.max_bytes ≡ c.max_bytes
  unfolding get
  get_max c key = elim (Option-cases (lookup text_dec key c.cache)) [
    | inl e ↦ rw (e, get) refl
    | inr (i, e) ↦ rw (e, get) refl
  ]

  -- A history of Gets and Adds returns, and gives what the same history gives on the list of entries,
  -- each reply and the entries at the end. The budget is not negative, and what is in the cache and
  -- what is written add up to less than 2 ^ 63.
  pub run_refines :
      (rs : List (Request V)) (c : Cache V)
      → IsValid size c
      → c.max_bytes < 2 ^ 63
      → weigh size (view c) + load rs < 2 ^ 63
      → (d : Cache V) × (replies : List (Option V)) × (run rs c ≡ some (d, replies))
        × IsValid size d
        × ((view d, replies) ≡ Spec.run size c.max_bytes rs (view c))
  unfolding run Spec.run
  run_refines [] c v sign room = (c, [], refl, v, refl)
  run_refines (read key ∷ rest) c v sign room =
      let c' = (get c key).0 in
      let seen = get_refines size c key v in
      let max = get_max c key in
      let entries_seen : view c' ≡ (Spec.get (view c) key).0 = ap (λ p. p.0) seen in
      let light = weigh-get (view c) key in
      let fits : weigh size (view c') + load rest < 2 ^ 63 =
        omega (arith, ap (weigh size) entries_seen, light, room) in
      let (d, replies, ran, valid, same) =
        run_refines rest c' (get-IsValid size v key) (omega (arith, max, sign)) fits in
      (
        d,
        (get c key).1 ∷ replies,
        ap (λ o. o >>= λ p. some (p.0, (get c key).1 ∷ p.1)) ran,
        valid,
        ap (λ p. (p.0, (get c key).1 ∷ p.1)) (same ∙ ap (λ b. Spec.run size b rest (view c')) max)
            ∙ ap
                (λ (p : GoMap Text V × Option V).
                  let (m, later) = Spec.run size c.max_bytes rest p.0 in (m, p.1 ∷ later))
                seen,
      )
  run_refines (write key value ∷ rest) c v sign room =
      let counted = weigh-entries size c.heap c.ll in
      let (c', added, valid, max, seen) =
        add_refines size c key value v sign (omega (arith, counted, room)) in
      let light = weigh-add c.max_bytes (view c) key value in
      let fits : weigh size (view c') + load rest < 2 ^ 63 =
        omega (arith, ap (weigh size) seen, light, room) in
      let (d, replies, ran, valid', same) =
        run_refines rest c' valid (omega (arith, max, sign)) fits in
      (
        d,
        replies,
        ap (λ o. o >>= run rest) added ∙ ran,
        valid',
        same
            ∙ ap (λ b. Spec.run size b rest (view c')) max
            ∙ ap (Spec.run size c.max_bytes rest) seen,
      )
