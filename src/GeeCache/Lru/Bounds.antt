-- ===== src/GeeCache/Lru/Bounds.antt =====
-- `nbytes` over a history of Adds and Gets.
use days_project.Common.{
  ℕ, ◌+◌, ◌-◌, ◌^◌, ◌≤◌, ◌<◌, ◌≡◌, sym, ap, ◌∙◌, ◌⊎◌, inl, inr, List, [], ◌∷◌, Option, some, arith,
  Text, GoMap, length, ltb, Bool-cases,
}
use days_project.GeeCache.Lru.{Cache}
use days_project.GeeCache.Lru.Invariant.{IsValid}
use days_project.GeeCache.Lru.View.{view}
use days_project.GeeCache.Lru.Refinement.{weigh, weigh-entries}
use days_project.GeeCache.Lru.Spec
use days_project.GeeCache.Lru.Spec.{Request, read, write}
use days_project.GeeCache.Lru.Histories.{run, load, weigh-get, run_refines}

module _ {V : Type 0} (size : V → ℕ) where
  fit_within : (budget : ℕ) (l : GoMap Text V) → weigh size (Spec.fit size budget l) ≤ budget
  unfolding Spec.fit
  fit_within budget [] = omega arith
  fit_within budget (e ∷ l) = ground (arith, fit_within (budget - (length e.0 + size e.1)) l)

  add_within :
      (budget : ℕ) (l : GoMap Text V) (key : Text) (value : V)
      → 0 < budget
      → weigh size (Spec.add size budget l key value) ≤ budget
  unfolding Spec.add
  add_within budget l key value positive =
      ground (arith, positive, fit_within budget (Spec.store l key value))

  run_within :
      (budget : ℕ) (rs : List (Request V)) (l : GoMap Text V)
      → 0 < budget
      → weigh size l ≤ budget
      → weigh size (Spec.run size budget rs l).0 ≤ budget
  unfolding Spec.run
  run_within budget [] l positive fits = fits
  run_within budget (read key ∷ rest) l positive fits =
      run_within budget rest (Spec.get l key).0 positive (omega (arith, fits, weigh-get size l key))
  run_within budget (write key value ∷ rest) l positive fits =
      run_within budget rest (Spec.add size budget l key value) positive
        (add_within budget l key value positive)

  -- Over a history of Gets and Adds the signed 64-bit count `nbytes` does not wrap: at its end, it is
  -- the size of the keys and values of the entries, less than 2 ^ 63, and within the budget, if there
  -- is one. The budget is not negative, the cache is within it at first, and what is in the cache and
  -- what is written add up to less than 2 ^ 63.
  pub run-nbytes :
      (rs : List (Request V)) (c : Cache V)
      → IsValid size c
      → c.max_bytes < 2 ^ 63
      → weigh size (view c) + load size rs < 2 ^ 63
      → (c.max_bytes ≡ 0) ⊎ (c.nbytes ≤ c.max_bytes)
      → (d : Cache V) × (replies : List (Option V)) × (run size rs c ≡ some (d, replies))
        × (d.nbytes ≡ weigh size (view d))
        × (d.nbytes < 2 ^ 63)
        × ((c.max_bytes ≡ 0) ⊎ (d.nbytes ≤ c.max_bytes))
  run-nbytes rs c v sign room within =
      let (d, replies, ran, valid, same) = run_refines size rs c v sign room in
      let exact : d.nbytes ≡ weigh size (view d) =
        valid.counted ∙ sym (weigh-entries size d.heap d.ll) in
      (
        d,
        replies,
        ran,
        exact,
        omega (arith, valid.counted, valid.small),
        elim within [
          | inl none_set ↦ inl none_set
          | inr le ↦ elim (Bool-cases (ltb 0 c.max_bytes)) [
            | inl positive ↦
                let start : weigh size (view c) ≤ c.max_bytes =
                  omega (arith, le, v.counted, weigh-entries size c.heap c.ll) in
                let fits = run_within c.max_bytes rs (view c) (ground (arith, positive)) start in
                inr (omega (arith, exact, ap (λ p. weigh size p.0) same, fits))
            | inr zero_set ↦ inl (ground (arith, zero_set))
          ]
        ],
      )
