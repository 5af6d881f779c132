-- ===== src/GeeCache/Lru/Spec.antt =====
-- What the LRU cache promises: a list of entries with distinct keys, the one used last in front, cut
-- off at the back where the budget is used up.
use days_project.Common.{
  ℕ, List, ◌+◌, ◌-◌, [], ◌∷◌, Option, none, some, Text, text_dec, GoMap, lookup, delete, length,
  leb, if◌then◌else◌,
}

-- What a client asks of a cache.
pub data Request (V : Type 0) : Type 0 where
  read : Text → Request V
  write : Text → V → Request V

module _ {V : Type 0} where
  -- A read moves the entry to the front.
  unfoldable pub get : GoMap Text V → Text → GoMap Text V × Option V
  get l key = elim (lookup text_dec key l) [
    | none ↦ (l, none)
    | some value ↦ ((key, value) ∷ delete text_dec key l, some value)
  ]

  -- A write puts the entry in front, in place of an older one under its key.
  unfoldable pub store : GoMap Text V → Text → V → GoMap Text V
  store l key value = (key, value) ∷ delete text_dec key l

  -- The longest part from the front that fits the budget.
  unfoldable pub fit : (V → ℕ) → ℕ → GoMap Text V → GoMap Text V
  fit size budget [] = []
  fit size budget (e ∷ l) =
      let rest = fit size (budget - (length e.0 + size e.1)) l in
      if leb (length e.0 + size e.1) budget then e ∷ rest else []

  -- `budget` 0 means that there is no bound.
  unfoldable pub add : (V → ℕ) → ℕ → GoMap Text V → Text → V → GoMap Text V
  unfolding store fit
  add size budget l key value =
      if leb budget 0 then store l key value else fit size budget (store l key value)

  -- A history of requests: the entries at its end, and what the reads gave.
  unfoldable pub run :
      (V → ℕ) → ℕ → List (Request V) → GoMap Text V → GoMap Text V × List (Option V)
  run size budget [] l = (l, [])
  run size budget (read key ∷ rest) l =
      let (l', found) = get l key in
      let (m, replies) = run size budget rest l' in (m, found ∷ replies)
  run size budget (write key value ∷ rest) l = run size budget rest (add size budget l key value)
