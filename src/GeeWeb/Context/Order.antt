-- ===== src/GeeWeb/Context/Order.antt =====
-- The order in which `Next` calls the handlers of a chain.
use days_project.Common.{
  ℕ, zero, suc, ◌+◌, ◌<◌, ◌≤◌, ◌≡◌, refl, ap, ◌∙◌, ◌⊎◌, inl, inr, List, [], ◌∷◌, Option, none, some,
  length, get_elem?, arith, Bool-cases,
}
use days_project.GeeWeb.Context.{
  panics, deferred, Ending, finished, panicking, recover_with, recovery, trace, and_then,
  HandlerFunc, returned, act, test, call_next, Context, new_context, advance, run, run_from, next,
}

-- The indices below `n`, the greatest first.
unfoldable pub below : ℕ → List ℕ
below zero = []
below (suc n) = n ∷ below n

get_elem?-cases :
    {A : Type 0} (xs : List A) (i : ℕ)
    → ((length xs ≤ i) × (get_elem? xs i ≡ none))
      ⊎ ((i < length xs) × ((x : A) × (get_elem? xs i ≡ some x)))
get_elem?-cases [] i = inl (omega arith, refl)
get_elem?-cases (x ∷ xs) zero = inr (omega arith, (x, refl))
get_elem?-cases (x ∷ xs) (suc i) = elim (get_elem?-cases xs i) [
  | inl (past, e) ↦ inl (omega (arith, past), e)
  | inr (lt, (y, e)) ↦ inr (omega (arith, lt), (y, e))
]

module _ {S : Type 0} where
  -- The handlers below `next_index` have been called, each once and in order; where `next_index` is
  -- past the end, all of them.
  Inv : ℕ → Context S → Type 0
  Inv len c =
      (m : ℕ) × (c.started ≡ below m)
      × (((m ≡ c.next_index) × (m ≤ len)) ⊎ ((m ≡ len) × (len < c.next_index)))

  Ends : ℕ → ℕ → Option (Ending × Context S) → Type 0
  Ends len low r =
      (ending : Ending) × (d : Context S) × (r ≡ some (ending, d))
      × Inv len d
      × (low ≤ d.next_index)

  recover_with-Ends :
      (len low : ℕ) (f : S → Ending × S) (r : Option (Ending × Context S))
      → Ends len low r
      → Ends len low (recover_with f r)
  unfolding recover_with Inv Ends
  recover_with-Ends len low f r (finished, d, e, v, le) = (finished, d, rw e refl, v, le)
  recover_with-Ends len low f r (panicking, d, e, v, le) =
      ((f d.state).0, record d { state = (f d.state).1 }, rw e refl, v, le)

  and_then-Ends :
      (len low : ℕ) (f : Context S → Option (Ending × Context S)) (r : Option (Ending × Context S))
      → Ends len low r
      → ((d : Context S) → Inv len d → low ≤ d.next_index → Ends len low (f d))
      → Ends len low (and_then f r)
  unfolding Ends
  and_then-Ends len low f r (finished, d, e, v, le) more = rw e (more d v le)
  and_then-Ends len low f r (panicking, d, e, v, le) more = (panicking, d, rw e refl, v, le)

  run-Ends :
      (len low : ℕ) (nx : Context S → Option (Ending × Context S))
      → ((c : Context S) → Inv len c → low ≤ c.next_index → Ends len low (nx c))
      → (h : HandlerFunc S) (c : Context S) → Inv len c
      → low ≤ c.next_index
      → Ends len low (run nx h c)
  unfolding run Inv Ends
  run-Ends len low nx hyp returned c v le = (finished, c, refl, v, le)
  run-Ends len low nx hyp panics c v le = (panicking, c, refl, v, le)
  run-Ends len low nx hyp (act f rest) c v le =
      run-Ends len low nx hyp rest (record c { state = f c.state }) v le
  run-Ends len low nx hyp (test p then_part else_part) c v le = elim (Bool-cases (p c.state)) [
    | inl e ↦ rw e (run-Ends len low nx hyp then_part c v le)
    | inr e ↦ rw e (run-Ends len low nx hyp else_part c v le)
  ]
  run-Ends len low nx hyp (call_next rest) c v le =
      and_then-Ends len low (run nx rest) (nx c) (hyp c v le)
        (λ d w up. run-Ends len low nx hyp rest d w up)
  run-Ends len low nx hyp (deferred f body) c v le =
      recover_with-Ends len low f (run nx body c) (run-Ends len low nx hyp body c v le)

  -- The context in which the handler at `next_index` is called.
  unfoldable pub called : Context S → Context S
  called c = record c { next_index = suc c.next_index; started = c.next_index ∷ c.started }

  called-Inv : (len : ℕ) (c : Context S) → c.next_index < len → Inv len c → Inv len (called c)
  unfolding Inv called below
  called-Inv len c lt (m, e, inl (same, le)) =
      (suc c.next_index, rw (e, same) refl, inl (refl, omega (arith, lt)))
  called-Inv len c lt (m, e, inr (same, past)) = absurd (omega (arith, lt, past))

  advance-Inv : (len : ℕ) (c : Context S) → len ≤ c.next_index → Inv len c → Inv len (advance c)
  unfolding Inv advance
  advance-Inv len c le (m, e, inl (same, above)) =
      (m, e, inr (omega (arith, same, above, le), omega (arith, le)))
  advance-Inv len c le (m, e, inr (same, past)) = (m, e, inr (same, omega (arith, past)))

  -- Where no panic ends the loop, it ends behind the last handler.
  Passes : List (HandlerFunc S) → Context S → Option (Ending × Context S) → Type 0
  Passes hs c r =
      (ending : Ending) × (d : Context S) × (r ≡ some (ending, d))
      × Inv (length hs) d
      × (suc c.next_index ≤ d.next_index)
      × (ending ≡ finished → length hs < d.next_index)

  and_then-Passes :
      (hs : List (HandlerFunc S)) (c : Context S) (f : Context S → Option (Ending × Context S))
      (r : Option (Ending × Context S))
      → Ends (length hs) (suc c.next_index) r
      → ((d : Context S) → Inv (length hs) d → suc c.next_index ≤ d.next_index → Passes hs c (f d))
      → Passes hs c (and_then f r)
  unfolding Ends Passes
  and_then-Passes hs c f r (finished, d, e, v, le) more = rw e (more d v le)
  and_then-Passes hs c f r (panicking, d, e, v, le) more =
      (panicking, d, rw e refl, v, le, λ g. absurd (cc))

  next-Passes :
      (fuel : ℕ) (hs : List (HandlerFunc S)) (c : Context S)
      → 0 < fuel
      → length hs < c.next_index + fuel
      → Inv (length hs) c
      → Passes hs c (next fuel hs c)
  unfolding run_from next Passes advance called Ends
  next-Passes zero hs c pos enough v = absurd (omega (arith, pos))
  next-Passes (suc fuel) hs c pos enough v = elim (get_elem?-cases hs c.next_index) [
    | inl (past, e) ↦ (
      finished,
      advance c,
      rw (e, run_from) refl,
      advance-Inv (length hs) c past v,
      omega arith,
      λ f. omega (arith, past),
    )
    | inr (lt, (h, e)) ↦
        let went =
          run-Ends (length hs) (suc c.next_index) (next fuel hs)
            (λ b u low.
              let (ending, b', r, u', up, all) =
                next-Passes fuel hs b (omega (arith, lt, enough)) (omega (arith, enough, low)) u in
              (ending, b', r, u', omega (arith, low, up)))
            h (called c) (called-Inv (length hs) c lt v) (omega arith) in
        rw (e, run_from)
          (and_then-Passes hs c (next fuel hs) (run (next fuel hs) h (called c)) went (λ d w le.
            let (ending, d', r, w', up, all) =
              next-Passes fuel hs d (omega (arith, lt, enough)) (omega (arith, enough, le)) w in
            (ending, d', r, w', omega (arith, le, up), all)))
  ]

  -- The first call of `Next`, with one more unit of fuel than there are handlers, ends. However often
  -- the handlers call `Next` themselves, and whatever panics they raise and recover from, the handlers
  -- called are the first ones of the chain, each exactly once and in order; and they are all of them,
  -- those behind a handler that panicked too, unless a panic leaves `Next`.
  pub next-new_context :
      (hs : List (HandlerFunc S)) (s : S)
      → (ending : Ending) × (d : Context S) × (next (suc (length hs)) hs (new_context s)
          ≡ some (ending, d))
        × ((m : ℕ) × (m ≤ length hs) × (d.started ≡ below m))
        × (ending ≡ finished → d.started ≡ below (length hs))
  unfolding Passes Inv new_context below
  next-new_context hs s =
      let (ending, d, r, (m, e, where_), up, all) =
        next-Passes (suc (length hs)) hs (new_context s) (omega arith) (omega arith)
          (0, refl, inl (refl, omega arith)) in
      elim where_ [
        | inl (same, le) ↦ (ending, d, r, (m, le, e), λ f. absurd (omega (arith, same, le, all f)))
        | inr (same, past) ↦ (ending, d, r, (m, omega (arith, same), e), λ f. e ∙ ap below same)
      ]

  -- `Recovery` in front of a chain does not stop a panic, where `trace` finds a caller: the rest of the
  -- chain, called by `Next`, panics, and then the first `Next` does, in the same context.
  pub recovery_repanics :
      (pc fuel : ℕ) (hs : List (HandlerFunc S)) (s : S) (d : Context S)
      → 32 < pc
      → next fuel (recovery pc ∷ hs) (called (new_context s)) ≡ some (panicking, d)
      → next (suc fuel) (recovery pc ∷ hs) (new_context s) ≡ some (panicking, d)
  unfolding next run_from new_context called advance recovery run recover_with trace
  recovery_repanics pc fuel hs s d high went = ground (arith, high, went)
