-- ===== src/GeeWeb/Context.antt =====
-- geeweb/gee/context.go: `Next`, which runs the handlers of a request, with panics and `Recovery` of
-- recovery.go. A handler is a program over a state `S` that it shares with the others: the request,
-- the response and all else.
pub mod Order
use days_project.Common.{
  ℕ, zero, suc, ◌+◌, List, [], ◌∷◌, Option, none, some, Bool, true, false, get_elem?, leb,
  if◌then◌else◌,
}

-- How a call ends.
pub data Ending : Type 0 where
  finished panicking : Ending

-- `HandlerFunc`, by what the program does first: it returns, panics, changes the state, branches on
-- it, or calls `Next`; or it is a body with a deferred function that recovers from a panic, and may
-- panic itself.
pub data HandlerFunc (S : Type 0) : Type 0 where
  returned panics : HandlerFunc S
  act : (S → S) → HandlerFunc S → HandlerFunc S
  test : (S → Bool) → HandlerFunc S → HandlerFunc S → HandlerFunc S
  call_next : HandlerFunc S → HandlerFunc S
  deferred : (S → Ending × S) → HandlerFunc S → HandlerFunc S

-- `Context`. The source's `index` begins at -1: `next_index` is `index + 1`. The indices of the
-- handlers that were called are recorded in `started`, the newest first.
pub record Context (S : Type 0) : Type 0 where
  pub next_index : ℕ
  pub started : List ℕ
  pub state : S

-- The slice `pcs[:n]` of `trace` in recovery.go: `n` is a program counter, 0 where there is no caller;
-- the array has 32 elements. What `trace` prints is left out.
unfoldable pub trace : ℕ → Ending
trace n = if leb n 32 then finished else panicking

module _ {S : Type 0} where
  -- `newContext`
  unfoldable pub new_context : S → Context S
  new_context s = record { next_index = 0; started = []; state = s }

  -- `c.index++`
  unfoldable pub advance : Context S → Context S
  advance c = record c { next_index = suc c.next_index }

  -- `Recovery`, where `pc` is the program counter that `runtime.Caller(3)` gives in `trace`.
  unfoldable pub recovery : ℕ → HandlerFunc S
  unfolding trace
  recovery pc = deferred (λ s. (trace pc, s)) (call_next returned)

  -- The end of a body with a deferred function, which is called at a panic.
  unfoldable pub recover_with :
      (S → Ending × S) → Option (Ending × Context S) → Option (Ending × Context S)
  recover_with f none = none
  recover_with f (some (finished, c)) = some (finished, c)
  recover_with f (some (panicking, c)) =
      let (ending, s) = f c.state in some (ending, record c { state = s })

  -- What follows a call, unless it panics.
  abbrev pub and_then :
      (Context S → Option (Ending × Context S))
      → Option (Ending × Context S)
      → Option (Ending × Context S)
  and_then f none = none
  and_then f (some (finished, c)) = f c
  and_then f (some (panicking, c)) = some (panicking, c)

  -- A call of a handler, where `next` is the method that it may call.
  unfoldable pub run :
      (Context S → Option (Ending × Context S))
      → HandlerFunc S
      → Context S
      → Option (Ending × Context S)
  run next returned c = some (finished, c)
  run next panics c = some (panicking, c)
  run next (act f rest) c = run next rest (record c { state = f c.state })
  run next (test p then_part else_part) c = elim (p c.state) [
    | true ↦ run next then_part c
    | false ↦ run next else_part c
  ]
  run next (call_next rest) c = and_then (run next rest) (next c)
  run next (deferred f body) c = recover_with f (run next body c)

  -- The loop of `Next` with `index = i`, on fuel: `none` when the fuel runs out.
  unfoldable pub run_from : ℕ → List (HandlerFunc S) → ℕ → Context S → Option (Ending × Context S)
  run_from zero handlers i c = none
  run_from (suc fuel) handlers i c = elim (get_elem? handlers i) [
    | none ↦ some (finished, c)
    | some h ↦
        and_then (λ d. run_from fuel handlers d.next_index (advance d))
          (run (λ d. run_from fuel handlers d.next_index (advance d)) h
            (record c { started = i ∷ c.started }))
  ]

  -- `Next`
  unfoldable pub next : ℕ → List (HandlerFunc S) → Context S → Option (Ending × Context S)
  next fuel handlers c = run_from fuel handlers c.next_index (advance c)
