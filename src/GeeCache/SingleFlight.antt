-- ===== src/GeeCache/SingleFlight.antt =====
-- geecache/singleflight/singleflight.go: `Group.Do` by any number of goroutines. A step runs from
-- one acquisition of `g.mu` to the next; `fn` and the wait are steps of their own.
pub mod Flights
pub mod Results
use days_project.Common.{
  ℕ, suc, ◌≡◌, List, [], ◌∷◌, Option, none, some, Bool, true, false, Text, text_dec, Result, GoMap,
  lookup, insert, delete, ite, ℕ_discrete,
}

-- `call`: `done` says that `wg` is down to 0.
pub record Call : Type 0 where
  pub done : Bool
  pub val : Option (Result Text)

-- Where a goroutine stands in `Do`, with its key and the number of its call.
pub data Pc : Type 0 where
  idle : Pc
  waiting : ℕ → Pc
  running : Text → ℕ → Pc
  deleting : Text → ℕ → Pc
  returned : Option (Result Text) → Pc

-- The group's map `m`, the calls that it points to, and the goroutines. `leader` and
-- `key` record who created a call and for which key; no step reads them.
pub record System : Type 0 where
  pub m : GoMap Text ℕ
  pub calls : ℕ → Call
  pub fresh : ℕ
  pub pc : ℕ → Pc
  pub leader : ℕ → ℕ
  pub key : ℕ → Text

abbrev pub update : {A : Type 0} → (ℕ → A) → ℕ → A → ℕ → A
update f i a j = ite (ℕ_discrete i j) a (f j)

abbrev pub start : System
start = record {
  m = [];
  calls = λ c. record { done = false; val = none };
  fresh = 0;
  pc = λ i. Pc.idle;
  leader = λ c. 0;
  key = λ c. [];
}

-- `if c, ok := g.m[key]; ok`: wait for the call that is in flight.
unfoldable pub join : System → ℕ → ℕ → System
join s i c = record s { pc = update s.pc i (Pc.waiting c) }

-- `c := new(call); c.wg.Add(1); g.m[key] = c`
unfoldable pub lead : System → ℕ → Text → System
lead s i k = record s {
  m = insert text_dec k s.fresh s.m;
  calls = update s.calls s.fresh (record { done = false; val = none });
  fresh = suc s.fresh;
  pc = update s.pc i (Pc.running k s.fresh);
  leader = update s.leader s.fresh i;
  key = update s.key s.fresh k;
}

-- `c.val, c.err = fn(); c.wg.Done()`
unfoldable pub finish : System → ℕ → Text → ℕ → Result Text → System
finish s i k c r = record s {
  calls = update s.calls c (record { done = true; val = some r });
  pc = update s.pc i (Pc.deleting k c);
}

-- `delete(g.m, key)` and the return
unfoldable pub leave : System → ℕ → Text → ℕ → System
leave s i k c = record s {
  m = delete text_dec k s.m;
  pc = update s.pc i (Pc.returned (s.calls c).val);
}

-- `c.wg.Wait()` returns, and so does `Do`.
unfoldable pub wake : System → ℕ → ℕ → System
wake s i c = record s { pc = update s.pc i (Pc.returned (s.calls c).val) }

-- What `fn` may give for a key
abbrev pub Fn : Type 1
Fn = Text → Result Text → Type 0

-- A goroutine takes a step; the scheduler chooses which, the program the keys, and `fn` the results.
pub data Step (fn : Fn) (s : System) : System → Type 0 where
  join_step :
      (i : ℕ) (k : Text) (c : ℕ)
      → s.pc i ≡ Pc.idle
      → lookup text_dec k s.m ≡ some c
      → Step fn s (join s i c)
  lead_step :
      (i : ℕ) (k : Text) → s.pc i ≡ Pc.idle → lookup text_dec k s.m ≡ none → Step fn s (lead s i k)
  finish_step :
      (i : ℕ) (k : Text) (c : ℕ) (r : Result Text)
      → s.pc i ≡ Pc.running k c
      → fn k r
      → Step fn s (finish s i k c r)
  leave_step : (i : ℕ) (k : Text) (c : ℕ) → s.pc i ≡ Pc.deleting k c → Step fn s (leave s i k c)
  wake_step :
      (i : ℕ) (c : ℕ) → s.pc i ≡ Pc.waiting c → (s.calls c).done ≡ true → Step fn s (wake s i c)

pub data Reach (fn : Fn) : System → Type 0 where
  here : Reach fn start
  next : {s t : System} → Reach fn s → Step fn s t → Reach fn t

-- Any number of steps.
pub data Steps (fn : Fn) (s : System) : System → Type 0 where
  stay : Steps fn s s
  step : {t u : System} → Steps fn s t → Step fn t u → Steps fn s u
