-- ===== src/GeeCache/SingleFlight/Flights.antt =====
-- One call in flight for a key, and what the goroutines that wait for it get.
use days_project.Common.{
  ℕ, ◌<◌, ◌≡◌, ◌⊎◌, inl, inr, some, Text, text_dec, lookup, lookup-insert, lookup-delete, arith,
}
use days_project.GeeCache.SingleFlight.{
  Fn, Pc, System, start, join, lead, finish, leave, wake, Step, join_step, lead_step, finish_step,
  leave_step, wake_step, Reach, here, next,
}

-- The goroutine is between `g.m[key] = c` and `delete(g.m, key)`.
abbrev pub Holds : Pc → Text → ℕ → Type 0
Holds p k c = (p ≡ Pc.running k c) ⊎ (p ≡ Pc.deleting k c)

-- Who holds a key has its call in the map and created it.
pub record IsSafe (s : System) : Type 0 where
  pub held :
      (i : ℕ) (k : Text) (c : ℕ)
      → Holds (s.pc i) k c
      → (lookup text_dec k s.m ≡ some c) × (s.leader c ≡ i) × (c < s.fresh)
  pub known : (k : Text) (c : ℕ) → lookup text_dec k s.m ≡ some c → c < s.fresh

start-IsSafe : IsSafe start
unfolding lookup
start-IsSafe = record { held = λ i k c h. absurd (ground arith); known = λ k c e. absurd (cc) }

Step-IsSafe : {fn : Fn} {s t : System} → Step fn s t → IsSafe s → IsSafe t
unfolding join lead finish leave wake
Step-IsSafe {s} (join_step i k c free found) v = record {
  held = λ j q d h. ground (arith, v.held j q d);
  known = v.known;
}
Step-IsSafe {s} (lead_step i k free fresh) v = record {
  held = λ j q d h. ground (arith, v.held j q d, lookup-insert text_dec q k s.fresh s.m);
  known = λ q d e. ground (arith, v.known q d, lookup-insert text_dec q k s.fresh s.m);
}
Step-IsSafe {s} (finish_step i k c r runs given) v = record {
  held = λ j q d h. ground (arith, v.held j q d, v.held i k c (inl runs));
  known = v.known;
}
Step-IsSafe {s} (leave_step i k c stops) v = record {
  held = λ j q d h.
      ground (arith, v.held j q d, v.held i k c (inr stops), lookup-delete text_dec q k s.m);
  known = λ q d e. ground (arith, v.known q d, lookup-delete text_dec q k s.m);
}
Step-IsSafe {s} (wake_step i c waits done) v = record {
  held = λ j q d h. ground (arith, v.held j q d);
  known = v.known;
}

pub Reach-IsSafe : {fn : Fn} {s : System} → Reach fn s → IsSafe s
Reach-IsSafe here = start-IsSafe
Reach-IsSafe (next r st) = Step-IsSafe st (Reach-IsSafe r)

-- In every reachable state, two goroutines that hold one key (they run its `fn`, or have yet to
-- delete its call) are the same, and hold the same call.
pub one_flight :
    {fn : Fn} {s : System} (i j : ℕ) (k : Text) (c d : ℕ)
    → Reach fn s
    → Holds (s.pc i) k c
    → Holds (s.pc j) k d
    → (i ≡ j) × (c ≡ d)
one_flight i j k c d r hi hj =
    let v = Reach-IsSafe r in
    let (found, leads, _) = v.held i k c hi in
    let (found', leads', _) = v.held j k d hj in
    let same : c ≡ d = cc (found, found') in (cc (leads, leads', same), same)
