-- ===== src/GeeCache/SingleFlight/Results.antt =====
-- What the goroutines that share a call return.
use days_project.Common.{
  ◌∙◌, refl, sym, ap, subst, ℕ_discrete, Option, some, Result, ℕ, ◌<◌, ◌≡◌, ◌⊎◌, inl, inr, true,
  false, Text, arith,
}
use days_project.GeeCache.SingleFlight.{
  Fn, Pc, System, start, join, lead, finish, leave, wake, Step, join_step, lead_step, finish_step,
  leave_step, wake_step, Reach, here, next, Steps, stay, step,
}
use days_project.GeeCache.SingleFlight.Flights.{Holds, IsSafe, Reach-IsSafe}

-- A call is done exactly when its `fn` has returned.
pub record IsSettled (s : System) : Type 0 where
  pub running : (i : ℕ) (k : Text) (c : ℕ) → s.pc i ≡ Pc.running k c → (s.calls c).done ≡ false
  pub deleting : (i : ℕ) (k : Text) (c : ℕ) → s.pc i ≡ Pc.deleting k c → (s.calls c).done ≡ true
  pub keyed : (i : ℕ) (k : Text) (c : ℕ) → Holds (s.pc i) k c → s.key c ≡ k

start-IsSettled : IsSettled start
start-IsSettled = record {
  running = λ i k c e. absurd (cc);
  deleting = λ i k c e. absurd (cc);
  keyed = λ i k c h. absurd (ground arith);
}

Step-IsSettled : {fn : Fn} {s t : System} → Step fn s t → IsSafe s → IsSettled s → IsSettled t
unfolding join lead finish leave wake
Step-IsSettled {s} (join_step i k c free found) w v = record {
  running = λ j q d h. ground (arith, v.running j q d);
  deleting = λ j q d h. ground (arith, v.deleting j q d);
  keyed = λ j q d h. ground (arith, v.keyed j q d);
}
Step-IsSettled {s} (lead_step i k free fresh) w v = record {
  running = λ j q d h. ground (arith, v.running j q d);
  deleting = λ j q d h. ground (arith, v.deleting j q d, w.held j q d);
  keyed = λ j q d h. ground (arith, v.keyed j q d, w.held j q d);
}
Step-IsSettled {s} (finish_step i k c r runs given) w v = record {
  running = λ j q d h. ground (arith, v.running j q d, w.held j q d, w.held i k c (inl runs));
  deleting = λ j q d h. ground (arith, v.deleting j q d);
  keyed = λ j q d h. ground (arith, v.keyed j q d, v.keyed i k c (inl runs));
}
Step-IsSettled {s} (leave_step i k c stops) w v = record {
  running = λ j q d h. ground (arith, v.running j q d);
  deleting = λ j q d h. ground (arith, v.deleting j q d);
  keyed = λ j q d h. ground (arith, v.keyed j q d);
}
Step-IsSettled {s} (wake_step i c waits done) w v = record {
  running = λ j q d h. ground (arith, v.running j q d);
  deleting = λ j q d h. ground (arith, v.deleting j q d);
  keyed = λ j q d h. ground (arith, v.keyed j q d);
}

pub Reach-IsSettled : {fn : Fn} {s : System} → Reach fn s → IsSettled s
Reach-IsSettled here = start-IsSettled
Reach-IsSettled (next r st) = Step-IsSettled st (Reach-IsSafe r) (Reach-IsSettled r)

-- A call that is done has a result that `fn` gave for its key.
abbrev HasResult : Fn → System → Type 0
HasResult fn s =
    (c : ℕ)
    → (s.calls c).done ≡ true
    → (r : Result Text) × ((s.calls c).val ≡ some r) × fn (s.key c) r

Step-HasResult :
    {fn : Fn} {s t : System} → Step fn s t → IsSettled s → HasResult fn s → HasResult fn t
unfolding join lead finish leave wake
Step-HasResult (join_step i k c free found) w v d e = v d e
Step-HasResult {fn} {s} (lead_step i k free fresh) w v d e = elim (ℕ_discrete s.fresh d) [
  | yes p ↦ absurd (ground (arith, p, e))
  | no n ↦
      let (r, stored, given) = v d (ground (arith, n, e)) in
      (r, ground (arith, n, stored), subst (λ q. fn q r) (ground (arith, n)) given)
]
Step-HasResult {fn} {s} (finish_step i k c r runs given) w v d e = elim (ℕ_discrete c d) [
  | yes p ↦
      let named : k ≡ s.key d = sym (w.keyed i k c (inl runs)) ∙ ap s.key p in
      (r, ground (arith, p), subst (λ q. fn q r) named given)
  | no n ↦
      let (r', stored, given') = v d (ground (arith, n, e)) in
      (r', ground (arith, n, stored), given')
]
Step-HasResult (leave_step i k c stops) w v d e = v d e
Step-HasResult (wake_step i c waits done) w v d e = v d e

Reach-HasResult : {fn : Fn} {s : System} → Reach fn s → HasResult fn s
Reach-HasResult here c e = absurd (cc)
Reach-HasResult (next r st) c e = Step-HasResult st (Reach-IsSettled r) (Reach-HasResult r) c e

Step-key :
    {fn : Fn} {s t : System} (c : ℕ)
    → Step fn s t
    → c < s.fresh
    → (c < t.fresh) × (t.key c ≡ s.key c)
unfolding join lead finish leave wake
Step-key c (join_step i k d free found) h = (h, refl)
Step-key {s = s} c (lead_step i k free fresh) h = (omega (arith, h), ground (arith, h))
Step-key c (finish_step i k d r runs given) h = (h, refl)
Step-key c (leave_step i k d stops) h = (h, refl)
Step-key c (wake_step i d waits done) h = (h, refl)

-- A call keeps its key.
Steps-key :
    {fn : Fn} {s t : System} (c : ℕ)
    → Steps fn s t
    → c < s.fresh
    → (c < t.fresh) × (t.key c ≡ s.key c)
Steps-key c stay h = (h, refl)
Steps-key c (step l st) h =
    let (made, same) = Steps-key c l h in
    let (made', same') = Step-key c st made in (made', same' ∙ same)

-- The goroutine waits for the call, or has created it and not returned.
abbrev pub Shares : System → ℕ → ℕ → Type 0
Shares s i c = (s.pc i ≡ Pc.waiting c) ⊎ ((k : Text) × Holds (s.pc i) k c)

-- It shares the call, or has returned with its value.
abbrev pub Follows : System → ℕ → ℕ → Type 0
Follows s i c =
    (c < s.fresh)
    × (Shares s i c ⊎ ((s.pc i ≡ Pc.returned (s.calls c).val) × ((s.calls c).done ≡ true)))

-- A call that a goroutine waits for has been made.
waiting_known :
    {fn : Fn} {s : System} → Reach fn s → (i c : ℕ) → s.pc i ≡ Pc.waiting c → c < s.fresh
unfolding join lead finish leave wake
waiting_known here i c e = absurd (cc)
waiting_known (next r (join_step j k d free found)) i c e =
    ground (arith, waiting_known r i c, (Reach-IsSafe r).known k d found)
waiting_known (next r (lead_step j k free fresh)) i c e = ground (arith, waiting_known r i c)
waiting_known (next r (finish_step j k d x runs given)) i c e = ground (arith, waiting_known r i c)
waiting_known (next r (leave_step j k d stops)) i c e = ground (arith, waiting_known r i c)
waiting_known (next r (wake_step j d waits done)) i c e = ground (arith, waiting_known r i c)

Shares-Follows : {fn : Fn} {s : System} (i c : ℕ) → Reach fn s → Shares s i c → Follows s i c
Shares-Follows i c r (inl e) = (waiting_known r i c e, inl (inl e))
Shares-Follows i c r (inr (k, h)) =
    let (found, leads, made) = (Reach-IsSafe r).held i k c h in (made, inl (inr (k, h)))

Step-Follows :
    {fn : Fn} {s t : System} (i c : ℕ)
    → Step fn s t
    → IsSafe s
    → IsSettled s
    → Follows s i c
    → Follows t i c
unfolding join lead finish leave wake
Step-Follows i c (join_step j k d free found) w v f = ground (arith, f)
Step-Follows i c (lead_step j k free fresh) w v f = ground (arith, f)
Step-Follows i c (finish_step j k d x runs given) w v f = ground (arith, f, v.running j k d runs)
Step-Follows i c (leave_step j k d stops) w v f = ground (arith, f, v.deleting j k d stops)
Step-Follows i c (wake_step j d waits done) w v f = ground (arith, f, done)

-- What holds of the states that are reached holds of the states further on.
Steps-Reach : {fn : Fn} {s t : System} → Reach fn s → Steps fn s t → Reach fn t
Steps-Reach r stay = r
Steps-Reach r (step l st) = next (Steps-Reach r l) st

Steps-Follows :
    {fn : Fn} {s t : System} (i c : ℕ) → Reach fn s → Steps fn s t → Follows s i c → Follows t i c
Steps-Follows i c r stay f = f
Steps-Follows i c r (step l st) f =
    let r' = Steps-Reach r l in
    Step-Follows i c st (Reach-IsSafe r') (Reach-IsSettled r') (Steps-Follows i c r l f)

returned_Follows :
    (s : System) (i c : ℕ) (v : Option (Result Text))
    → Follows s i c
    → s.pc i ≡ Pc.returned v
    → (v ≡ (s.calls c).val) × ((s.calls c).done ≡ true)
returned_Follows s i c v (known, inl (inl e)) f = absurd (cc)
returned_Follows s i c v (known, inl (inr (k, inl e))) f = absurd (cc)
returned_Follows s i c v (known, inl (inr (k, inr e))) f = absurd (cc)
returned_Follows s i c v (known, inr (e, finished)) f = (cc (e, f), finished)

-- In every history, two goroutines that share a call (they wait for it, or created it and have not
-- returned) and that return later, return the same; and that is a result that `fn` gave for the key
-- of the call, never the unset fields of the call. Who created the call did so for that key.
pub shared_result :
    {fn : Fn} {s t : System} (i j c : ℕ) (v w : Option (Result Text))
    → Reach fn s
    → Shares s i c
    → Shares s j c
    → Steps fn s t
    → t.pc i ≡ Pc.returned v
    → t.pc j ≡ Pc.returned w
    → ((r : Result Text) × (v ≡ some r) × (w ≡ some r) × fn (s.key c) r)
      × ((k : Text) → Holds (s.pc i) k c → s.key c ≡ k)
shared_result {fn} {t = t} i j c v w r si sj l ei ej =
    let known = Shares-Follows i c r si in
    let (a, finished) = returned_Follows t i c v (Steps-Follows i c r l known) ei in
    let (b, _) = returned_Follows t j c w (Steps-Follows j c r l (Shares-Follows j c r sj)) ej in
    let (x, e, given) = Reach-HasResult (Steps-Reach r l) c finished in
    (
      (x, a ∙ e, b ∙ e, subst (λ k. fn k x) (Steps-key c l known.0).1 given),
      λ k h. (Reach-IsSettled r).keyed i k c h,
    )
