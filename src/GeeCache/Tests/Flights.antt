-- ===== src/GeeCache/Tests/Flights.antt =====
-- Two goroutines that ask for one key.
use days_project.Common.{
  ℕ, ◌≡◌, refl, inl, inr, Option, some, Text, codes, Result, ok, lookup, ℕ_discrete, text_dec,
  insert,
}
use days_project.GeeCache.SingleFlight
use days_project.GeeCache.SingleFlight.{Pc, System, start, Reach, Steps}
use days_project.GeeCache.SingleFlight.Flights.{Holds, one_flight}
use days_project.GeeCache.SingleFlight.Results.{shared_result}

abbrev flying : System
flying = SingleFlight.lead start 7 (codes "k")

-- `fn` gives "630" for every key.
abbrev given : SingleFlight.Fn
given k r = r ≡ ok (codes "630")

flying-Reach : Reach given flying
unfolding lookup
flying-Reach = SingleFlight.next SingleFlight.here (SingleFlight.lead_step 7 (codes "k") refl refl)

one_flight_example : ◌≡◌ {A = ℕ} 7 7 × ◌≡◌ {A = ℕ} 0 0
unfolding SingleFlight.lead ℕ_discrete
one_flight_example = one_flight 7 7 (codes "k") 0 0 flying-Reach (inl refl) (inl refl)

-- A second goroutine finds the call, and both return its result.
abbrev joined : System
joined = SingleFlight.join flying 8 0

abbrev finished : System
finished = SingleFlight.finish joined 7 (codes "k") 0 (ok (codes "630"))

abbrev woken : System
woken = SingleFlight.wake finished 8 0

joined-Reach : Reach given joined
unfolding SingleFlight.lead text_dec lookup ℕ_discrete insert
joined-Reach = SingleFlight.next flying-Reach (SingleFlight.join_step 8 (codes "k") 0 refl refl)

left-Steps : Steps given joined (SingleFlight.leave woken 7 (codes "k") 0)
unfolding SingleFlight.lead SingleFlight.join SingleFlight.finish SingleFlight.wake ℕ_discrete
left-Steps =
    SingleFlight.step
      (SingleFlight.step
        (SingleFlight.step SingleFlight.stay
          (SingleFlight.finish_step 7 (codes "k") 0 (ok (codes "630")) refl refl))
        (SingleFlight.wake_step 8 0 refl refl))
      (SingleFlight.leave_step 7 (codes "k") 0 refl)

shared_result_example :
    ((r : Result Text) × (◌≡◌ {A = Option (Result Text)} (some (ok (codes "630"))) (some r))
      × (◌≡◌ {A = Option (Result Text)} (some (ok (codes "630"))) (some r))
      × given (joined.key 0) r)
    × ((k : Text) → Holds (joined.pc 7) k 0 → joined.key 0 ≡ k)
unfolding SingleFlight.lead SingleFlight.join SingleFlight.finish SingleFlight.wake
    SingleFlight.leave ℕ_discrete
shared_result_example =
    shared_result 7 8 0 _ _ joined-Reach (inr (codes "k", inl refl)) (inl refl) left-Steps refl refl
