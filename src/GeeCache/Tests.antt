-- ===== src/GeeCache/Tests.antt =====
-- The theorems about geecache at concrete inputs.
mod Ring
mod Flights
mod Groups
mod Getter
use days_project.Common.{
  sym, ◌∙◌, ◌≤◌, ◌<◌, if◌then◌else◌, ℕ, ◌+◌, ◌-◌, ◌*◌, ◌^◌, ◌≡◌, refl, ◌≢◌, ◌⊎◌, inl, inr, List, [],
  ◌∷◌, Option, none, some, true, false, Text, codes, Result, ok, err, length, lookup, In, arith,
  ℕ_discrete, text_dec, ◌++◌, delete, insert,
}
use mathlib.Core.List.{reverse}
use days_project.GeeCache.Lru
use days_project.GeeCache.Lru.{
  Entry, Cache, store, shrink, add, get, remove_oldest, over_budget, back, remove_elem,
}
use days_project.GeeCache.Lru.Elements.{total}
use days_project.GeeCache.Lru.Invariant.{IsValid, new-IsValid, store-IsValid}
use days_project.GeeCache.Lru.Eviction.{shrink_negative}
use days_project.GeeCache.Lru.Spec
use days_project.GeeCache.Lru.View.{view}
use days_project.GeeCache.Lru.Evictions.{add-evicted}
use days_project.GeeCache.Lru.Histories.{run, run_refines}
use days_project.GeeCache.Lru.Refinement.{weigh}
use days_project.GeeCache.Lru.Bounds.{run-nbytes}

abbrev size : ℕ → ℕ
size v = v

abbrev blank : ℕ → Entry ℕ
blank i = record { key = []; value = 0 }

abbrev ten : Cache ℕ
ten = record {
  max_bytes = 10;
  nbytes = 0;
  ll = [];
  cache = [];
  on_evicted = true;
  heap = blank;
  fresh = 0;
  evicted = [];
}

abbrev endless : Cache ℕ
endless = record ten { max_bytes = 2 ^ 64 - 1 }

ten-IsValid : IsValid size ten
unfolding Lru.new
ten-IsValid = new-IsValid size 10 true blank

endless-IsValid : IsValid size endless
unfolding Lru.new
endless-IsValid = new-IsValid size (2 ^ 64 - 1) true blank

-- Two entries of six bytes do not fit ten bytes: the older one goes.
abbrev summary : Option (Cache ℕ) → List (ℕ × ℕ)
summary none = []
summary (some c) = (c.nbytes, length c.ll) ∷ []

abbrev after : Option (Cache ℕ) → Text → Option (Cache ℕ)
after none key = none
after (some c) key = add size c key 5

evicts : summary (after (after (some ten) (codes "k")) (codes "l")) ≡ (6, 1) ∷ []
unfolding add remove_oldest over_budget back remove_elem delete lookup insert text_dec ℕ_discrete
evicts = refl

-- A cache with one entry.
abbrev filled : Cache ℕ
filled = store size ten (codes "a") 3

filled-IsValid : IsValid size filled
unfolding total
filled-IsValid = store-IsValid size ten-IsValid (codes "a") 3 (omega arith)

add-evicted_example :
    (d : Cache ℕ) × (gone : List (Text × ℕ)) × (add size filled (codes "k") 9 ≡ some d)
    × ((filled.max_bytes ≡ 0) ⊎ (d.nbytes ≤ filled.max_bytes))
    × (Spec.store (view filled) (codes "k") 9 ≡ view d ++ reverse gone)
    × (d.evicted ≡ filled.evicted ++ (if filled.on_evicted then gone else []))
unfolding store lookup total ℕ_discrete
add-evicted_example =
    add-evicted size filled (codes "k") 9 filled-IsValid (omega arith) (omega arith)

-- The new entry fills the budget, and the older one is cut off.
cut_off : Spec.add size 10 ((codes "a", 3) ∷ []) (codes "k") 9 ≡ (codes "k", 9) ∷ []
unfolding Spec.add delete text_dec ℕ_discrete
cut_off = refl

abbrev requests : List (Spec.Request ℕ)
requests =
    Spec.write (codes "a") 3
    ∷ Spec.read (codes "a")
    ∷ Spec.write (codes "k") 9
    ∷ Spec.read (codes "a")
    ∷ []

run_refines_example :
    (d : Cache ℕ) × (replies : List (Option ℕ)) × (run size requests ten ≡ some (d, replies))
    × IsValid size d
    × ((view d, replies) ≡ Spec.run size 10 requests [])
run_refines_example = run_refines size requests ten ten-IsValid (omega arith) (omega arith)

run-nbytes_example :
    (d : Cache ℕ) × (replies : List (Option ℕ)) × (run size requests ten ≡ some (d, replies))
    × (d.nbytes ≡ weigh size (view d))
    × (d.nbytes < 2 ^ 63)
    × ((ten.max_bytes ≡ 0) ⊎ (d.nbytes ≤ ten.max_bytes))
run-nbytes_example =
    run-nbytes size requests ten ten-IsValid (omega arith) (omega arith) (inr (omega arith))

requests_answered : Spec.run size 10 requests [] ≡ ((codes "k", 9) ∷ [], some 3 ∷ none ∷ [])
unfolding Spec.run Spec.add Spec.get delete lookup text_dec ℕ_discrete
requests_answered = refl

shrink_negative_example : shrink size 1000 endless ≡ none
shrink_negative_example =
    shrink_negative size 1000 endless endless-IsValid (omega arith) (omega arith)
