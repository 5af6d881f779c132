-- ===== src/GeeCache/Lru.antt =====
-- geecache/lru/lru.go: the cache bounded by bytes. A `*list.Element` is a pointer, a number; `heap`
-- gives the entry that it points to, `ll` the pointers that stand in the list, front first.
pub mod Elements
pub mod Invariant
pub mod Eviction
pub mod Reads
pub mod Spec
pub mod View
pub mod Refinement
pub mod Histories
pub mod Bounds
pub mod Evictions
use days_project.Common.{
  ℕ, zero, suc, List, [], ◌∷◌, ◌++◌, Option, none, some, Bool, true, false, ite, lookup, Text,
  text_dec, GoMap, insert, delete, Int64, add64, sub64, slt64, length, not, ◌&&◌, ◌==◌,
  if◌then◌else◌, ℕ_discrete,
}

-- `entry`
pub record Entry (V : Type 0) : Type 0 where
  pub key : Text
  pub value : V

-- `Cache`. `evicted` lists the calls of `OnEvicted`, the first at the head.
pub record Cache (V : Type 0) : Type 0 where
  pub max_bytes : Int64
  pub nbytes : Int64
  pub ll : List ℕ
  pub cache : GoMap Text ℕ
  pub on_evicted : Bool
  pub heap : ℕ → Entry V
  pub fresh : ℕ
  pub evicted : List (Text × V)

-- `container/list`: `Remove`, `MoveToFront` (of an element of the list) and `Back`.
unfoldable pub remove_elem : ℕ → List ℕ → List ℕ
remove_elem i [] = []
remove_elem i (j ∷ l) = let rest = remove_elem i l in ite (ℕ_discrete i j) l (j ∷ rest)

unfoldable pub has_elem : ℕ → List ℕ → Bool
has_elem i [] = false
has_elem i (j ∷ l) = ite (ℕ_discrete i j) true (has_elem i l)

unfoldable pub move_to_front : ℕ → List ℕ → List ℕ
move_to_front i l = if has_elem i l then i ∷ remove_elem i l else l

unfoldable pub back : List ℕ → Option ℕ
back [] = none
back (i ∷ []) = some i
back (i ∷ j ∷ l) = back (j ∷ l)

-- A write through a pointer.
abbrev pub update : {A : Type 0} → (ℕ → A) → ℕ → A → ℕ → A
update f i a j = ite (ℕ_discrete i j) a (f j)

module _ {V : Type 0} where
  -- `New`, over any contents of the memory that is not allocated yet
  unfoldable pub new : Int64 → Bool → (ℕ → Entry V) → Cache V
  new max_bytes on_evicted heap = record {
    max_bytes = max_bytes;
    nbytes = 0;
    ll = [];
    cache = [];
    on_evicted = on_evicted;
    heap = heap;
    fresh = 0;
    evicted = [];
  }

  unfoldable pub get : Cache V → Text → Cache V × Option V
  get c key = elim (lookup text_dec key c.cache) [
    | none ↦ (c, none)
    | some ele ↦ (record c { ll = move_to_front ele c.ll }, some (c.heap ele).value)
  ]

  -- `Len`
  unfoldable pub len : Cache V → ℕ
  len c = length c.ll

-- `size` is the method `Len` of the `Value` interface.
module _ {V : Type 0} (size : V → ℕ) where
  unfoldable pub entry_size : Entry V → Int64
  entry_size kv = add64 (length kv.key) (size kv.value)

  unfoldable pub remove_oldest : Cache V → Cache V
  unfolding entry_size
  remove_oldest c = elim (back c.ll) [
    | none ↦ c
    | some ele ↦ record c {
      ll = remove_elem ele c.ll;
      cache = delete text_dec (c.heap ele).key c.cache;
      nbytes = sub64 c.nbytes (entry_size (c.heap ele));
      evicted =
          if c.on_evicted
          then c.evicted ++ ((c.heap ele).key, (c.heap ele).value) ∷ []
          else c.evicted;
    }
  ]

  -- The `if … else …` of `Add`.
  unfoldable pub store : Cache V → Text → V → Cache V
  unfolding entry_size
  store c key value = elim (lookup text_dec key c.cache) [
    | some ele ↦ record c {
      ll = move_to_front ele c.ll;
      nbytes = add64 c.nbytes (sub64 (size value) (size (c.heap ele).value));
      heap = update c.heap ele (record { key = (c.heap ele).key; value = value });
    }
    | none ↦ record c {
      ll = c.fresh ∷ c.ll;
      cache = insert text_dec key c.fresh c.cache;
      nbytes = add64 c.nbytes (entry_size (record { key = key; value = value }));
      heap = update c.heap c.fresh (record { key = key; value = value });
      fresh = suc c.fresh;
    }
  ]

  -- The loop's condition.
  unfoldable pub over_budget : Cache V → Bool
  over_budget c = not (c.max_bytes == 0) && slt64 c.max_bytes c.nbytes

  -- The `for` loop of `Add`; `none` means that the fuel ran out.
  unfoldable pub shrink : ℕ → Cache V → Option (Cache V)
  shrink zero c = none
  shrink (suc fuel) c = elim (over_budget c) [
    | true ↦ shrink fuel (remove_oldest c)
    | false ↦ some c
  ]

  -- `Add`: one round for each entry, and one to end the loop.
  unfoldable pub add : Cache V → Text → V → Option (Cache V)
  unfolding store shrink
  add c key value = let c' = store c key value in shrink (suc (length c'.ll)) c'
