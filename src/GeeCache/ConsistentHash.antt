-- ===== src/GeeCache/ConsistentHash.antt =====
-- geecache/consistenthash/consistenthash.go: the ring of virtual nodes. `hash` is the map's hash
-- function, `crc32.ChecksumIEEE` by default.
pub mod Ring
pub mod Removal
pub mod Growth
pub mod Shrinkage
use days_project.Common.{
  ℕ, zero, suc, ◌+◌, ◌/◌, ◌%◌, ◌==◌, List, [], ◌∷◌, ◌++◌, Option, none, some, ite, lookup, Text,
  GoMap, insert, delete, length, get_elem?, leb, ltb, if◌then◌else◌, ℕ_discrete,
}
use mathlib.Core.Option.{get_or}

-- `strconv.Itoa` of a count that is not negative; the fuel is at least the number of digits.
unfoldable pub itoa_fuel : ℕ → ℕ → Text
itoa_fuel zero n = []
itoa_fuel (suc fuel) n =
    let more = itoa_fuel fuel (n / 10) ++ (b'0' + n % 10) ∷ [] in
    if ltb n 10 then (b'0' + n) ∷ [] else more

unfoldable pub itoa : ℕ → Text
unfolding itoa_fuel
itoa n = itoa_fuel (suc n) n

-- `Map`
pub record Map : Type 0 where
  pub replicas : ℕ
  pub keys : List ℕ
  pub hash_map : GoMap ℕ Text

unfoldable pub new : ℕ → Map
new replicas = record { replicas = replicas; keys = []; hash_map = [] }

-- `sort.Ints`
unfoldable pub insert_sorted : ℕ → List ℕ → List ℕ
insert_sorted x [] = x ∷ []
insert_sorted x (y ∷ ys) = let rest = insert_sorted x ys in if leb x y then x ∷ y ∷ ys else y ∷ rest

unfoldable pub sort_ints : List ℕ → List ℕ
unfolding insert_sorted
sort_ints [] = []
sort_ints (x ∷ xs) = insert_sorted x (sort_ints xs)

-- `sort.Search` over the sorted keys: the first index whose key is at least `h`, or the length.
unfoldable pub search : List ℕ → ℕ → ℕ
search [] h = 0
search (k ∷ ks) h = let later = suc (search ks h) in if leb h k then 0 else later

-- `append(m.keys[:j], m.keys[j + 1:]...)` at the first `j` with the hash
unfoldable pub remove_key : ℕ → List ℕ → List ℕ
remove_key h [] = []
remove_key h (k ∷ ks) = let rest = remove_key h ks in ite (ℕ_discrete k h) ks (k ∷ rest)

module _ (hash : Text → ℕ) where
  -- The loop over `i` in `Add`, from `i` on with `n` rounds left.
  unfoldable pub add_replicas : ℕ → ℕ → Text → Map → Map
  add_replicas zero i key m = m
  add_replicas (suc n) i key m =
      let h = hash (itoa i ++ key) in
      add_replicas n (suc i) key
        (record m { keys = m.keys ++ h ∷ []; hash_map = insert ℕ_discrete h key m.hash_map })

  unfoldable pub add_keys : List Text → Map → Map
  unfolding add_replicas
  add_keys [] m = m
  add_keys (key ∷ keys) m = add_keys keys (add_replicas m.replicas 0 key m)

  -- `Add`
  unfoldable pub add : Map → List Text → Map
  unfolding add_keys sort_ints
  add m keys = let m' = add_keys keys m in record m' { keys = sort_ints m'.keys }

  -- `Del`
  unfoldable pub del_replicas : ℕ → ℕ → Text → Map → Map
  unfolding remove_key
  del_replicas zero i key m = m
  del_replicas (suc n) i key m =
      let h = hash (itoa i ++ key) in
      del_replicas n (suc i) key
        (record m { keys = remove_key h m.keys; hash_map = delete ℕ_discrete h m.hash_map })

  unfoldable pub del : Map → Text → Map
  unfolding del_replicas
  del m key = del_replicas m.replicas 0 key m

  -- `Get`; a hash that the map does not hold gives the empty string.
  unfoldable pub owner_at : Map → ℕ → Text
  owner_at m i = elim (get_elem? m.keys i) [
    | none ↦ []
    | some k ↦ get_or (lookup ℕ_discrete k m.hash_map) []
  ]

  unfoldable pub get : Map → Text → Text
  unfolding owner_at search
  get m key =
      if length m.keys == 0 then [] else owner_at m (search m.keys (hash key) % length m.keys)
