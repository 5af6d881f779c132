-- ===== src/GeeCache/Group/Loads.antt =====
-- What a group answers: a value that is loaded locally is cached, a peer's value and an error are
-- not, and a failing peer falls back to the getter.
use days_project.Common.{
  ◌+◌, ◌^◌, ◌≤◌, ◌<◌, ◌≡◌, refl, ap, ◌≢◌, ◌⊎◌, inl, inr, [], ◌∷◌, none, some, Text, ok, err, length,
  if_neg, text_dec, arith,
}
use days_project.GeeCache.Lru.{Cache}
use days_project.GeeCache.Lru.Elements.{total}
use days_project.GeeCache.Lru.Invariant.{weight, IsValid}
use days_project.GeeCache.Lru.Reads.{get-add}
use days_project.GeeCache.Group.{
  ByteView, byte_len, clone_bytes, lru_of, cache_add, cache_get, Peer, Group, pick_peer,
  get_from_peer, populate_cache, get_locally, load, get_key, get,
}

clone_bytes_lem : (b : Text) → clone_bytes b ≡ b
clone_bytes_lem [] = refl
clone_bytes_lem (x ∷ b) = ap (◌∷◌ x) (clone_bytes_lem b)

-- The room that a new entry needs: the budget is not negative, the sizes add up to less than
-- 2 ^ 63, and the entry by itself fits the budget, unless there is none.
pub record HasRoom (c : Cache ByteView) (key value : Text) : Type 0 where
  pub valid : IsValid byte_len c
  pub sign : c.max_bytes < 2 ^ 63
  pub room : total (weight byte_len c.heap) c.ll + length key + length value < 2 ^ 63
  pub fits : (c.max_bytes ≡ 0) ⊎ (length key + length value ≤ c.max_bytes)

-- A value that the getter supplies is returned, and is a hit from then on: the getter and the
-- peers are not asked again. The key is not empty and not cached, no peer is picked, and the
-- entry fits the cache.
pub cache_get-get :
    (g : Group) (key bytes : Text)
    → key ≢ []
    → (cache_get g.main_cache key).1 ≡ none
    → pick_peer g key ≡ none
    → g.getter key ≡ ok bytes
    → HasRoom (lru_of g.main_cache) key bytes
    → (g' : Group) × (get g key ≡ some (g', ok (record { b = bytes })))
      × ((cache_get g'.main_cache key).1 ≡ some (record { b = bytes }))
unfolding get get_key load get_locally populate_cache cache_add cache_get
cache_get-get g key bytes full miss alone found r =
    let (d, ran, hit) =
      get-add byte_len (lru_of g.main_cache) key (record { b = bytes }) r.valid r.sign r.room
        r.fits in
    let g' : Group = record g { main_cache = record (g.main_cache) { lru = some d } } in
    (
      g',
      rw (if_neg (text_dec key []) full)
          (ground (arith, miss, alone, found, ran, clone_bytes_lem bytes)),
      hit,
    )

-- A peer's value is passed on and not cached: the group stays as it is.
pub load-peer :
    (g : Group) (key value : Text) (peer : Peer)
    → pick_peer g key ≡ some peer
    → peer g.name key ≡ ok value
    → load g key ≡ some (g, ok (record { b = value }))
unfolding load get_from_peer
load-peer g key value peer picked answered = rw (picked, load) (rw (answered, get_from_peer) refl)

-- An error of the getter is passed on and not cached, whether no peer was picked or the peer failed.
pub load_error :
    (g : Group) (key message : Text)
    → (pick_peer g key ≡ none)
      ⊎ ((peer : Peer) × (why : Text) × (pick_peer g key ≡ some peer) × (peer g.name key ≡ err why))
    → g.getter key ≡ err message
    → load g key ≡ some (g, err message)
unfolding load get_from_peer get_locally
load_error g key message (inl alone) failed = rw (alone, load) (rw (failed, get_locally) refl)
load_error g key message (inr (peer, why, picked, refused)) failed =
    ground (arith, picked, refused, failed)
