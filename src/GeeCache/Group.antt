-- ===== src/GeeCache/Group.antt =====
-- geecache/geecache.go, cache.go and byteview.go: a group, its cache and where its values come
-- from. The loader's `singleflight.Group` lets one call in at a time here; SingleFlight has its
-- interleavings. An operation returns `none` where the loop of the LRU cache does not end.
pub mod Loads
use days_project.Common.{
  ℕ, List, [], ◌∷◌, Option, none, some, Bool, true, false, Text, Result, ok, err, Int64, length,
  ite, text_dec, codes, GoMap, lookup, insert,
}
use mathlib.Core.Option.{get_or}
use days_project.GeeCache.Lru
use days_project.GeeCache.Lru.{Entry, Cache}

-- `ByteView`, with `Len`, `ByteSlice` (and `cloneBytes`) and `String`: a copy has the same bytes.
pub record ByteView : Type 0 where
  pub b : Text

abbrev pub byte_len : ByteView → ℕ
byte_len v = length v.b

abbrev pub clone_bytes : Text → Text
clone_bytes [] = []
clone_bytes (x ∷ b) = x ∷ clone_bytes b

-- `cache` of cache.go
pub record MainCache : Type 0 where
  pub lru : Option (Cache ByteView)
  pub cache_bytes : Int64

abbrev pub zero_entry : ℕ → Entry ByteView
zero_entry i = record { key = []; value = record { b = [] } }

-- The cache that `add` works on: `lru.New(c.cacheBytes, nil)` on the first call.
unfoldable pub lru_of : MainCache → Cache ByteView
lru_of c = get_or c.lru (Lru.new c.cache_bytes false zero_entry)

unfoldable pub cache_add : MainCache → Text → ByteView → Option MainCache
unfolding lru_of
cache_add c key value = elim (Lru.add byte_len (lru_of c) key value) [
  | none ↦ none
  | some l ↦ some (record c { lru = some l })
]

unfoldable pub cache_get : MainCache → Text → MainCache × Option ByteView
cache_get c key = elim c.lru [
  | none ↦ (c, none)
  | some l ↦ let (l', v) = Lru.get l key in (record c { lru = some l' }, v)
]

-- `PeerGetter`: the request names the group and the key, the response holds the value.
abbrev pub Peer : Type 0
Peer = Text → Text → Result Text

-- `Group`; `peers` is the method `PickPeer`.
pub record Group : Type 0 where
  pub name : Text
  pub getter : Text → Result Text
  pub main_cache : MainCache
  pub peers : Option (Text → Option Peer)

-- The global map `groups`; it owns the groups here, so an operation on one puts it back.
abbrev pub Groups : Type 0
Groups = GoMap Text Group

-- `&Group{...}` in `NewGroup`
unfoldable pub empty_group : Text → Int64 → (Text → Result Text) → Group
empty_group name cache_bytes getter = record {
  name = name;
  getter = getter;
  main_cache = record { lru = none; cache_bytes = cache_bytes };
  peers = none;
}

-- `NewGroup`; `none` is the panic at a getter that is nil.
unfoldable pub new_group : Groups → Text → Int64 → Option (Text → Result Text) → Option Groups
unfolding empty_group
new_group groups name cache_bytes getter = elim getter [
  | none ↦ none
  | some f ↦ some (insert text_dec name (empty_group name cache_bytes f) groups)
]

-- `GetGroup`; `none` is nil.
abbrev pub get_group : Groups → Text → Option Group
get_group groups name = lookup text_dec name groups

-- `RegisterPeers`; `none` is the panic of a second call.
unfoldable pub register_peers : Group → (Text → Option Peer) → Option Group
register_peers g picker = elim g.peers [
  | none ↦ some (record g { peers = some picker })
  | some p ↦ none
]

unfoldable pub get_from_peer : Group → Peer → Text → Result ByteView
get_from_peer g peer key = elim (peer g.name key) [ ok b ↦ ok (record { b = b }) | err e ↦ err e ]

unfoldable pub populate_cache : Group → Text → ByteView → Option Group
unfolding cache_add
populate_cache g key value = elim (cache_add g.main_cache key value) [
  | none ↦ none
  | some c ↦ some (record g { main_cache = c })
]

unfoldable pub get_locally : Group → Text → Option (Group × Result ByteView)
unfolding populate_cache
get_locally g key = elim (g.getter key) [
  | err e ↦ some (g, err e)
  | ok bytes ↦
      let value : ByteView = record { b = clone_bytes bytes } in
      elim (populate_cache g key value) [ none ↦ none | some g' ↦ some (g', ok value) ]
]

-- The peer to ask: none registered, or none picked.
unfoldable pub pick_peer : Group → Text → Option Peer
pick_peer g key = elim g.peers [ none ↦ none | some pick ↦ pick key ]

-- `load`: the peer's value, or after its failure the local one.
unfoldable pub load : Group → Text → Option (Group × Result ByteView)
unfolding pick_peer get_from_peer get_locally
load g key = elim (pick_peer g key) [
  | none ↦ get_locally g key
  | some peer ↦ elim (get_from_peer g peer key) [
    | ok v ↦ some (g, ok v)
    | err e ↦ get_locally g key
  ]
]

abbrev pub key_required : Text
key_required = codes "key is required"

-- The part of `Get` behind the check of the key.
unfoldable pub get_key : Group → Text → Option (Group × Result ByteView)
unfolding cache_get load
get_key g key =
    let (c, hit) = cache_get g.main_cache key in
    elim hit [ some v ↦ some (record g { main_cache = c }, ok v) | none ↦ load g key ]

unfoldable pub get : Group → Text → Option (Group × Result ByteView)
unfolding get_key
get g key = ite (text_dec key []) (some (g, err key_required)) (get_key g key)
