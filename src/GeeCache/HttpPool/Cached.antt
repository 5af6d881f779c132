-- ===== src/GeeCache/HttpPool/Cached.antt =====
-- A request over HTTP for a value that the group has cached.
use days_project.Common.{
  ◌≡◌, refl, ap, ◌∙◌, ◌≢◌, [], ◌∷◌, ◌++◌, Option, none, some, Text, ok, if_neg, text_dec,
  ℕ_discrete, Result, All, drop, drop-append, length, insert, lookup-insert_self, arith,
}
use days_project.GeeCache.Group
use days_project.GeeCache.Group.{
  Group, Groups, Peer, lru_of, cache_get, get_group, pick_peer, get_key,
}
use days_project.GeeCache.Group.Loads.{HasRoom, cache_get-get}
use days_project.GeeCache.HttpPool.{HttpPool, split_two, body, answer_of, serve_http}
use days_project.GeeCache.HttpPool.Peers.{has_prefix-append}

split_two_lem :
    (name key : Text)
    → All (λ c. c ≢ b'/') name
    → split_two (name ++ (b'/' ∷ key)) ≡ some (name, key)
unfolding split_two
split_two_lem [] key plain = ground arith
split_two_lem (c ∷ name) key plain =
    rw (split_two_lem name key plain.1) (if_neg (ℕ_discrete c b'/') plain.0 _ _)

-- The path of a group and a key, at which a pool looks for the group.
abbrev pub path_of : HttpPool → Text → Text → Text
path_of p name key = p.base_path ++ (name ++ (b'/' ∷ key))

serve_http-get :
    (marshal : Text → Result Text) (p : HttpPool) (groups : Groups) (g g' : Group)
    (name key bytes out : Text)
    → All (λ c. c ≢ b'/') name
    → get_group groups name ≡ some g
    → Group.get g key ≡ some (g', ok (record { b = bytes }))
    → marshal bytes ≡ ok out
    → serve_http marshal p groups (path_of p name key)
      ≡ some (insert text_dec name g' groups, body out)
unfolding serve_http answer_of
serve_http-get marshal p groups g g' name key bytes out plain found ran coded =
    let parts : split_two (drop (length p.base_path) (path_of p name key)) ≡ some (name, key) =
      ap split_two (drop-append p.base_path (name ++ (b'/' ∷ key)))
      ∙ split_two_lem name key plain in
    ground (arith, has_prefix-append p.base_path (name ++ (b'/' ∷ key)), parts, found, ran, coded)

get_of_hit :
    (g : Group) (key bytes : Text)
    → key ≢ []
    → (cache_get g.main_cache key).1 ≡ some (record { b = bytes })
    → (g' : Group) × (Group.get g key ≡ some (g', ok (record { b = bytes })))
unfolding Group.get get_key
get_of_hit g key bytes full hit = (
  record g { main_cache = (cache_get g.main_cache key).0 },
  rw (if_neg (text_dec key []) full) (rw (hit, get_key) refl),
)

-- A pool answers a request for a value that the getter supplies with that value, and a second
-- request with the same body, whatever getter and peers the group has by then. The name of the
-- group has no slash, the key is not empty and not cached, no peer is picked for it, the entry fits
-- the cache, and the response can be encoded.
pub serve_http-twice :
    (marshal : Text → Result Text) (p : HttpPool) (groups : Groups) (g : Group)
    (name key bytes out : Text) (later : Text → Result Text)
    (later_peers : Option (Text → Option Peer))
    → All (λ c. c ≢ b'/') name
    → key ≢ []
    → get_group groups name ≡ some g
    → (cache_get g.main_cache key).1 ≡ none
    → pick_peer g key ≡ none
    → g.getter key ≡ ok bytes
    → HasRoom (lru_of g.main_cache) key bytes
    → marshal bytes ≡ ok out
    → (g' g'' : Group) × (serve_http marshal p groups (path_of p name key)
        ≡ some (insert text_dec name g' groups, body out))
      × (serve_http marshal p
            (insert text_dec name (record g' { getter = later; peers = later_peers }) groups)
            (path_of p name key)
          ≡ some (
            insert text_dec name g''
                (insert text_dec name (record g' { getter = later; peers = later_peers }) groups),
            body out,
          ))
serve_http-twice marshal p groups g name key bytes out later later_peers plain full found miss alone
      supplied room coded =
    let (g', ran, hit) = cache_get-get g key bytes full miss alone supplied room in
    let changed : Group = record g' { getter = later; peers = later_peers } in
    let (g'', again) = get_of_hit changed key bytes full hit in
    (
      g',
      g'',
      serve_http-get marshal p groups g g' name key bytes out plain found ran coded,
      serve_http-get marshal p (insert text_dec name changed groups) changed g'' name key bytes out
          plain (lookup-insert_self text_dec name name changed groups refl) again coded,
    )
