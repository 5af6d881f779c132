-- ===== src/GeeCache/HttpPool.antt =====
-- geecache/http.go and peers.go: the peers of a group over HTTP, and the server for them.
pub mod Peers
pub mod Getter
pub mod Cached
use days_project.Common.{
  ℕ, List, [], ◌∷◌, ◌++◌, Option, none, some, Bool, true, false, Text, codes, text_dec, ite,
  ℕ_discrete, Result, ok, err, GoMap, lookup, insert, has_prefix, drop, length, if◌then◌else◌, ◌==◌,
}
use days_project.GeeCache.ConsistentHash
use days_project.GeeCache.Group
use days_project.GeeCache.Group.{Group, Groups, ByteView, get_group}

abbrev pub default_base_path : Text
default_base_path = codes "/_geecache/"

abbrev pub default_replicas : ℕ
default_replicas = 50

-- `HTTPPool`; an `httpGetter` is its base URL.
pub record HttpPool : Type 0 where
  pub self : Text
  pub base_path : Text
  pub peers : Option ConsistentHash.Map
  pub http_getters : GoMap Text Text

-- `NewHTTPPool`
unfoldable pub new_http_pool : Text → HttpPool
new_http_pool self = record {
  self = self;
  base_path = default_base_path;
  peers = none;
  http_getters = [];
}

-- The loop of `Set`
unfoldable pub set_getters : Text → List Text → GoMap Text Text → GoMap Text Text
set_getters base_path [] getters = getters
set_getters base_path (peer ∷ rest) getters =
    set_getters base_path rest (insert text_dec peer (peer ++ base_path) getters)

-- `PickPeer`: a panic on the nil ring before the first `Set`, no peer, or the peer's getter, which
-- is nil if the map does not have it.
pub data Picked : Type 0 where
  nil_ring : Picked
  no_peer : Picked
  picked : Option Text → Picked

-- `u` in the getter's `Get`; `escape` is `url.QueryEscape`.
unfoldable pub request_url : (Text → Text) → Text → Text → Text → Text
request_url escape base_url group key = base_url ++ (escape group ++ escape key)

-- What a server reads of a text behind `url.QueryEscape`: it decodes the path, in which a space has
-- become a plus.
unfoldable pub as_path : Text → Text
as_path [] = []
as_path (c ∷ s) = (if c == b' ' then b'+' else c) ∷ as_path s

-- `r.URL.Path` of the request to `u`, at a server whose base path is that of the getter
unfoldable pub request_path : Text → Text → Text → Text
unfolding as_path
request_path base_path group key = base_path ++ (as_path group ++ as_path key)

-- `strings.SplitN(s, "/", 2)`, where it gives two parts
unfoldable pub split_two : Text → Option (Text × Text)
split_two [] = none
split_two (c ∷ s) = elim (split_two s) [
  | none ↦ ite (ℕ_discrete c b'/') (some ([], s)) none
  | some (left, right) ↦ ite (ℕ_discrete c b'/') (some ([], s)) (some (c ∷ left, right))
]

-- The answer of `ServeHTTP`.
pub data Answer : Type 0 where
  panic : Answer
  status : ℕ → Text → Answer
  body : Text → Answer

module _ (hash : Text → ℕ) where
  -- `Set`
  unfoldable pub set : HttpPool → List Text → HttpPool
  unfolding set_getters
  set p peers = record p {
    peers = some (ConsistentHash.add hash (ConsistentHash.new default_replicas) peers);
    http_getters = set_getters p.base_path peers [];
  }

  unfoldable pub pick_peer : HttpPool → Text → Picked
  pick_peer p key = elim p.peers [
    | none ↦ nil_ring
    | some ring ↦
        let peer = ConsistentHash.get hash ring key in
        ite (text_dec peer []) no_peer
          (ite (text_dec peer p.self) no_peer (picked (lookup text_dec peer p.http_getters)))
  ]

-- The end of `ServeHTTP`; `marshal` is `proto.Marshal` of the response.
unfoldable pub answer_of : (Text → Result Text) → Result ByteView → Answer
answer_of marshal (err e) = status 500 e
answer_of marshal (ok view) = elim (marshal (view.b)) [
  | err e ↦ status 500 e
  | ok bytes ↦ body bytes
]

-- `ServeHTTP` at the request's path; `none` where the group's cache does not return.
unfoldable pub serve_http :
    (Text → Result Text) → HttpPool → Groups → Text → Option (Groups × Answer)
unfolding answer_of
serve_http marshal p groups path =
    if has_prefix path p.base_path
    then elim (split_two (drop (length p.base_path) path)) [
      | none ↦ some (groups, status 400 (codes "bad request"))
      | some (group_name, key) ↦ elim (get_group groups group_name) [
        | none ↦ some (groups, status 404 (codes "no such group: " ++ group_name))
        | some group ↦ elim (Group.get group key) [
          | none ↦ none
          | some (group', result) ↦
              some (insert text_dec group_name group' groups, answer_of marshal result)
        ]
      ]
    ]
    else some (groups, panic)
