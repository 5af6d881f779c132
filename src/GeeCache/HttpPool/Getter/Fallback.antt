-- ===== src/GeeCache/HttpPool/Getter/Fallback.antt =====
-- A group whose peers are such pools loads every value itself.
use days_project.Common.{
  ℕ, ◌≡◌, refl, ap, subst, ◌∙◌, ◌≢◌, ◌⊎◌, inl, inr, List, ◌++◌, none, some, Text, codes, All, In,
  Result, ok, err, arith,
}
use days_project.GeeCache.ConsistentHash.{itoa}
use days_project.GeeCache.Group
use days_project.GeeCache.Group.{Group, Peer, ByteView, load, get_locally, get_from_peer}
use days_project.GeeCache.Group.{Groups}
use days_project.GeeCache.HttpPool.{
  HttpPool, Answer, status, set, request_url, request_path, serve_http,
}
use days_project.GeeCache.HttpPool.Peers.{pick_peer-set, serve_http-request_path}
use days_project.GeeCache.HttpPool.Getter.{HttpResponse, response_of, value_of, getter_get, picker}

module _ (escape : Text → Text) (http_get : Text → Result HttpResponse)
    (unmarshal : Text → Result Text) (marshal : Text → Result Text) (hash : Text → ℕ) where
  -- A request to a peer fails, or its response is what `ServeHTTP` of a pool with this base path
  -- answers.
  abbrev pub IsServed : Text → Text → Text → Text → Type 0
  IsServed base_path peer group key =
      ((e : Text) × (http_get (request_url escape (peer ++ base_path) group key) ≡ err e))
      ⊎ ((q : HttpPool) × (groups groups' : Groups) × (a : Answer) × (q.base_path ≡ base_path)
          × (serve_http marshal q groups (request_path base_path group key) ≡ some (groups', a))
          × (http_get (request_url escape (peer ++ base_path) group key) ≡ response_of a))

  -- The response to a request that is refused
  abbrev refused : HttpResponse
  refused = record { status_code = 400; read = ok (codes "bad request" ++ codes "\n") }

  -- The getter of a peer fails at a group and a key without a slash.
  getter_get_fails :
      (base_path peer group key : Text)
      → All (λ c. c ≢ b'/') group
      → All (λ c. c ≢ b'/') key
      → IsServed base_path peer group key
      → (e : Text) × (getter_get escape http_get unmarshal (peer ++ base_path) group key ≡ err e)
  unfolding getter_get value_of response_of
  getter_get_fails base_path peer group key plain_group plain_key (inl (e, failed)) =
      (e, ground (arith, failed))
  getter_get_fails base_path peer group key plain_group plain_key
        (inr (q, groups, groups', a, same, served, got)) =
      let answered : a ≡ status 400 (codes "bad request") = cc (
        served,
        subst
            (λ b.
              serve_http marshal q groups (request_path b group key)
              ≡ some (groups, status 400 (codes "bad request")))
            same (serve_http-request_path marshal q groups group key plain_group plain_key),
      ) in
      let gave : http_get (request_url escape (peer ++ base_path) group key) ≡ ok refused =
        got ∙ ap response_of answered in
      (codes "server returned:" ++ itoa 400, rw (gave, getter_get) refl)

  -- A group whose peers are a pool after `Set`, every peer of which is down or such a pool too, loads
  -- each key without a slash from its own getter, if the group's name has no slash: the request to a
  -- peer is always refused.
  pub load-set :
      (g : Group) (p : HttpPool) (peers : List Text) (key : Text)
      → g.peers ≡ picker escape http_get unmarshal hash (set hash p peers)
      → All (λ c. c ≢ b'/') g.name
      → All (λ c. c ≢ b'/') key
      → ((peer : Text) → In peer peers → IsServed p.base_path peer g.name key)
      → load g key ≡ get_locally g key
  unfolding load get_from_peer picker set
  load-set g p peers key registered plain_group plain_key served =
      elim (pick_peer-set hash p peers key) [
        | inl alone ↦
            let unpicked : Group.pick_peer g key ≡ none =
              rw (registered, Group.pick_peer) (rw (alone, picker) refl) in
            rw (unpicked, load) refl
        | inr (peer, i, apart, found) ↦
            let picks : Group.pick_peer g key
                ≡ some (getter_get escape http_get unmarshal (peer ++ p.base_path)) =
              rw (registered, Group.pick_peer) (rw (found, picker) refl) in
            let (e, failed) =
              getter_get_fails p.base_path peer g.name key plain_group plain_key (served peer i) in
            rw (picks, load) (rw (failed, get_from_peer) refl)
      ]
