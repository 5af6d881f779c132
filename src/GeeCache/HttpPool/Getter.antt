-- ===== src/GeeCache/HttpPool/Getter.antt =====
-- geecache/http.go: `Get` of an `httpGetter`, and the pool as the picker of a group's peers.
pub mod Fallback
use days_project.Common.{
  ℕ, ◌++◌, [], ◌∷◌, Option, none, some, Text, codes, Result, ok, err, if◌then◌else◌, ◌==◌,
}
use days_project.GeeCache.ConsistentHash.{itoa}
use days_project.GeeCache.Group.{Peer}
use days_project.GeeCache.HttpPool.{
  HttpPool, nil_ring, no_peer, picked, pick_peer, request_url, Answer, panic, status, body,
}

-- `http.Response`: the status, and what `ioutil.ReadAll` gives of the body
pub record HttpResponse : Type 0 where
  pub status_code : ℕ
  pub read : Result Text

-- What `net/http` makes of an answer: `http.Error` ends a message with a newline, and a panic ends
-- the connection.
unfoldable pub response_of : Answer → Result HttpResponse
response_of panic = err (codes "EOF")
response_of (status code message) =
    ok (record { status_code = code; read = ok (message ++ codes "\n") })
response_of (body bytes) = ok (record { status_code = 200; read = ok bytes })

-- `escape` is `url.QueryEscape`, `http_get` is `http.Get`, and `unmarshal` is `proto.Unmarshal` with
-- the value of the response.
module _ (escape : Text → Text) (http_get : Text → Result HttpResponse)
    (unmarshal : Text → Result Text) where
  -- The end of `Get`, behind `http.Get`
  unfoldable pub value_of : HttpResponse → Result Text
  value_of res =
      let value : Result Text = elim res.read [
        | err e ↦ err (codes "reading response body:" ++ e)
        | ok bytes ↦ elim (unmarshal bytes) [
          | err e ↦ err (codes "decoding response body: " ++ e)
          | ok v ↦ ok v
        ]
      ] in
      if res.status_code == 200
      then value
      else err (codes "server returned:" ++ itoa res.status_code)

  -- `Get`
  unfoldable pub getter_get : Text → Peer
  unfolding request_url value_of
  getter_get base_url group key = elim (http_get (request_url escape base_url group key)) [
    | err e ↦ err e
    | ok res ↦ value_of res
  ]

  -- The pool as the `PeerPicker` of a group, once `Set` has made its ring: before that, `none`,
  -- `PickPeer` panics. Behind `Set` every peer that is picked has its getter.
  unfoldable pub picker : (Text → ℕ) → HttpPool → Option (Text → Option Peer)
  unfolding getter_get
  picker hash p = elim p.peers [
    | none ↦ none
    | some ring ↦ some (λ key. elim (pick_peer hash p key) [
      | nil_ring ↦ none
      | no_peer ↦ none
      | picked getter ↦ elim getter [ none ↦ none | some base_url ↦ some (getter_get base_url) ]
    ])
  ]
