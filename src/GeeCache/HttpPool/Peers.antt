-- ===== src/GeeCache/HttpPool/Peers.antt =====
-- Which peer a key belongs to, and what a peer's request meets.
use days_project.Common.{
  ℕ, ◌≡◌, refl, sym, ap, ◌∙◌, ◌≢◌, ◌⊎◌, inl, inr, List, [], ◌∷◌, ◌++◌, none, some, true, Text,
  codes, text_dec, if_pos, if_neg, ℕ_discrete, Result, GoMap, lookup, insert, lookup-insert,
  has_prefix, drop, drop-append, length, All, All-append, In, arith,
}
use days_project.GeeCache.ConsistentHash
use days_project.GeeCache.ConsistentHash.Ring.{IsOwned, add-IsSorted, get-IsNext}
use days_project.GeeCache.Group.{Groups}
use days_project.GeeCache.HttpPool.{
  default_replicas, HttpPool, set_getters, no_peer, picked, as_path, request_path, split_two,
  status, set, pick_peer, serve_http,
}

split_two-none : (s : Text) → All (λ c. c ≢ b'/') s → split_two s ≡ none
unfolding split_two
split_two-none [] h = refl
split_two-none (c ∷ s) h = ground (arith, split_two-none s h.1, h.0)

pub has_prefix-append : (p s : Text) → has_prefix (p ++ s) p ≡ true
unfolding has_prefix
has_prefix-append [] [] = refl
has_prefix-append [] (c ∷ s) = refl
has_prefix-append (c ∷ p) s = rw (if_pos (ℕ_discrete c c) refl) (has_prefix-append p s)

as_path_plain : (s : Text) → All (λ c. c ≢ b'/') s → All (λ c. c ≢ b'/') (as_path s)
unfolding as_path
as_path_plain [] h = tt
as_path_plain (c ∷ s) h = (ground (arith, h.0), as_path_plain s h.1)

-- The request that a peer's getter sends is refused by every server with that base path, for a group
-- and a key without a slash: they follow one another without a slash in between, so the path has no
-- second part.
pub serve_http-request_path :
    (marshal : Text → Result Text) (p : HttpPool) (groups : Groups) (group key : Text)
    → All (λ c. c ≢ b'/') group
    → All (λ c. c ≢ b'/') key
    → serve_http marshal p groups (request_path p.base_path group key)
      ≡ some (groups, status 400 (codes "bad request"))
unfolding serve_http request_path
serve_http-request_path marshal p groups group key plain_group plain_key =
    let rest = as_path group ++ as_path key in
    let whole : split_two (drop (length p.base_path) (p.base_path ++ rest)) ≡ none =
      ap split_two (drop-append p.base_path rest)
      ∙ split_two-none rest (
          All-append _ (as_path group) (as_path key) (as_path_plain group plain_group)
            (as_path_plain key plain_key)) in
    ground (arith, has_prefix-append p.base_path rest, whole)

lookup-set_getters :
    (base_path peer : Text) (peers : List Text) (getters : GoMap Text Text)
    → In peer peers ⊎ (lookup text_dec peer getters ≡ some (peer ++ base_path))
    → lookup text_dec peer (set_getters base_path peers getters) ≡ some (peer ++ base_path)
unfolding set_getters
lookup-set_getters base_path peer [] getters (inl h) = absurd h
lookup-set_getters base_path peer [] getters (inr e) = e
lookup-set_getters base_path peer (q ∷ rest) getters h =
    let law = lookup-insert text_dec peer q (q ++ base_path) getters in
    lookup-set_getters base_path peer rest (insert text_dec q (q ++ base_path) getters)
      (elim (text_dec peer q) [
        | yes e ↦ inr (ground (arith, law, e))
        | no n ↦ elim h [
          | inl i ↦ elim i [ inl e ↦ absurd (n (sym e)) | inr g ↦ inl g ]
          | inr e ↦ inr (ground (arith, law, n, e))
        ]
      ])

nil-or-not : (ks : List ℕ) → (ks ≡ []) ⊎ (ks ≢ [])
nil-or-not [] = inl refl
nil-or-not (k ∷ ks) = inr (λ e. cc)

new-IsOwned : (peers : List Text) → IsOwned (ConsistentHash.new default_replicas) peers
unfolding ConsistentHash.new
new-IsOwned peers k h = absurd h

module _ (hash : Text → ℕ) where
  get_of_nil :
      (m : ConsistentHash.Map) (key : Text) → m.keys ≡ [] → ConsistentHash.get hash m key ≡ []
  unfolding ConsistentHash.get
  get_of_nil m key e = ground (arith, e)

  get_listed :
      (peers : List Text) (key : Text)
      → (ConsistentHash.get hash
            (ConsistentHash.add hash (ConsistentHash.new default_replicas) peers)
            key
          ≡ [])
        ⊎ In
            (ConsistentHash.get hash
              (ConsistentHash.add hash (ConsistentHash.new default_replicas) peers)
              key)
            peers
  get_listed peers key =
      elim (nil-or-not (ConsistentHash.add hash (ConsistentHash.new default_replicas) peers).keys) [
        | inl e ↦ inl (get_of_nil _ key e)
        | inr full ↦
            let (sorted, owned) =
              add-IsSorted hash (ConsistentHash.new default_replicas) peers peers (λ k i. i)
                (new-IsOwned peers) in
            inr (get-IsNext hash _ peers key sorted owned full).4
      ]

  -- After `Set` a key is handled here, or by a listed peer other than this one; its getter is then
  -- the one for the peer's own base path, never nil.
  pub pick_peer-set :
      (p : HttpPool) (peers : List Text) (key : Text)
      → (pick_peer hash (set hash p peers) key ≡ no_peer)
        ⊎ ((peer : Text) × In peer peers
            × (peer ≢ p.self)
            × (pick_peer hash (set hash p peers) key ≡ picked (some (peer ++ p.base_path))))
  unfolding pick_peer set
  pick_peer-set p peers key =
      let peer =
        ConsistentHash.get hash
          (ConsistentHash.add hash (ConsistentHash.new default_replicas) peers) key in
      elim (get_listed peers key) [
        | inl e ↦ inl (if_pos (text_dec peer []) e _ _)
        | inr i ↦ elim (text_dec peer []) [
          | yes e ↦ inl (if_pos (text_dec peer []) e _ _)
          | no n ↦ elim (text_dec peer p.self) [
            | yes e ↦ inl (rw (if_neg (text_dec peer []) n) (if_pos (text_dec peer p.self) e _ _))
            | no m ↦ inr (
              peer,
              i,
              m,
              rw (if_neg (text_dec peer []) n) (
                  rw (if_neg (text_dec peer p.self) m)
                    (ap picked (lookup-set_getters p.base_path peer peers [] (inl i)))),
            )
          ]
        ]
      ]
