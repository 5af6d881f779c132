-- ===== src/GeeRpc/Registry/Heartbeat/Sweeps.antt =====
-- What the requests to a registry leave of an entry.
use days_project.Common.{
  ℕ, ◌≡◌, refl, sym, ap, ◌∙◌, ◌≢◌, inl, inr, List, [], ◌∷◌, ◌++◌, none, some, true, Text, text_dec,
  All, GoMap, lookup, insert, delete, lookup-delete_ne, KeysDistinct, delete-KeysDistinct, if_pos,
  if_neg, arith, Bool-cases, Option-cases,
}
use days_project.GeeRpc.Registry.{
  ServerItem, GeeRegistry, Answer, post, put_server, is_alive, sweep, serve_http,
}
use days_project.GeeRpc.Registry.Alive.{IsListed}

-- The entries of an address are alive.
pub AliveAt : ℕ → ℕ → Text → List (Text × ServerItem) → Type 0
AliveAt now timeout a = All (λ (e : Text × ServerItem). e.0 ≡ a → is_alive now timeout e.1 ≡ true)

pub missing-AliveAt :
    (now timeout : ℕ) (a : Text) (es : List (Text × ServerItem))
    → lookup text_dec a es ≡ none
    → AliveAt now timeout a es
unfolding AliveAt lookup
missing-AliveAt now timeout a [] e = tt
missing-AliveAt now timeout a (x ∷ es) e = elim (text_dec a x.0) [
  | yes p ↦ absurd (ground (arith, e, p))
  | no n ↦ (λ q. absurd (n (sym q)), missing-AliveAt now timeout a es (ground (arith, e, n)))
]

pub lookup-AliveAt :
    (now timeout : ℕ) (a : Text) (s : ServerItem) (es : List (Text × ServerItem))
    → KeysDistinct text_dec es
    → lookup text_dec a es ≡ some s
    → is_alive now timeout s ≡ true
    → AliveAt now timeout a es
unfolding AliveAt lookup
lookup-AliveAt now timeout a s [] d e lives = tt
lookup-AliveAt now timeout a s (x ∷ es) d e lives = elim (text_dec a x.0) [
  | yes p ↦ (
    λ q. ground (arith, e, p, lives),
    missing-AliveAt now timeout a es (ap (λ k. lookup text_dec k es) p ∙ d.0),
  )
  | no n ↦
      (λ q. absurd (n (sym q)), lookup-AliveAt now timeout a s es d.1 (ground (arith, e, n)) lives)
]

-- The sweep deletes no entry of an address that is alive.
pub sweep-keeps :
    (now timeout : ℕ) (a : Text) (es : List (Text × ServerItem)) (alive : List Text)
    (m : GoMap Text ServerItem)
    → AliveAt now timeout a es
    → KeysDistinct text_dec m
    → (lookup text_dec a (sweep now timeout es (alive, m)).1 ≡ lookup text_dec a m)
      × KeysDistinct text_dec (sweep now timeout es (alive, m)).1
unfolding sweep AliveAt
sweep-keeps now timeout a [] alive m h d = (refl, d)
sweep-keeps now timeout a (e ∷ es) alive m h d = elim (Bool-cases (is_alive now timeout e.1)) [
  | inl lives ↦ rw (lives, sweep) (sweep-keeps now timeout a es (alive ++ e.0 ∷ []) m h.1 d)
  | inr dead ↦
      let (same, distinct) =
        sweep-keeps now timeout a es alive (delete text_dec e.0 m) h.1
          (delete-KeysDistinct text_dec e.0 m d) in
      rw (dead, sweep)
        (same ∙ lookup-delete_ne text_dec a e.0 m (λ q. absurd (cc (h.0 (sym q), dead))), distinct)
]

-- The live entry of an address lists it.
pub IsListed-of_lookup :
    (now timeout : ℕ) (a : Text) (s : ServerItem) (es : List (Text × ServerItem))
    → lookup text_dec a es ≡ some s
    → is_alive now timeout s ≡ true
    → IsListed now timeout a es
unfolding lookup
IsListed-of_lookup now timeout a s [] e lives = absurd (cc)
IsListed-of_lookup now timeout a s (x ∷ es) e lives = elim (text_dec a x.0) [
  | yes p ↦ inl (sym p, ground (arith, e, p, lives))
  | no n ↦ inr (IsListed-of_lookup now timeout a s es (ground (arith, e, n)) lives)
]

-- `putServer` writes an entry with the time.
pub put_server-insert :
    (now : ℕ) (a : Text) (r : GeeRegistry)
    → (item : ServerItem) × (item.start ≡ now)
      × (put_server now a r ≡ record r { servers = insert text_dec a item r.servers })
unfolding put_server
put_server-insert now a r = elim (Option-cases (lookup text_dec a r.servers)) [
  | inl e ↦ (record { addr = a; start = now }, refl, rw (e, put_server) refl)
  | inr (s, e) ↦ (record s { start = now }, refl, rw (e, put_server) refl)
]

-- What a request that posts an address does.
pub serve_http-put_server :
    (now : ℕ) (a : Text) (r : GeeRegistry)
    → a ≢ []
    → (serve_http now post a r).0 ≡ put_server now a r
unfolding serve_http
serve_http-put_server now a r n =
    ap (λ (p : GeeRegistry × Answer). p.0) (if_neg (text_dec a []) n _ _)

pub serve_http_unnamed :
    (now : ℕ) (a : Text) (r : GeeRegistry) → a ≡ [] → (serve_http now post a r).0 ≡ r
unfolding serve_http
serve_http_unnamed now a r e = ap (λ (p : GeeRegistry × Answer). p.0) (if_pos (text_dec a []) e _ _)
