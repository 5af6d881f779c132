-- ===== src/GeeRpc/Registry/Alive.antt =====
-- Who is listed: exactly the servers whose last heartbeat is recent enough.
use days_project.Common.{
  ℕ, ◌≡◌, ◌⊎◌, ◌↔◌, inl, inr, List, [], ◌∷◌, ◌++◌, true, Text, text_dec, In, GoMap, delete,
  Bool-cases,
}
use days_project.GeeRpc.Registry.{
  ServerItem, GeeRegistry, is_alive, sweep, text_leb, insert_text, sort_texts, alive_servers,
}

In-insert_text : (a s : Text) (ts : List Text) → In a (insert_text s ts) ↔ ((s ≡ a) ⊎ In a ts)
unfolding insert_text
In-insert_text a s [] = (λ h. h, λ h. h)
In-insert_text a s (t ∷ ts) = elim (Bool-cases (text_leb s t)) [
  | inl e ↦ rw e (λ h. h, λ h. h)
  | inr e ↦
      let (to, from) = In-insert_text a s ts in
      rw e (
        elim [ inl p ↦ inr (inl p) | inr h ↦ elim (to h) [ inl p ↦ inl p | inr g ↦ inr (inr g) ] ],
        elim [
          | inl p ↦ inr (from (inl p))
          | inr h ↦ elim h [ inl p ↦ inl p | inr g ↦ inr (from (inr g)) ]
        ],
      )
]

In-sort_texts : (a : Text) (ss : List Text) → In a (sort_texts ss) ↔ In a ss
unfolding sort_texts
In-sort_texts a [] = (λ h. h, λ h. h)
In-sort_texts a (s ∷ ss) =
    let (to, from) = In-insert_text a s (sort_texts ss) in
    let (down, up) = In-sort_texts a ss in
    (
      λ h. elim (to h) [ inl e ↦ inl e | inr g ↦ inr (down g) ],
      elim [ inl e ↦ from (inl e) | inr g ↦ from (inr (up g)) ],
    )

-- The address has an entry that is alive.
abbrev pub IsListed : ℕ → ℕ → Text → List (Text × ServerItem) → Type 0
IsListed now timeout a [] = ⊥
IsListed now timeout a (e ∷ rest) =
    ((e.0 ≡ a) × (is_alive now timeout e.1 ≡ true)) ⊎ IsListed now timeout a rest

In-append_iff : (a b : Text) (xs : List Text) → In a (xs ++ b ∷ []) ↔ (In a xs ⊎ (b ≡ a))
In-append_iff a b [] =
    (elim [ inl e ↦ inr e | inr h ↦ absurd h ], elim [ inl h ↦ absurd h | inr e ↦ inl e ])
In-append_iff a b (x ∷ xs) =
    let (to, from) = In-append_iff a b xs in
    (
      elim [ inl e ↦ inl (inl e) | inr h ↦ elim (to h) [ inl g ↦ inl (inr g) | inr e ↦ inr e ] ],
      elim [
        | inl h ↦ elim h [ inl e ↦ inl e | inr g ↦ inr (from (inl g)) ]
        | inr e ↦ inr (from (inr e))
      ],
    )

sweep_iff :
    (now timeout : ℕ) (a : Text) (es : List (Text × ServerItem)) (alive : List Text)
    (m : GoMap Text ServerItem)
    → In a (sweep now timeout es (alive, m)).0 ↔ (In a alive ⊎ IsListed now timeout a es)
unfolding sweep
sweep_iff now timeout a [] alive m = (inl, elim [ inl h ↦ h | inr h ↦ absurd h ])
sweep_iff now timeout a (e ∷ es) alive m = elim (Bool-cases (is_alive now timeout e.1)) [
  | inl lives ↦
      let (to, from) = sweep_iff now timeout a es (alive ++ e.0 ∷ []) m in
      let (split, both) = In-append_iff a e.0 alive in
      (
        λ h. elim (to (rw (lives, sweep) at h)) [
          | inl g ↦ elim (split g) [ inl f ↦ inl f | inr p ↦ inr (inl (p, lives)) ]
          | inr g ↦ inr (inr g)
        ],
        λ h.
            rw (lives, sweep)
              (elim h [
                | inl g ↦ from (inl (both (inl g)))
                | inr g ↦ elim g [ inl p ↦ from (inl (both (inr p.0))) | inr f ↦ from (inr f) ]
              ]),
      )
  | inr dead ↦
      let (to, from) = sweep_iff now timeout a es alive (delete text_dec e.0 m) in
      (
        λ h. elim (to (rw (dead, sweep) at h)) [ inl g ↦ inl g | inr g ↦ inr (inr g) ],
        λ h.
            rw (dead, sweep)
              (elim h [
                | inl g ↦ from (inl g)
                | inr g ↦ elim g [ inl p ↦ absurd (cc (p.1)) | inr f ↦ from (inr f) ]
              ]),
      )
]

-- `aliveServers` gives an address exactly if it has an entry without a timeout or whose last
-- heartbeat is less than the timeout ago.
pub alive_servers_iff :
    (now : ℕ) (a : Text) (r : GeeRegistry)
    → In a (alive_servers now r).1 ↔ IsListed now r.timeout a r.servers
unfolding alive_servers
alive_servers_iff now a r =
    let (down, up) = In-sort_texts a (sweep now r.timeout r.servers ([], r.servers)).0 in
    let (to, from) = sweep_iff now r.timeout a r.servers [] r.servers in
    (λ h. elim (to (down h)) [ inl g ↦ absurd g | inr g ↦ g ], λ h. up (from (inr h)))
