-- ===== src/GeeRpc/XClient/Closing.antt =====
-- `Close` of a client of several servers.
use days_project.Common.{
  ℕ, ◌≡◌, refl, sym, ◌⊎◌, inl, inr, [], ◌∷◌, none, some, true, false, Text, text_dec, GoMap, lookup,
  delete, lookup-delete, arith,
}
use days_project.GeeRpc.Client
use days_project.GeeRpc.Client.{Client, is_available, update}
use days_project.GeeRpc.XClient.{XClient, close_at, close_each, close}

module _ {D : Type 0} where
  -- What a round makes of the state.
  abbrev round : Text → ℕ → XClient D → XClient D
  round a p xc = let xc' = close_at p xc in record xc' { clients = delete text_dec a xc'.clients }

  close_at-closing :
      (p q : ℕ) (xc : XClient D)
      → ((close_at p xc).store p).closing ≡ true
        × ((xc.store q).closing ≡ true → ((close_at p xc).store q).closing ≡ true)
  unfolding close_at Client.close
  close_at-closing p q xc = (ground arith, λ h. ground arith)

  close_each-closing :
      (es : GoMap Text ℕ) (xc : XClient D) (q : ℕ)
      → (xc.store q).closing ≡ true
      → ((close_each es xc).store q).closing ≡ true
  unfolding close_each
  close_each-closing [] xc q h = h
  close_each-closing (e ∷ rest) xc q h =
      close_each-closing rest (round e.0 e.1 xc) q ((close_at-closing e.1 q xc).1 h)

  close_each_closes :
      (es : GoMap Text ℕ) (xc : XClient D) (a : Text) (p : ℕ)
      → lookup text_dec a es ≡ some p
      → ((close_each es xc).store p).closing ≡ true
  unfolding close_each lookup
  close_each_closes [] xc a p h = absurd (cc)
  close_each_closes (e ∷ rest) xc a p h = elim (text_dec a e.0) [
    | yes same ↦
        let here : e.1 ≡ p = ground (arith, h, same) in
        close_each-closing rest (round e.0 e.1 xc) p (rw (← here) ((close_at-closing e.1 e.1 xc).0))
    | no other ↦ close_each_closes rest (round e.0 e.1 xc) a p (ground (arith, h, other))
  ]

  close_each_forgets :
      (es : GoMap Text ℕ) (xc : XClient D) (a : Text)
      → (lookup text_dec a xc.clients ≡ none)
        ⊎ (lookup text_dec a es ≡ lookup text_dec a xc.clients)
      → lookup text_dec a (close_each es xc).clients ≡ none
  unfolding close_each lookup close_at
  close_each_forgets [] xc a (inl h) = h
  close_each_forgets [] xc a (inr h) = sym h
  close_each_forgets (e ∷ rest) xc a (inl h) =
      close_each_forgets rest (round e.0 e.1 xc) a
        (inl (ground (arith, h, lookup-delete text_dec a e.0 xc.clients)))
  close_each_forgets (e ∷ rest) xc a (inr h) = elim (text_dec a e.0) [
    | yes same ↦
        close_each_forgets rest (round e.0 e.1 xc) a
          (inl (ground (arith, same, lookup-delete text_dec a e.0 xc.clients)))
    | no other ↦
        close_each_forgets rest (round e.0 e.1 xc) a
          (inr (ground (arith, h, other, lookup-delete text_dec a e.0 xc.clients)))
  ]

  -- After `Close` no address has a client, and none of the clients that were kept can be used again.
  pub close_lem :
      (xc : XClient D)
      → ((a : Text) → lookup text_dec a (close xc).clients ≡ none)
        × ((a : Text) (p : ℕ)
            → lookup text_dec a xc.clients ≡ some p
            → is_available ((close xc).store p) ≡ false)
  unfolding close is_available
  close_lem xc = (
    λ a. close_each_forgets xc.clients xc a (inr refl),
    λ a p e. ground (arith, close_each_closes xc.clients xc a p e),
  )
