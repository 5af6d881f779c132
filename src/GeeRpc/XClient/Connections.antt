-- ===== src/GeeRpc/XClient/Connections.antt =====
-- Which connections are kept: an address has the client that was dialled last, while it can be used.
use days_project.Common.{
  ℕ, ◌<◌, ◌≡◌, refl, sym, ap, ◌∙◌, subst, ◌≢◌, inl, inr, some, true, Text, text_dec, Result, ok,
  err, lookup, delete, lookup-insert, lookup-delete, arith, Option-cases, Bool-cases, eq_of_some,
}
use days_project.GeeRpc.Client.{Client, is_available}
use days_project.GeeRpc.XClient.{XClient, close_at, reuse, connect, dial}

module _ {D : Type 0} where
  -- Every client that is kept is allocated, and no two addresses share one.
  pub record IsValid (xc : XClient D) : Type 0 where
    pub allocated : (a : Text) (p : ℕ) → lookup text_dec a xc.clients ≡ some p → p < xc.fresh
    pub apart :
        (a b : Text) (p : ℕ)
        → lookup text_dec a xc.clients ≡ some p
        → lookup text_dec b xc.clients ≡ some p
        → a ≡ b

  closed-IsValid :
      {xc : XClient D} (addr : Text) (p : ℕ)
      → IsValid xc
      → IsValid
          (let xc' = close_at p xc in record xc' { clients = delete text_dec addr xc'.clients })
  unfolding close_at
  closed-IsValid {xc} addr p v = record {
    allocated = λ a q e. ground (arith, v.allocated a q, lookup-delete text_dec a addr xc.clients);
    apart = λ a b q e f. ground (
      arith,
      v.apart a b q,
      lookup-delete text_dec a addr xc.clients,
      lookup-delete text_dec b addr xc.clients,
    );
  }

  reuse-IsValid : {xc : XClient D} (addr : Text) → IsValid xc → IsValid (reuse addr xc).0
  unfolding reuse
  reuse-IsValid {xc} addr v = elim (Option-cases (lookup text_dec addr xc.clients)) [
    | inl e ↦ rw (e, reuse) v
    | inr (p, e) ↦ elim (Bool-cases (is_available (xc.store p))) [
      | inl f ↦ rw (e, f, reuse) v
      | inr f ↦ rw (e, f, reuse) (closed-IsValid addr p v)
    ]
  ]

  connect-IsValid :
      {xc : XClient D} (dialled : Result Client) (addr : Text)
      → IsValid xc
      → IsValid (connect dialled addr xc).0
  unfolding connect
  connect-IsValid (err e) addr v = v
  connect-IsValid {xc} (ok c) addr v = record {
    allocated =
        λ a q e. ground (arith, v.allocated a q, lookup-insert text_dec a addr xc.fresh xc.clients);
    apart = λ a b q e f. ground (
      arith,
      v.apart a b q,
      v.allocated a q,
      v.allocated b q,
      lookup-insert text_dec a addr xc.fresh xc.clients,
      lookup-insert text_dec b addr xc.fresh xc.clients,
    );
  }

  pub dial-IsValid :
      {xc : XClient D} (dialled : Result Client) (addr : Text)
      → IsValid xc
      → IsValid (dial dialled addr xc).0
  unfolding dial
  dial-IsValid {xc} dialled addr v = elim (Option-cases (reuse addr xc).1) [
    | inl e ↦ rw (e, dial) (connect-IsValid dialled addr (reuse-IsValid addr v))
    | inr (p, e) ↦ rw (e, dial) (reuse-IsValid addr v)
  ]

  -- What is kept under the other addresses stays from `xc` to `xc'`, pointer and client.
  abbrev pub KeepsOthers : Text → XClient D → XClient D → Type 0
  KeepsOthers addr xc xc' =
      (a : Text) (q : ℕ)
      → a ≢ addr
      → lookup text_dec a xc.clients ≡ some q
      → (lookup text_dec a xc'.clients ≡ some q) × (xc'.store q ≡ xc.store q)

  -- The address has the client `p`, which can be used.
  abbrev pub IsKept : Text → ℕ → XClient D → Type 0
  IsKept addr p xc = (lookup text_dec addr xc.clients ≡ some p) × (is_available (xc.store p) ≡ true)

  connect_keeps :
      (xc : XClient D) (dialled : Result Client) (addr : Text) (p : ℕ)
      → IsValid xc
      → ((c : Client) → dialled ≡ ok c → is_available c ≡ true)
      → (connect dialled addr xc).1 ≡ ok p
      → IsKept addr p (connect dialled addr xc).0 × KeepsOthers addr xc (connect dialled addr xc).0
  unfolding connect
  connect_keeps xc (err e) addr p v good done = absurd (cc)
  connect_keeps xc (ok c) addr p v good done = (
    (
      ground (arith, lookup-insert text_dec addr addr xc.fresh xc.clients),
      ground (arith, good c refl),
    ),
    λ a q n e. (
      ground (arith, n, e, lookup-insert text_dec a addr xc.fresh xc.clients),
      ground (arith, v.allocated a q e),
    ),
  )

  removed_keeps :
      (xc : XClient D) (addr : Text) (p : ℕ)
      → IsValid xc
      → lookup text_dec addr xc.clients ≡ some p
      → KeepsOthers addr xc
          (let xc' = close_at p xc in record xc' { clients = delete text_dec addr xc'.clients })
  unfolding close_at
  removed_keeps xc addr p v here a q n e = (
    ground (arith, n, e, lookup-delete text_dec a addr xc.clients),
    ground (arith, n, e, here, v.apart a addr p),
  )

  KeepsOthers-trans :
      (addr : Text) (x y z : XClient D)
      → KeepsOthers addr x y
      → KeepsOthers addr y z
      → KeepsOthers addr x z
  KeepsOthers-trans addr x y z h k a q n e =
      let (found, same) = h a q n e in let (found', same') = k a q n found in (found', same' ∙ same)

  -- A `dial` that succeeds gives a client that can be used, if `XDial` does, and keeps it under its
  -- address: the one that was kept there, if that can be used. What is kept under the other addresses
  -- stays, pointer and client, and no two addresses share a client.
  pub dial_keeps :
      (xc : XClient D) (dialled : Result Client) (addr : Text) (p : ℕ)
      → IsValid xc
      → ((c : Client) → dialled ≡ ok c → is_available c ≡ true)
      → (dial dialled addr xc).1 ≡ ok p
      → IsKept addr p (dial dialled addr xc).0
        × KeepsOthers addr xc (dial dialled addr xc).0
        × ((q : ℕ) → IsKept addr q xc → p ≡ q)
        × IsValid (dial dialled addr xc).0
  unfolding dial reuse
  dial_keeps xc dialled addr p v good done =
      let valid = dial-IsValid dialled addr v in
      elim (Option-cases (lookup text_dec addr xc.clients)) [
        | inl e ↦
            let same : dial dialled addr xc ≡ connect dialled addr xc = ground (arith, e) in
            let (kept, others) =
              connect_keeps xc dialled addr p v good (ap (λ r. r.1) (sym same) ∙ done) in
            (
              subst (λ r. IsKept addr p r.0) (sym same) kept,
              subst (λ r. KeepsOthers addr xc r.0) (sym same) others,
              λ q h. absurd (cc (h.0)),
              valid,
            )
        | inr (k, e) ↦ elim (Bool-cases (is_available (xc.store k))) [
          | inl f ↦
              let same : dial dialled addr xc ≡ (xc, ok k) = ground (arith, e, f) in
              let here : k ≡ p = cc (done, ap (λ (r : XClient D × Result ℕ). r.1) same) in
              (
                subst (λ r. IsKept addr p r.0) (sym same)
                    (subst (λ q. IsKept addr q xc) here (e, f)),
                subst (λ r. KeepsOthers addr xc r.0) (sym same) (λ a q n g. (g, refl)),
                λ q h. sym here ∙ cc (h.0),
                valid,
              )
          | inr f ↦
              let cut =
                (let xc' = close_at k xc in
                  record xc' { clients = delete text_dec addr xc'.clients }) in
              let same : dial dialled addr xc ≡ connect dialled addr cut = ground (arith, e, f) in
              let (kept, others) =
                connect_keeps cut dialled addr p (closed-IsValid addr k v) good
                  (ap (λ r. r.1) (sym same) ∙ done) in
              (
                subst (λ r. IsKept addr p r.0) (sym same) kept,
                subst (λ r. KeepsOthers addr xc r.0) (sym same)
                    (KeepsOthers-trans addr xc cut (connect dialled addr cut).0
                      (removed_keeps xc addr k v e) others),
                λ q h.
                    absurd
                      (cc (h.1, ap (λ t. is_available (xc.store t)) (eq_of_some (sym e ∙ h.0)))),
                valid,
              )
        ]
      ]
