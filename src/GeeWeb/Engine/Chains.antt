-- ===== src/GeeWeb/Engine/Chains.antt =====
-- Which handlers a request runs.
use days_project.Common.{
  ◌≡◌, refl, sym, ap, subst, ◌⊎◌, inl, inr, List, [], ◌∷◌, ◌++◌, true, Text, has_prefix, In,
  Bool-cases,
}
use days_project.GeeWeb.Engine.{RouterGroup, middlewares_for}

In-append_left : {A : Type 0} (a : A) (xs ys : List A) → In a xs → In a (xs ++ ys)
In-append_left a [] ys h = absurd h
In-append_left a (x ∷ xs) ys (inl e) = inl e
In-append_left a (x ∷ xs) ys (inr h) = inr (In-append_left a xs ys h)

In-append_right : {A : Type 0} (a : A) (xs ys : List A) → In a ys → In a (xs ++ ys)
In-append_right a [] ys h = h
In-append_right a (x ∷ xs) ys h = inr (In-append_right a xs ys h)

In-of_In-append : {A : Type 0} (a : A) (xs ys : List A) → In a (xs ++ ys) → In a xs ⊎ In a ys
In-of_In-append a [] ys h = inr h
In-of_In-append a (x ∷ xs) ys (inl e) = inl (inl e)
In-of_In-append a (x ∷ xs) ys (inr h) = elim (In-of_In-append a xs ys h) [
  | inl g ↦ inl (inr g)
  | inr g ↦ inr g
]

module _ {H : Type 0} where
  In-of_middlewares_for :
      (h : H) (path : Text) (gs : List (RouterGroup H))
      → In h (middlewares_for path gs)
      → (g : RouterGroup H) × In g gs × (has_prefix path g.prefix ≡ true) × In h g.middlewares
  unfolding middlewares_for
  In-of_middlewares_for h path [] i = absurd i
  In-of_middlewares_for h path (own ∷ rest) i = elim (Bool-cases (has_prefix path own.prefix)) [
    | inl e ↦ elim (In-of_In-append h own.middlewares (middlewares_for path rest) (rw e at i)) [
      | inl here ↦ (own, inl refl, e, here)
      | inr later ↦
          let (g, listed, fits, used) = In-of_middlewares_for h path rest later in
          (g, inr listed, fits, used)
    ]
    | inr e ↦
        let (g, listed, fits, used) = In-of_middlewares_for h path rest (rw e at i) in
        (g, inr listed, fits, used)
  ]

  In-middlewares_for :
      (h : H) (path : Text) (gs : List (RouterGroup H)) (g : RouterGroup H)
      → In g gs
      → has_prefix path g.prefix ≡ true
      → In h g.middlewares
      → In h (middlewares_for path gs)
  unfolding middlewares_for
  In-middlewares_for h path [] g listed fits used = absurd listed
  In-middlewares_for h path (own ∷ rest) g (inl e) fits used =
      let used' : In h own.middlewares =
        subst (λ (t : RouterGroup H). In h t.middlewares) (sym e) used in
      rw (ap (λ (t : RouterGroup H). has_prefix path t.prefix) e, fits)
        (In-append_left h own.middlewares (middlewares_for path rest) used')
  In-middlewares_for h path (own ∷ rest) g (inr later) fits used =
      let ih = In-middlewares_for h path rest g later fits used in
      elim (Bool-cases (has_prefix path own.prefix)) [
        | inl e ↦ rw e (In-append_right h own.middlewares (middlewares_for path rest) ih)
        | inr e ↦ rw e ih
      ]

  -- A middleware runs for a request exactly if a group uses it whose prefix the path starts with.
  pub middlewares_for_iff :
      (h : H) (path : Text) (gs : List (RouterGroup H))
      → (In h (middlewares_for path gs)
          → (g : RouterGroup H) × In g gs × (has_prefix path g.prefix ≡ true) × In h g.middlewares)
        × ((g : RouterGroup H)
            → In g gs
            → has_prefix path g.prefix ≡ true
            → In h g.middlewares
            → In h (middlewares_for path gs))
  middlewares_for_iff h path gs = (In-of_middlewares_for h path gs, In-middlewares_for h path gs)
