-- ===== src/GeeOrm/Engine/Outcomes.antt =====
-- When a transaction commits, and which columns differ.
use days_project.Common.{
  ◌≡◌, refl, sym, ap, ◌≢◌, ◌⊎◌, ◌↔◌, inl, inr, List, [], ◌∷◌, ◌++◌, Option, none, some, Bool, true,
  Text, text_dec, GoMap, lookup, insert, lookup-insert, In, arith, Option-cases,
}
use days_project.GeeOrm.Engine.{
  Action, begin, commit, rollback, work, Ending, returned, panicked, transaction, set_of,
  missing_from, difference,
}

-- The map of the loop has the keys that it had, and those of the list.
lookup-set_of :
    (x : Text) (b : List Text) (m : GoMap Text Bool)
    → (lookup text_dec x (set_of b m) ≢ none) ↔ ((lookup text_dec x m ≢ none) ⊎ In x b)
unfolding set_of
lookup-set_of x [] m = (inl, elim [ inl h ↦ h | inr h ↦ absurd h ])
lookup-set_of x (v ∷ vs) m =
    let (to, from) = lookup-set_of x vs (insert text_dec v true m) in
    let law = lookup-insert text_dec x v true m in
    elim (text_dec x v) [
      | yes e ↦ (λ h. inr (inl (sym e)), λ h. from (inl (ground (arith, law, e))))
      | no n ↦ (
        λ h. elim (to h) [ inl g ↦ inl (ground (arith, law, n)) | inr g ↦ inr (inr g) ],
        elim [
          | inl g ↦ from (inl (ground (arith, law, n)))
          | inr g ↦ elim g [ inl e ↦ absurd (n (sym e)) | inr f ↦ from (inr f) ]
        ],
      )
    ]

In-missing_from :
    (x : Text) (a : List Text) (m : GoMap Text Bool)
    → In x (missing_from m a) ↔ (In x a × (lookup text_dec x m ≡ none))
unfolding missing_from
In-missing_from x [] m = (λ h. absurd h, λ h. h.0)
In-missing_from x (v ∷ vs) m =
    let (to, from) = In-missing_from x vs m in
    elim (Option-cases (lookup text_dec v m)) [
      | inl e ↦ (
        λ h. elim (rw (e, missing_from) at h) [
          | inl p ↦ (inl p, cc)
          | inr g ↦ (inr (to g).0, (to g).1)
        ],
        λ h. rw (e, missing_from) (elim h.0 [ inl p ↦ inl p | inr g ↦ inr (from (g, h.1)) ]),
      )
      | inr (b, e) ↦ (
        λ h. let g = to (rw (e, missing_from) at h) in (inr g.0, g.1),
        λ h.
            rw (e, missing_from)
              (elim h.0 [
                | inl p ↦ absurd (cc (ap (λ t. lookup text_dec t m) p, h.1))
                | inr g ↦ from (g, h.1)
              ]),
      )
    ]

-- `difference(a, b)` holds exactly the names of `a` that are not in `b`.
pub difference_iff : (x : Text) (a b : List Text) → In x (difference a b) ↔ (In x a × (¬ In x b))
unfolding difference lookup
difference_iff x a b =
    let (to, from) = In-missing_from x a (set_of b []) in
    let (keys, held) = lookup-set_of x b [] in
    (
      λ h. ((to h).0, λ g. held (inr g) (to h).1),
      λ h. from (
        h.0,
        elim (Option-cases (lookup text_dec x (set_of b []))) [
          | inl e ↦ e
          | inr (v, e) ↦ elim (keys (λ f. cc)) [ inl g ↦ absurd (g refl) | inr g ↦ absurd (h.1 g) ]
        ],
      ),
    )

abbrev pub statements : List Text → List Action
statements [] = []
statements (w ∷ ws) = work w ∷ statements ws

commit_last :
    (ws : List Text) (last : Action) → In commit (statements ws ++ last ∷ []) → last ≡ commit
commit_last [] last (inl e) = e
commit_last [] last (inr h) = absurd h
commit_last (w ∷ ws) last (inl e) = absurd (cc)
commit_last (w ∷ ws) last (inr h) = commit_last ws last h

commit_at_last : (ws : List Text) → In commit (statements ws ++ commit ∷ [])
commit_at_last [] = inl refl
commit_at_last (w ∷ ws) = inr (commit_at_last ws)

-- A transaction asks for a commit exactly if it began and its function returned without an error;
-- and whenever it began, its last request is a commit or a rollback.
pub transaction_commits :
    {A : Type 0} (begin_error commit_error : Option Text) (ws : List Text) (ending : Ending A)
    → (In commit (transaction begin_error commit_error (statements ws, ending)).0
        ↔ ((begin_error ≡ none) × ((a : A) × (ending ≡ returned a none))))
      × (begin_error ≡ none
          → ((transaction begin_error commit_error (statements ws, ending)).0
              ≡ (begin ∷ statements ws) ++ commit ∷ [])
            ⊎ ((transaction begin_error commit_error (statements ws, ending)).0
                ≡ (begin ∷ statements ws) ++ rollback ∷ []))
unfolding transaction
transaction_commits (some e) commit_error ws ending =
    ((elim [ inl f ↦ absurd (cc) | inr h ↦ absurd h ], λ h. absurd (cc (h.0))), λ h. absurd (cc))
transaction_commits none commit_error ws (returned a none) =
    ((λ h. (refl, (a, refl)), λ h. inr (commit_at_last ws)), λ h. inl refl)
transaction_commits none commit_error ws (returned a (some e)) = (
  (
    elim [ inl f ↦ absurd (cc) | inr h ↦ absurd (cc (commit_last ws rollback h)) ],
    λ h. absurd (cc (h.1.1)),
  ),
  λ h. inr refl,
)
transaction_commits none commit_error ws (panicked p) = (
  (
    elim [ inl f ↦ absurd (cc) | inr h ↦ absurd (cc (commit_last ws rollback h)) ],
    λ h. absurd (cc (h.1.1)),
  ),
  λ h. inr refl,
)
