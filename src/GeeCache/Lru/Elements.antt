-- ===== src/GeeCache/Lru/Elements.antt =====
-- The pointers of the list: which there are, each once, and what their entries add up to.
use days_project.Common.{
  ℕ, suc, ◌+◌, ◌≡◌, refl, ◌≢◌, inl, inr, List, [], ◌∷◌, ◌++◌, none, some, true, ap, subst, ◌↔◌, sym,
  if_pos, if_neg, In, length, arith, ℕ_discrete,
}
use days_project.GeeCache.Lru.{remove_elem, has_elem, move_to_front, back, update}

abbrev pub Distinct : List ℕ → Type 0
Distinct [] = Unit
Distinct (i ∷ l) = (¬ In i l) × Distinct l

unfoldable pub total : (ℕ → ℕ) → List ℕ → ℕ
total w [] = 0
total w (i ∷ l) = w i + total w l

pub has_elem_of_In : (i : ℕ) (l : List ℕ) → In i l → has_elem i l ≡ true
unfolding has_elem
has_elem_of_In i [] h = absurd h
has_elem_of_In i (j ∷ l) (inl e) = ground arith
has_elem_of_In i (j ∷ l) (inr h) = ground (arith, has_elem_of_In i l h)

pub In-of_In-remove_elem : (i j : ℕ) (l : List ℕ) → In j (remove_elem i l) → In j l
unfolding remove_elem
In-of_In-remove_elem i j [] h = h
In-of_In-remove_elem i j (k ∷ l) h = elim (ℕ_discrete i k) [
  | yes p ↦ inr (rw (if_pos _ p) at h)
  | no p ↦ elim (rw (if_neg _ p) at h) [
    | inl e ↦ inl e
    | inr g ↦ inr (In-of_In-remove_elem i j l g)
  ]
]

pub In-remove_elem : (i j : ℕ) (l : List ℕ) → In j l → j ≢ i → In j (remove_elem i l)
unfolding remove_elem
In-remove_elem i j [] h n = h
In-remove_elem i j (k ∷ l) (inl e) n = rw (if_neg _ (λ (p : i ≡ k). n (cc))) (inl e)
In-remove_elem i j (k ∷ l) (inr h) n = elim (ℕ_discrete i k) [
  | yes p ↦ rw (if_pos _ p) h
  | no p ↦ rw (if_neg _ p) (inr (In-remove_elem i j l h n))
]

pub ne_of_In-remove_elem : (i j : ℕ) (l : List ℕ) → Distinct l → In j (remove_elem i l) → j ≢ i
unfolding remove_elem
ne_of_In-remove_elem i j [] d h = absurd h
ne_of_In-remove_elem i j (k ∷ l) d h = elim (ℕ_discrete i k) [
  | yes p ↦ λ e. d.0 (rw (← p, ← e) (rw (if_pos _ p) at h))
  | no p ↦ elim (rw (if_neg _ p) at h) [
    | inl e ↦ λ f. p (cc)
    | inr g ↦ ne_of_In-remove_elem i j l d.1 g
  ]
]

pub Distinct-remove_elem : (i : ℕ) (l : List ℕ) → Distinct l → Distinct (remove_elem i l)
unfolding remove_elem
Distinct-remove_elem i [] d = d
Distinct-remove_elem i (k ∷ l) d = elim (ℕ_discrete i k) [
  | yes p ↦ rw (if_pos _ p) d.1
  | no p ↦ rw (if_neg _ p) (λ h. d.0 (In-of_In-remove_elem i k l h), Distinct-remove_elem i l d.1)
]

pub move_to_front_of_In : (i : ℕ) (l : List ℕ) → In i l → move_to_front i l ≡ i ∷ remove_elem i l
unfolding move_to_front
move_to_front_of_In i l h = rw (has_elem_of_In i l h)

pub In-move_to_front : (i j : ℕ) (l : List ℕ) → In i l → In j (i ∷ remove_elem i l) ↔ In j l
In-move_to_front i j l h = (
  elim [ inl e ↦ rw (← e) h | inr g ↦ In-of_In-remove_elem i j l g ],
  λ g. elim (ℕ_discrete i j) [
    | yes p ↦ inl p
    | no p ↦ inr (In-remove_elem i j l g (λ e. p (sym e)))
  ],
)

pub total-remove_elem :
    (w : ℕ → ℕ) (i : ℕ) (l : List ℕ) → In i l → w i + total w (remove_elem i l) ≡ total w l
unfolding remove_elem total
total-remove_elem w i [] h = absurd h
total-remove_elem w i (j ∷ l) (inl e) = ground arith
total-remove_elem w i (j ∷ l) (inr h) = ground (arith, total-remove_elem w i l h)

pub total_congr :
    (w w' : ℕ → ℕ) (l : List ℕ) → ((j : ℕ) → In j l → w j ≡ w' j) → total w l ≡ total w' l
unfolding total
total_congr w w' [] h = refl
total_congr w w' (j ∷ l) h = omega (arith, h j (inl refl), total_congr w w' l (λ k g. h k (inr g)))

pub update_self : {A : Type 0} (f : ℕ → A) (i : ℕ) (a : A) → update f i a i ≡ a
update_self f i a = if_pos (ℕ_discrete i i) refl a (f i)

pub update_ne : {A : Type 0} (f : ℕ → A) (i : ℕ) (a : A) (j : ℕ) → i ≢ j → update f i a j ≡ f j
update_ne f i a j n = if_neg (ℕ_discrete i j) n a (f j)

pub In-of_back : (l : List ℕ) (j : ℕ) → back l ≡ some j → In j l
unfolding back
In-of_back [] j e = absurd (cc)
In-of_back (i ∷ []) j e = inl (ground arith)
In-of_back (i ∷ k ∷ l) j e = inr (In-of_back (k ∷ l) j e)

pub nil_of_back : (l : List ℕ) → back l ≡ none → l ≡ []
unfolding back
nil_of_back [] e = refl
nil_of_back (i ∷ []) e = cc
nil_of_back (i ∷ k ∷ l) e = absurd (cc (nil_of_back (k ∷ l) e))

-- The last element is removed, and those before it stay as they are.
pub remove_elem-back :
    (l : List ℕ) (j : ℕ) → Distinct l → back l ≡ some j → l ≡ remove_elem j l ++ j ∷ []
unfolding back remove_elem
remove_elem-back [] j d e = absurd (cc)
remove_elem-back (i ∷ []) j d e = ground arith
remove_elem-back (i ∷ k ∷ l) j d e =
    rw (if_neg (ℕ_discrete j i) (λ p. d.0 (subst (λ t. In t (k ∷ l)) p (In-of_back (k ∷ l) j e))))
      (ap (◌∷◌ i) (remove_elem-back (k ∷ l) j d.1 e))

pub length-remove_elem : (i : ℕ) (l : List ℕ) → In i l → suc (length (remove_elem i l)) ≡ length l
unfolding remove_elem
length-remove_elem i [] h = absurd h
length-remove_elem i (j ∷ l) (inl e) = ground arith
length-remove_elem i (j ∷ l) (inr h) = ground (arith, length-remove_elem i l h)
