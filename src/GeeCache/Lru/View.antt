-- ===== src/GeeCache/Lru/View.antt =====
-- The list of entries that an LRU cache holds, the one used last in front.
use days_project.Common.{
  ℕ, ◌≡◌, refl, sym, ap, ◌∙◌, subst, ◌≢◌, inl, inr, List, [], ◌∷◌, ◌++◌, none, some, In, arith,
  Text, text_dec, if_pos, if_neg, lookup, delete, GoMap, ℕ_discrete,
}
use days_project.GeeCache.Lru.{Entry, Cache, remove_elem}
use days_project.GeeCache.Lru.Elements.{Distinct}

module _ {V : Type 0} where
  abbrev pub entry_at : (ℕ → Entry V) → ℕ → Text × V
  entry_at heap i = ((heap i).key, (heap i).value)

  -- The entries of the list, as the heap has them.
  abbrev pub entries : (ℕ → Entry V) → List ℕ → GoMap Text V
  entries heap [] = []
  entries heap (i ∷ l) = entry_at heap i ∷ entries heap l

  abbrev pub view : Cache V → GoMap Text V
  view c = entries c.heap c.ll

  pub entries-append :
      (heap : ℕ → Entry V) (l m : List ℕ) → entries heap (l ++ m) ≡ entries heap l ++ entries heap m
  entries-append heap [] m = refl
  entries-append heap (i ∷ l) m = ap (◌∷◌ (entry_at heap i)) (entries-append heap l m)

  pub entries_congr :
      (heap heap' : ℕ → Entry V) (l : List ℕ)
      → ((i : ℕ) → In i l → heap' i ≡ heap i)
      → entries heap' l ≡ entries heap l
  entries_congr heap heap' [] h = refl
  entries_congr heap heap' (i ∷ l) h =
      ap (λ (e : Entry V). (e.key, e.value) ∷ entries heap' l) (h i (inl refl))
      ∙ ap (◌∷◌ (entry_at heap i)) (entries_congr heap heap' l (λ j g. h j (inr g)))

  -- No element of the list has the key.
  pub absent :
      (heap : ℕ → Entry V) (l : List ℕ) (key : Text)
      → ((i : ℕ) → In i l → (heap i).key ≢ key)
      → (lookup text_dec key (entries heap l) ≡ none)
        × (delete text_dec key (entries heap l) ≡ entries heap l)
  unfolding lookup delete
  absent heap [] key h = (refl, refl)
  absent heap (i ∷ l) key h =
      let (a, b) = absent heap l key (λ j g. h j (inr g)) in
      let n = h i (inl refl) in (ground (arith, a, n), ground (arith, b, n))

  pub present :
      (heap : ℕ → Entry V) (l : List ℕ) (i : ℕ)
      → Distinct l
      → In i l
      → ((j : ℕ) → In j l → (heap j).key ≡ (heap i).key → j ≡ i)
      → (lookup text_dec (heap i).key (entries heap l) ≡ some (heap i).value)
        × (delete text_dec (heap i).key (entries heap l) ≡ entries heap (remove_elem i l))
  unfolding lookup delete remove_elem
  present heap [] i d h unique = absurd h
  present heap (j ∷ l) i d h unique = elim (ℕ_discrete i j) [
    | yes same ↦
        let others =
          absent heap l (heap i).key
            (λ k g e. d.0 (subst (λ t. In t l) (unique k (inr g) e ∙ same) g)) in
        let keys : (heap i).key ≡ (heap j).key = ap (λ t. (heap t).key) same in
        let found : (heap j).value ≡ (heap i).value = ap (λ t. (heap t).value) (sym same) in
        (
          ground (arith, keys, found),
          if_pos (text_dec (heap i).key (heap j).key) keys _ _
              ∙ others.1
              ∙ ap (entries heap) (sym (if_pos (ℕ_discrete i j) same _ _)),
        )
    | no other ↦
        let apart : (heap i).key ≢ (heap j).key = λ e. other (sym (unique j (inl refl) (sym e))) in
        let stands : In i l = elim h [ inl e ↦ absurd (other (sym e)) | inr g ↦ g ] in
        let (a, b) = present heap l i d.1 stands (λ k g e. unique k (inr g) e) in
        (
          ground (arith, apart, a),
          if_neg (text_dec (heap i).key (heap j).key) apart _ _
              ∙ ap (◌∷◌ (entry_at heap j)) b
              ∙ ap (entries heap) (sym (if_neg (ℕ_discrete i j) other _ _)),
        )
  ]
