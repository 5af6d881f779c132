-- ===== src/GeeCache/Lru/Invariant.antt =====
-- The map and the list of the LRU cache hold the same elements, and `nbytes` is their size.
use days_project.Common.{
  ℕ, suc, ◌+◌, ◌^◌, ◌<◌, ◌≡◌, refl, sym, ap, ◌≢◌, inl, inr, ◌∷◌, none, some, In, length, arith,
  if_pos, if_neg, lookup, Text, text_dec, lookup-delete, lookup-insert_self, lookup-insert_ne,
  lookup-delete_ne, Option-cases, insert, delete, GoMap, Bool, add64, sub64, ◌∙◌, subst,
}
use days_project.GeeCache.Lru.{
  Entry, Cache, new, remove_elem, back, update, get, remove_oldest, store,
}
use days_project.GeeCache.Lru.Elements.{
  Distinct, total, In-of_In-remove_elem, In-remove_elem, ne_of_In-remove_elem, Distinct-remove_elem,
  move_to_front_of_In, In-move_to_front, total-remove_elem, total_congr, update_self, update_ne,
  In-of_back,
}

module _ {V : Type 0} (size : V → ℕ) where
  abbrev pub weight : (ℕ → Entry V) → ℕ → ℕ
  weight heap i = length (heap i).key + size (heap i).value

  pub record IsValid (c : Cache V) : Type 0 where
    pub mapped :
        (k : Text) (i : ℕ) → lookup text_dec k c.cache ≡ some i → In i c.ll × ((c.heap i).key ≡ k)
    pub listed : (i : ℕ) → In i c.ll → lookup text_dec (c.heap i).key c.cache ≡ some i
    pub allocated : (i : ℕ) → In i c.ll → i < c.fresh
    pub distinct : Distinct c.ll
    pub counted : c.nbytes ≡ total (weight c.heap) c.ll
    pub small : total (weight c.heap) c.ll < 2 ^ 63

-- `d` after a deletion of the key `q`: only other keys are left.
lookup-delete-some :
    (k q : Text) (i : ℕ) (m : GoMap Text ℕ)
    → lookup text_dec k (delete text_dec q m) ≡ some i
    → (k ≢ q) × (lookup text_dec k m ≡ some i)
lookup-delete-some k q i m e = elim (text_dec k q) [
  | yes p ↦ absurd (cc (rw (lookup-delete, if_pos (text_dec k q) p) at e))
  | no p ↦ (p, rw (lookup-delete, if_neg (text_dec k q) p) at e)
]

module _ {V : Type 0} (size : V → ℕ) {c : Cache V} (v : IsValid size c) where
  -- Two elements with one key are one.
  pub key_unique : (i j : ℕ) → In i c.ll → In j c.ll → (c.heap i).key ≡ (c.heap j).key → i ≡ j
  key_unique i j hi hj e = cc (v.listed i hi, v.listed j hj)

  -- A list that only has a mapped element moved to its front.
  moved-IsValid : (i : ℕ) → In i c.ll → IsValid size (record c { ll = i ∷ remove_elem i c.ll })
  unfolding total
  moved-IsValid i h = record {
    mapped = λ k j e. ((In-move_to_front i j c.ll h).1 (v.mapped k j e).0, (v.mapped k j e).1);
    listed = λ j g. v.listed j ((In-move_to_front i j c.ll h).0 g);
    allocated = λ j g. v.allocated j ((In-move_to_front i j c.ll h).0 g);
    distinct = (
      λ g. ne_of_In-remove_elem i i c.ll v.distinct g refl,
      Distinct-remove_elem i c.ll v.distinct,
    );
    counted = v.counted ∙ sym (total-remove_elem (weight size c.heap) i c.ll h);
    small = rw (total-remove_elem (weight size c.heap) i c.ll h) v.small;
  }

  pub get-IsValid : (key : Text) → IsValid size (get c key).0
  unfolding get
  get-IsValid key = elim (Option-cases (lookup text_dec key c.cache)) [
    | inl e ↦ rw (e, get) v
    | inr (i, e) ↦
        rw (e, get, move_to_front_of_In i c.ll (v.mapped key i e).0)
          (moved-IsValid i (v.mapped key i e).0)
  ]

  pub remove_oldest-IsValid : IsValid size (remove_oldest size c)
  unfolding remove_oldest
  remove_oldest-IsValid = elim (Option-cases (back c.ll)) [
    | inl e ↦ rw (e, remove_oldest) v
    | inr (i, e) ↦
        let h = In-of_back c.ll i e in
        rw (e, remove_oldest)
          (record {
            mapped = λ k j g.
                let (other, found) = lookup-delete-some k (c.heap i).key j c.cache g in
                let (stands, same) = v.mapped k j found in
                (
                  In-remove_elem i j c.ll stands
                      (λ p. other (sym same ∙ ap (λ t. (c.heap t).key) p)),
                  same,
                );
            listed = λ j g.
                let stands = In-of_In-remove_elem i j c.ll g in
                lookup-delete_ne text_dec (c.heap j).key (c.heap i).key c.cache
                  (λ p. ne_of_In-remove_elem i j c.ll v.distinct g (key_unique j i stands h p))
                ∙ v.listed j stands;
            allocated = λ j g. v.allocated j (In-of_In-remove_elem i j c.ll g);
            distinct = Distinct-remove_elem i c.ll v.distinct;
            counted =
                omega (arith, v.counted, v.small, total-remove_elem (weight size c.heap) i c.ll h);
            small = omega (arith, v.small, total-remove_elem (weight size c.heap) i c.ll h);
          })
  ]

  key_kept :
      (i : ℕ) (value : V) (j : ℕ)
      → (update c.heap i (record { key = (c.heap i).key; value = value }) j).key ≡ (c.heap j).key
  key_kept i value j = ground arith

  -- A value is written through a mapped element's pointer, which then stands at the front.
  overwritten-IsValid :
      (i : ℕ) (value : V)
      → In i c.ll
      → total (weight size c.heap) c.ll + size value < 2 ^ 63
      → IsValid size (record c {
        ll = i ∷ remove_elem i c.ll;
        nbytes = add64 c.nbytes (sub64 (size value) (size (c.heap i).value));
        heap = update c.heap i (record { key = (c.heap i).key; value = value });
      })
  unfolding total
  overwritten-IsValid i value h room =
      let new_heap = update c.heap i (record { key = (c.heap i).key; value = value }) in
      let rest = remove_elem i c.ll in
      let at_i : weight size new_heap i ≡ length (c.heap i).key + size value =
        ap (λ (e : Entry V). length e.key + size e.value) (update_self c.heap i _) in
      let elsewhere : total (weight size new_heap) rest ≡ total (weight size c.heap) rest =
        total_congr _ _ rest (λ j g.
          ap (λ (e : Entry V). length e.key + size e.value)
            (update_ne c.heap i _ j (λ p. ne_of_In-remove_elem i j c.ll v.distinct g (sym p)))) in
      record {
        mapped = λ k j e. (
          (In-move_to_front i j c.ll h).1 (v.mapped k j e).0,
          key_kept i value j ∙ (v.mapped k j e).1,
        );
        listed = λ j g. rw (key_kept i value j) (v.listed j ((In-move_to_front i j c.ll h).0 g));
        allocated = λ j g. v.allocated j ((In-move_to_front i j c.ll h).0 g);
        distinct = (moved-IsValid i h).distinct;
        counted = omega (
          arith,
          at_i,
          elsewhere,
          v.counted,
          v.small,
          room,
          total-remove_elem (weight size c.heap) i c.ll h,
        );
        small =
            omega (arith, at_i, elsewhere, room, total-remove_elem (weight size c.heap) i c.ll h);
      }

  pushed-IsValid :
      (key : Text) (value : V)
      → lookup text_dec key c.cache ≡ none
      → total (weight size c.heap) c.ll + length key + size value < 2 ^ 63
      → IsValid size (record c {
        ll = c.fresh ∷ c.ll;
        cache = insert text_dec key c.fresh c.cache;
        nbytes = add64 c.nbytes (add64 (length key) (size value));
        heap = update c.heap c.fresh (record { key = key; value = value });
        fresh = suc c.fresh;
      })
  unfolding total
  pushed-IsValid key value unmapped room =
      let new_heap = update c.heap c.fresh (record { key = key; value = value }) in
      let not_listed : ¬ In c.fresh c.ll = λ g. absurd (omega (arith, v.allocated c.fresh g)) in
      let old = λ (j : ℕ) (g : In j c.ll).
        update_ne c.heap c.fresh (record { key = key; value = value }) j
          (λ p. not_listed (subst (λ t. In t c.ll) (sym p) g)) in
      let at_new : new_heap c.fresh ≡ record { key = key; value = value } =
        update_self c.heap c.fresh _ in
      let at_fresh : weight size new_heap c.fresh ≡ length key + size value =
        ap (λ (e : Entry V). length e.key + size e.value) (update_self c.heap c.fresh _) in
      let elsewhere : total (weight size new_heap) c.ll ≡ total (weight size c.heap) c.ll =
        total_congr _ _ c.ll (λ j g. ap (λ (e : Entry V). length e.key + size e.value) (old j g)) in
      record {
        mapped = λ k j e. elim (text_dec k key) [
          | yes p ↦
              let here : c.fresh ≡ j = cc (lookup-insert_self text_dec k key c.fresh c.cache p) in
              (
                inl here,
                ap (λ t. (new_heap t).key) (sym here) ∙ ap (λ (e : Entry V). e.key) at_new ∙ sym p,
              )
          | no p ↦
              let (g, same) =
                v.mapped k j (sym (lookup-insert_ne text_dec k key c.fresh c.cache p) ∙ e) in
              (inr g, ap (λ (e : Entry V). e.key) (old j g) ∙ same)
        ];
        listed = λ j. elim [
          | inl e ↦
              ap (λ t. lookup text_dec (new_heap t).key (insert text_dec key c.fresh c.cache))
                (sym e)
              ∙ ap (λ (x : Entry V). lookup text_dec x.key (insert text_dec key c.fresh c.cache))
                  at_new
              ∙ lookup-insert_self text_dec key key c.fresh c.cache refl
              ∙ ap some e
          | inr g ↦
              ap (λ (e : Entry V). lookup text_dec e.key (insert text_dec key c.fresh c.cache))
                (old j g)
              ∙ lookup-insert_ne text_dec _ key c.fresh c.cache
                  (λ p. absurd (cc (unmapped, v.listed j g, ap (λ t. lookup text_dec t c.cache) p)))
              ∙ v.listed j g
        ];
        allocated = λ j. elim [ inl e ↦ omega arith | inr g ↦ omega (arith, v.allocated j g) ];
        distinct = (not_listed, v.distinct);
        counted = omega (arith, at_fresh, elsewhere, v.counted, v.small, room);
        small = omega (arith, at_fresh, elsewhere, room);
      }

  pub store-IsValid :
      (key : Text) (value : V)
      → total (weight size c.heap) c.ll + length key + size value < 2 ^ 63
      → IsValid size (store size c key value)
  unfolding store
  store-IsValid key value room = elim (Option-cases (lookup text_dec key c.cache)) [
    | inl e ↦ rw (e, store) (pushed-IsValid key value e room)
    | inr (i, e) ↦
        let (h, _) = v.mapped key i e in
        rw (e, store, move_to_front_of_In i c.ll h)
          (overwritten-IsValid i value h (omega (arith, room)))
  ]

pub new-IsValid :
    {V : Type 0} (size : V → ℕ) (max : ℕ) (notify : Bool) (heap : ℕ → Entry V)
    → IsValid size (new max notify heap)
unfolding new lookup total
new-IsValid size max notify heap = record {
  mapped = λ k i e. absurd (cc);
  listed = λ i g. absurd g;
  allocated = λ i g. absurd g;
  distinct = tt;
  counted = refl;
  small = omega arith;
}
