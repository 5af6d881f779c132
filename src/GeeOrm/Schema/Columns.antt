-- ===== src/GeeOrm/Schema/Columns.antt =====
-- The columns of a parsed schema: the exported fields that are not embedded, in order.
use days_project.Common.{
  ◌≡◌, refl, sym, ap, subst, ◌∙◌, ◌≢◌, ◌↔◌, ◌⊎◌, inl, inr, List, [], ◌∷◌, ◌++◌, none, some, true,
  false, Text, text_dec, lookup, lookup-insert, In, Bool, ltb, if◌then◌else◌, length, arith, map,
  Bool-cases, Option-cases, eq_of_some,
}
use mathlib.Core.List.{append_assoc, append-nil, map-append}
use days_project.GeeOrm.Clause.{Value}
use days_project.GeeOrm.Dialect.{Dialect}
use days_project.GeeOrm.Schema.{
  StructField, Model, Field, Schema, get_field, is_exported, is_column, field_of, append_field,
  parse_fields, parse, values_of, record_values,
}

-- The name starts with one of the letters A to Z.
abbrev pub is_capital : Text → Bool
is_capital [] = false
is_capital (c ∷ s) = if ltb c 65 then false else ltb c 91

-- The names of the fields that are not embedded and start with a capital letter.
unfoldable pub columns : List StructField → List Text
columns [] = []
columns (p ∷ rest) =
    let more = columns rest in
    if p.anonymous then more else (if is_capital p.name then p.name ∷ more else more)

is_exported-capital : (name : Text) → is_exported name ≡ is_capital name
unfolding is_exported
is_exported-capital [] = refl
is_exported-capital (c ∷ s) = ground arith

columns_taken :
    (p : StructField) (rest : List StructField)
    → is_column p ≡ true
    → columns (p ∷ rest) ≡ p.name ∷ columns rest
unfolding columns is_column
columns_taken p rest e = ground (arith, e, is_exported-capital p.name)

columns_skipped :
    (p : StructField) (rest : List StructField)
    → is_column p ≡ false
    → columns (p ∷ rest) ≡ columns rest
unfolding columns is_column
columns_skipped p rest e = ground (arith, e, is_exported-capital p.name)

-- What `Parse` makes so far: the names are those of the fields, and each has its entry in the map.
pub record IsValid (s : Schema) : Type 0 where
  pub named : map (λ (f : Field). f.name) s.fields ≡ s.field_names
  pub mapped :
      (x : Text)
      → (f : Field) → lookup text_dec x s.field_map ≡ some f
      → In f s.fields × (f.name ≡ x)
  pub keyed : (x : Text) → In x s.field_names → lookup text_dec x s.field_map ≢ none

In-snoc_left : {A : Type 0} (a b : A) (xs : List A) → In a xs → In a (xs ++ b ∷ [])
In-snoc_left a b [] h = absurd h
In-snoc_left a b (x ∷ xs) (inl e) = inl e
In-snoc_left a b (x ∷ xs) (inr h) = inr (In-snoc_left a b xs h)

In-snoc_last : {A : Type 0} (b : A) (xs : List A) → In b (xs ++ b ∷ [])
In-snoc_last b [] = inl refl
In-snoc_last b (x ∷ xs) = inr (In-snoc_last b xs)

In-of-snoc : {A : Type 0} (a b : A) (xs : List A) → In a (xs ++ b ∷ []) → In a xs ⊎ (b ≡ a)
In-of-snoc a b [] (inl e) = inr e
In-of-snoc a b [] (inr h) = absurd h
In-of-snoc a b (x ∷ xs) (inl e) = inl (inl e)
In-of-snoc a b (x ∷ xs) (inr h) = elim (In-of-snoc a b xs h) [ inl g ↦ inl (inr g) | inr e ↦ inr e ]

append_field-IsValid : {s : Schema} (f : Field) → IsValid s → IsValid (append_field f s)
unfolding append_field
append_field-IsValid {s} f v = record {
  named = map-append (λ (g : Field). g.name) s.fields (f ∷ []) ∙ ap (λ t. t ++ f.name ∷ []) v.named;
  mapped = λ x g e. elim (text_dec x f.name) [
    | yes p ↦
        let here : f ≡ g = ground (arith, lookup-insert text_dec x f.name f s.field_map, p, e) in
        (rw (← here) (In-snoc_last f s.fields), ap (λ (t : Field). t.name) (sym here) ∙ sym p)
    | no n ↦
        let (h, same) =
          v.mapped x g (ground (arith, lookup-insert text_dec x f.name f s.field_map, n, e)) in
        (In-snoc_left g f s.fields h, same)
  ];
  keyed = λ x h. elim (text_dec x f.name) [
    | yes p ↦ ground (arith, lookup-insert text_dec x f.name f s.field_map, p)
    | no n ↦ elim (In-of-snoc x f.name s.field_names h) [
      | inr e ↦ absurd (n (sym e))
      | inl g ↦ ground (arith, lookup-insert text_dec x f.name f s.field_map, v.keyed x g)
    ]
  ];
}

empty-IsValid :
    {m : Model} {name : Text}
    → IsValid (record { model = m; name = name; fields = []; field_names = []; field_map = [] })
unfolding lookup
empty-IsValid = record { named = refl; mapped = λ x f e. absurd (cc); keyed = λ x h. absurd h }

field_of-name :
    (d : Dialect) (p : StructField) (f : Field) → field_of d p ≡ some f → f.name ≡ p.name
unfolding field_of
field_of-name d p f e = ground arith

In-map-name : (f : Field) (fs : List Field) → In f fs → In f.name (map (λ (g : Field). g.name) fs)
In-map-name f [] h = absurd h
In-map-name f (g ∷ fs) (inl e) = inl (ap (λ (t : Field). t.name) e)
In-map-name f (g ∷ fs) (inr h) = inr (In-map-name f fs h)

found-In :
    {s : Schema}
    → IsValid s
    → (x : Text) → lookup text_dec x s.field_map ≢ none
    → In x s.field_names
found-In {s} v x h = elim (Option-cases (lookup text_dec x s.field_map)) [
  | inl e ↦ absurd (h e)
  | inr (f, e) ↦
      let (stands, same) = v.mapped x f e in
      subst (λ t. In t s.field_names) same
        (subst (In f.name) v.named (In-map-name f s.fields stands))
]

parse_fields-IsValid :
    (d : Dialect) (ps : List StructField) (s t : Schema)
    → IsValid s
    → parse_fields d ps s ≡ some t
    → IsValid t × (t.field_names ≡ s.field_names ++ columns ps) × (t.name ≡ s.name)
unfolding parse_fields columns append_field
parse_fields-IsValid d [] s t v e =
    let same : s ≡ t = eq_of_some e in
    (
      subst IsValid same v,
      ap (λ (x : Schema). x.field_names) (sym same) ∙ sym (append-nil s.field_names),
      ap (λ (x : Schema). x.name) (sym same),
    )
parse_fields-IsValid d (p ∷ rest) s t v e = elim (Bool-cases (is_column p)) [
  | inr skipped ↦
      rw (columns_skipped p rest skipped)
        (parse_fields-IsValid d rest s t v (rw (skipped, parse_fields) at e))
  | inl taken ↦ elim (Option-cases (field_of d p)) [
    | inl bad ↦ absurd (cc (rw (taken, bad, parse_fields) at e))
    | inr (f, made) ↦
        let (w, names, same) =
          parse_fields-IsValid d rest (append_field f s) t (append_field-IsValid f v)
            (rw (taken, made, parse_fields) at e) in
        (
          w,
          rw (columns_taken p rest taken) (
              names
              ∙ append_assoc s.field_names (f.name ∷ []) (columns rest)
              ∙ ap (λ n. s.field_names ++ n ∷ columns rest) (field_of-name d p f made)),
          same,
        )
  ]
]

-- `Parse` gives a schema of the struct's name whose columns are, in their order, the fields that are not
-- embedded and whose name starts with a capital letter. Each column has a field under its name, and `GetField` finds a field
-- exactly for the columns.
pub parse-columns :
    (m : Model) (d : Dialect) (s : Schema)
    → parse m d ≡ some s
    → (s.name ≡ m.name)
      × (s.field_names ≡ columns m.fields)
      × (map (λ (f : Field). f.name) s.fields ≡ s.field_names)
      × ((x : Text)
          → ((get_field s x ≢ none) ↔ In x s.field_names)
            × ((f : Field) → get_field s x ≡ some f → In f s.fields × (f.name ≡ x)))
unfolding parse get_field
parse-columns m d s e =
    let (v, names, same) =
      parse_fields-IsValid d m.fields
        (record { model = m; name = m.name; fields = []; field_names = []; field_map = [] }) s
        empty-IsValid e in
    (same, names, v.named, λ x. ((found-In v x, v.keyed x), v.mapped x))

values_of_total :
    (fs : List Field) (dest : Model)
    → ((x : Text) → In x (map (λ (f : Field). f.name) fs) → lookup text_dec x dest.values ≢ none)
    → (vs : List Value) × (values_of fs dest.values ≡ some vs) × (length vs ≡ length fs)
unfolding values_of
values_of_total [] dest has = ([], refl, refl)
values_of_total (f ∷ fs) dest has = elim (Option-cases (lookup text_dec f.name dest.values)) [
  | inl e ↦ absurd (has f.name (inl refl) e)
  | inr (v, e) ↦
      let (vs, ran, same) = values_of_total fs dest (λ x h. has x (inr h)) in
      (v ∷ vs, ground (arith, e, ran), omega (arith, same))
]

-- `RecordValues` of a value that has the schema's columns gives one value for each of them.
pub record_values_total :
    (s : Schema) (dest : Model)
    → map (λ (f : Field). f.name) s.fields ≡ s.field_names
    → ((x : Text) → In x s.field_names → lookup text_dec x dest.values ≢ none)
    → (vs : List Value) × (record_values s dest ≡ some vs) × (length vs ≡ length s.fields)
unfolding record_values
record_values_total s dest named has =
    values_of_total s.fields dest (λ x h. has x (subst (In x) named h))
