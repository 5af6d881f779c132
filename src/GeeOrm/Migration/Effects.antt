-- ===== src/GeeOrm/Migration/Effects.antt =====
-- What a migration does to the columns of a table, where the database takes its statements as SQL
-- does.
use days_project.Common.{
  ◌≡◌, refl, sym, ap, subst, ◌∙◌, ◌↔◌, ◌⊎◌, inl, inr, List, [], ◌∷◌, ◌++◌, some, Text, codes,
  text_dec, In, join, Option-cases,
}
use mathlib.Core.List.{append_assoc, append-nil}
use days_project.GeeOrm.Dialect.{Dialect}
use days_project.GeeOrm.Schema.{Model, Field, Schema, get_field, parse}
use days_project.GeeOrm.Schema.Columns.{parse-columns}
use days_project.GeeOrm.Session.{Statement}
use days_project.GeeOrm.Engine.{difference}
use days_project.GeeOrm.Engine.Outcomes.{difference_iff}
use days_project.GeeOrm.Migration.{add_column, copy_table, tmp_name, drop_old, rename_table}
use days_project.GeeOrm.Migration.Steps.{alters, copies}

-- What the text of a statement makes of the columns of the table.
abbrev pub Effect : Type 0
Effect = Text → List Text → List Text

-- ALTER TABLE t ADD COLUMN name type;
abbrev pub alter_text : Schema → Field → Text
alter_text t f =
    (codes "ALTER TABLE "
      ++ (t.name ++ (codes " ADD COLUMN " ++ (f.name ++ (codes " " ++ (f.sql_type ++ codes ";"))))))
    ++ codes " "

-- CREATE TABLE tmp_t AS SELECT names from t; DROP TABLE t; ALTER TABLE tmp_t RENAME TO t;
abbrev pub recreate_text : Schema → Text
recreate_text t =
    (((codes "CREATE TABLE "
          ++ ((codes "tmp_" ++ t.name)
              ++ (codes " AS SELECT "
                  ++ (join t.field_names (codes ", ")
                      ++ (codes " from " ++ (t.name ++ codes ";"))))))
        ++ codes " ")
      ++ ((codes "DROP TABLE " ++ (t.name ++ codes ";")) ++ codes " "))
    ++ ((codes "ALTER TABLE "
          ++ ((codes "tmp_" ++ t.name) ++ (codes " RENAME TO " ++ (t.name ++ codes ";"))))
        ++ codes " ")

-- What SQL says of the columns: a field of the struct can be added, as the last column; and a copy
-- that selects columns of the table has these, and replaces the table under its name.
pub record IsSql (effect : Effect) (t : Schema) : Type 0 where
  pub adds :
      (f : Field) (cols : List Text)
      → In f t.fields
      → effect (alter_text t f) cols ≡ cols ++ f.name ∷ []
  pub selects :
      (cols : List Text)
      → ((x : Text) → In x t.field_names → In x cols)
      → effect (recreate_text t) cols ≡ t.field_names

abbrev pub columns_after : Effect → List Text → List Statement → List Text
columns_after effect cols [] = cols
columns_after effect cols (q ∷ qs) = columns_after effect (effect q.text cols) qs

listed_or_not : (x : Text) (l : List Text) → In x l ⊎ (¬ In x l)
listed_or_not x [] = inr (λ h. h)
listed_or_not x (y ∷ l) = elim (text_dec y x) [
  | yes e ↦ inl (inl e)
  | no n ↦ elim (listed_or_not x l) [
    | inl h ↦ inl (inr h)
    | inr m ↦ inr (λ h. elim h [ inl e ↦ n e | inr g ↦ m g ])
  ]
]

In-append : (x : Text) (a b : List Text) → In x (a ++ b) ↔ (In x a ⊎ In x b)
In-append x [] b = (λ h. inr h, λ h. elim h [ inl g ↦ absurd g | inr g ↦ g ])
In-append x (y ∷ a) b =
    let (to, from) = In-append x a b in
    (
      λ h. elim h [
        | inl e ↦ inl (inl e)
        | inr g ↦ elim (to g) [ inl f ↦ inl (inr f) | inr f ↦ inr f ]
      ],
      λ h. elim h [
        | inl g ↦ elim g [ inl e ↦ inl e | inr f ↦ inr (from (inl f)) ]
        | inr f ↦ inr (from (inr f))
      ],
    )

module _ (effect : Effect) (d : Dialect) (t : Schema) (sql : IsSql effect t) where
  columns_after-alters :
      (l cols : List Text) (later : List Statement)
      → ((x : Text)
          → In x l
          → (f : Field) × (get_field t x ≡ some f) × In f t.fields × (f.name ≡ x))
      → columns_after effect cols (alters t l ++ later) ≡ columns_after effect (cols ++ l) later
  unfolding alters add_column
  columns_after-alters [] cols later known =
      ap (λ c. columns_after effect c later) (sym (append-nil cols))
  columns_after-alters (x ∷ l) cols later known =
      let (f, found, listed, named) = known x (inl refl) in
      let added = sql.adds f cols listed ∙ ap (λ n. cols ++ n ∷ []) named in
      rw (found, alters)
        (ap (λ c. columns_after effect c (alters t l ++ later)) added
          ∙ columns_after-alters l (cols ++ x ∷ []) later (λ y h. known y (inr h))
          ∙ ap (λ c. columns_after effect c later) (append_assoc cols (x ∷ []) l))

  columns_after-copies :
      (del cols : List Text)
      → ((x : Text) → In x cols → In x t.field_names ⊎ In x del)
      → ((x : Text) → In x t.field_names → In x cols)
      → (x : Text) → In x (columns_after effect cols (copies t del)) ↔ In x t.field_names
  unfolding copies copy_table tmp_name drop_old rename_table
  columns_after-copies [] cols dropped kept x =
      (λ h. elim (dropped x h) [ inl g ↦ g | inr g ↦ absurd g ], λ h. kept x h)
  columns_after-copies (c ∷ del) cols dropped kept x =
      let same = sql.selects cols kept in (λ h. subst (In x) same h, λ h. subst (In x) (sym same) h)

  -- A field of the schema for each of its columns.
  known_fields :
      (value : Model)
      → parse value d ≡ some t
      → (x : Text) → In x t.field_names
      → (f : Field) × (get_field t x ≡ some f) × In f t.fields × (f.name ≡ x)
  known_fields value parsed x h =
      let law = (parse-columns value d t parsed).3 x in
      elim (Option-cases (get_field t x)) [
        | inl e ↦ absurd (law.0.1 h e)
        | inr (f, e) ↦ (f, e, (law.1 f e).0, (law.1 f e).1)
      ]

  -- After the changes of a migration the table has exactly the columns of the struct.
  pub columns_after-changes :
      (value : Model) (cols : List Text)
      → parse value d ≡ some t
      → (x : Text)
      → In x (
          columns_after effect cols
            (alters t (difference t.field_names cols) ++ copies t (difference cols t.field_names)))
        ↔ In x t.field_names
  columns_after-changes value cols parsed x =
      let new = difference t.field_names cols in
      let all_known = known_fields value parsed in
      let added =
        columns_after-alters new cols (copies t (difference cols t.field_names))
          (λ y h. all_known y ((difference_iff y t.field_names cols).0 h).0) in
      let ended =
        columns_after-copies (difference cols t.field_names) (cols ++ new)
          (λ y h. elim ((In-append y cols new).0 h) [
            | inl g ↦ elim (listed_or_not y t.field_names) [
              | inl k ↦ inl k
              | inr n ↦ inr ((difference_iff y cols t.field_names).1 (g, n))
            ]
            | inr g ↦ inl ((difference_iff y t.field_names cols).0 g).0
          ])
          (λ y h. (In-append y cols new).1 (elim (listed_or_not y cols) [
            | inl g ↦ inl g
            | inr n ↦ inr ((difference_iff y t.field_names cols).1 (h, n))
          ]))
          x in
      (λ h. ended.0 (subst (In x) added h), λ h. subst (In x) (sym added) (ended.1 h))
