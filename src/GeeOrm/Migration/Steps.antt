-- ===== src/GeeOrm/Migration/Steps.antt =====
-- What a migration asks of the database when nothing fails.
use days_project.Common.{
  ℕ, ◌≡◌, refl, sym, ap, ◌≢◌, inl, inr, List, [], ◌∷◌, ◌++◌, none, some, Bool, true, false, Text,
  codes, Result, ok, arith, map, In, join, Option-cases, if_neg, if_pos, ite, text_dec,
}
use mathlib.Core.List.{append_assoc, append-nil}
use days_project.GeeOrm.Clause.{slice, nil}
use days_project.GeeOrm.Dialect.{Dialect, table_exist_sql}
use days_project.GeeOrm.Schema.{Model, Schema, get_field, parse}
use days_project.GeeOrm.Schema.Columns.{parse-columns}
use days_project.GeeOrm.Session.{
  Statement, Rows, Database, new_session, raw, exec, submit, clear, query_rows, set_model,
  parse_model, has_table, query_row, create_table, column_def, error_of,
}
use days_project.GeeOrm.Session.Queries.{clear_session}
use days_project.GeeOrm.Engine.{begin, commit, work, result, transaction, difference}
use days_project.GeeOrm.Engine.Outcomes.{difference_iff}
use days_project.GeeOrm.Migration.{
  select_one, add_column, copy_table, drop_old, rename_table, raw_copy, rows_of, add_columns,
  drop_columns, alter_table, migrate_in, migrate,
}

-- A statement without variables, as `Raw` leaves it.
abbrev pub plain : Text → Statement
plain text = record { text = text ++ codes " "; vars = [] }

-- One statement for each column that is added.
unfoldable pub alters : Schema → List Text → List Statement
alters t [] = []
alters t (col ∷ rest) = elim (get_field t col) [
  | none ↦ alters t rest
  | some f ↦ plain (add_column t f) ∷ alters t rest
]

-- The statement that drops columns, if there are any to drop: one text for a copy of the table, the
-- removal of the old one and the renaming.
unfoldable pub copies : Schema → List Text → List Statement
copies t [] = []
copies t (col ∷ rest) =
    record {
      text =
          ((copy_table t ++ codes " ") ++ (drop_old t ++ codes " "))
          ++ (rename_table t ++ codes " ");
      vars = [];
    }
    ∷ []

-- Every `Exec` succeeds.
abbrev pub Works : Database → Type 0
Works db = (l : List Statement) → (n : Result ℕ) × (db.exec_reply l ≡ ok n)

module _ (db : Database) (works : Works db) (d : Dialect) (t : Schema) where
  add_columns-alters :
      (cols : List Text) (sent : List Statement)
      → ((x : Text) → In x cols → get_field t x ≢ none)
      → add_columns db t cols (clear_session d t sent)
        ≡ some (clear_session d t (sent ++ alters t cols), false)
  unfolding add_columns alters exec raw submit clear
  add_columns-alters [] sent known =
      ap (λ l. some (clear_session d t l, false)) (sym (append-nil sent))
  add_columns-alters (col ∷ rest) sent known = elim (Option-cases (get_field t col)) [
    | inl e ↦ absurd (known col (inl refl) e)
    | inr (f, e) ↦
        let q = plain (add_column t f) in
        let (n, worked) = works (sent ++ q ∷ []) in
        let later = add_columns-alters rest (sent ++ q ∷ []) (λ x h. known x (inr h)) in
        ground (arith, e, worked, later, append_assoc sent (q ∷ []) (alters t rest))
  ]

  drop_columns-copies :
      (del : List Text) (sent : List Statement)
      → drop_columns db t del (clear_session d t sent, false)
        ≡ (clear_session d t (sent ++ copies t del), none)
  unfolding drop_columns copies raw_copy exec raw submit clear error_of
  drop_columns-copies [] sent = ap (λ l. (clear_session d t l, none)) (sym (append-nil sent))
  drop_columns-copies (col ∷ rest) sent =
      let (n, worked) = works (sent ++ copies t (col ∷ rest)) in ground (arith, worked)

  known_names :
      (value : Model)
      → parse value d ≡ some t
      → (x : Text) → In x t.field_names
      → get_field t x ≢ none
  known_names value parsed x h = ((parse-columns value d t parsed).3 x).0.1 h

  -- The statements of `HasTable`, and of the query for the table's columns.
  abbrev pub exist_query : Statement
  exist_query = record {
    text = (table_exist_sql d t.name).0 ++ codes " ";
    vars = (table_exist_sql d t.name).1;
  }

  abbrev pub columns_query : Statement
  columns_query = record { text = select_one t ++ codes " "; vars = slice nil ∷ [] }

  -- The statements of a migration of a table that exists with the columns `columns`.
  abbrev pub plan : List Text → List Statement
  plan columns =
      ((exist_query ∷ columns_query ∷ []) ++ alters t (difference t.field_names columns))
      ++ copies t (difference columns t.field_names)

  alter_table-plan :
      (value : Model) (rows : Rows) (sent : List Statement)
      → parse value d ≡ some t
      → db.query_reply (sent ++ columns_query ∷ []) ≡ ok rows
      → alter_table db (clear_session d t sent)
        ≡ some (
          clear_session d t (
              ((sent ++ columns_query ∷ []) ++ alters t (difference t.field_names rows.columns))
              ++ copies t (difference rows.columns t.field_names)),
          none,
        )
  unfolding alter_table query_rows raw submit clear rows_of
  alter_table-plan value rows sent parsed found =
      let now = sent ++ columns_query ∷ [] in
      let added =
        add_columns-alters (difference t.field_names rows.columns) now (λ x h.
          known_names value parsed x ((difference_iff x t.field_names rows.columns).0 h).0) in
      let dropped =
        drop_columns-copies (difference rows.columns t.field_names)
          (now ++ alters t (difference t.field_names rows.columns)) in
      ground (arith, found, added, dropped)

  set_model-new :
      (value : Model)
      → parse value d ≡ some t
      → set_model (new_session d) value ≡ some (clear_session d t [])
  unfolding set_model parse_model new_session
  set_model-new value parsed = ground (arith, parsed)

  has_table-exist :
      (found : Bool)
      → ite (text_dec (db.scan_reply (exist_query ∷ [])) t.name) true false ≡ found
      → has_table db (clear_session d t []) ≡ some (clear_session d t (exist_query ∷ []), found)
  unfolding has_table query_row raw submit clear
  has_table-exist found e = ap (λ b. some (clear_session d t (exist_query ∷ []), b)) e

  -- A migration of a struct whose table exists, when no statement fails: the transaction asks whether
  -- the table exists, selects a row to see the columns, adds each column that the struct has and the
  -- table lacks, and exactly if the table has a column that the struct lacks, copies the table without
  -- such columns; then it commits.
  pub migrate-plan :
      (value : Model) (rows : Rows)
      → parse value d ≡ some t
      → db.scan_reply (exist_query ∷ []) ≡ t.name
      → db.query_reply (exist_query ∷ columns_query ∷ []) ≡ ok rows
      → migrate db d none none value
        ≡ some (
          (begin ∷ map (λ (q : Statement). work q.text) (plan rows.columns)) ++ commit ∷ [],
          result (some tt) none,
        )
  unfolding migrate migrate_in transaction
  migrate-plan value rows parsed exists found =
      let modelled = set_model-new value parsed in
      let there = has_table-exist true (if_pos (text_dec _ t.name) exists true false) in
      let altered = alter_table-plan value rows (exist_query ∷ []) parsed found in
      ground (arith, modelled, there, altered)

  -- When the table does not exist and no statement fails, the transaction creates it and commits.
  pub migrate_creates :
      (value : Model)
      → parse value d ≡ some t
      → db.scan_reply (exist_query ∷ []) ≢ t.name
      → (q : Statement) × (create_table db (clear_session d t (exist_query ∷ []))
          ≡ some (clear_session d t (exist_query ∷ q ∷ []), none))
        × (migrate db d none none value
            ≡ some
                (begin ∷ work exist_query.text ∷ work q.text ∷ commit ∷ [], result (some tt) none))
  unfolding migrate migrate_in transaction create_table exec raw submit clear error_of
  migrate_creates value parsed missing =
      let q = plain (
        codes "CREATE TABLE "
        ++ (t.name
            ++ (codes " (" ++ (join (map column_def t.fields) (codes ",") ++ codes ");")))) in
      let modelled = set_model-new value parsed in
      let there = has_table-exist false (if_neg (text_dec _ t.name) missing true false) in
      let (n, worked) = works (exist_query ∷ q ∷ []) in
      (q, ground (arith, worked), ground (arith, modelled, there, worked))
