-- ===== src/GeeOrm/Session/Inserts.antt =====
-- The statement of `Insert`.
use days_project.Common
use days_project.Common.{
  ℕ, suc, ◌*◌, ◌≡◌, refl, sym, ap, ◌∙◌, ◌≢◌, inl, inr, List, [], ◌∷◌, ◌++◌, Option, none, some,
  Text, codes, Result, ok, err, text_dec, ite, if_pos, if_neg, arith, All, In, length, join, map,
  lookup, lookup-insert, ℕ_discrete, Option-cases, ◌>>=◌, >>=-eq-some, eq_of_some, subst,
}
use days_project.GeeOrm.Clause
use days_project.GeeOrm.Clause.{Value, slice, nil, cons, to_list, of_list, gen_values}
use days_project.GeeOrm.Clause.Placeholders.{HasColumns, marks, gen_values-marks}
use days_project.GeeOrm.Dialect.{Dialect}
use days_project.GeeOrm.Schema.{Model, Field, Schema}
use days_project.GeeOrm.Schema.Columns.{record_values_total}
use days_project.GeeOrm.Session.{
  Statement, Session, Database, clear, submit, set_model, set_clause, insert_loop, exec, run_clause,
  insert, raw,
}
use days_project.GeeOrm.Session.Queries.{clear_session}

-- The record is of the table's type, and has a value for each of its columns.
abbrev pub IsRecordOf : Schema → Model → Type 0
IsRecordOf t m =
    (m.type_of ≡ t.model.type_of)
    × ((x : Text) → In x t.field_names → lookup text_dec x m.values ≢ none)

abbrev pub insert_text : Schema → Text
insert_text t =
    codes "INSERT INTO "
    ++ (t.name ++ (codes " (" ++ (join t.field_names (codes ",") ++ codes ")")))

-- A session with the table `t`, its clause besides.
abbrev with_clause : Dialect → Schema → List Statement → Clause.Clause → Session
with_clause d t sent c = record (clear_session d t sent) { clause = c }

-- The clause holds the INSERT of the table and nothing else.
insert_clause : Schema → Clause.Clause
insert_clause t = record {
  sql = (Clause.insert_into, insert_text t) ∷ [];
  sql_vars = (Clause.insert_into, []) ∷ [];
}

set_clause-insert :
    (d : Dialect) (t : Schema) (sent : List Statement)
    → set_clause
        (clear_session d t sent)
        Clause.insert_into
        (Clause.str t.name ∷ Clause.strs t.field_names ∷ [])
      ≡ some (with_clause d t sent (insert_clause t))
unfolding set_clause Clause.set Clause.generate insert_clause Common.insert Common.delete
set_clause-insert d t sent = refl

set_clause-insert_again :
    (d : Dialect) (t : Schema) (sent : List Statement)
    → set_clause
        (with_clause d t sent (insert_clause t))
        Clause.insert_into
        (Clause.str t.name ∷ Clause.strs t.field_names ∷ [])
      ≡ some (with_clause d t sent (insert_clause t))
unfolding set_clause Clause.set Clause.generate insert_clause Common.insert Common.delete
    Clause.ClauseType-discrete
set_clause-insert_again d t sent = refl

to_list-of_list : (vs : List Value) → to_list (of_list vs) ≡ vs
to_list-of_list [] = refl
to_list-of_list (v ∷ vs) = ap (◌∷◌ v) (to_list-of_list vs)

module _ (d : Dialect) (t : Schema) (sent : List Statement)
    (named : map (λ (f : Field). f.name) t.fields ≡ t.field_names) where
  -- One round of the loop, from a clause to which the INSERT is added.
  insert_one :
      (c : Clause.Clause) (m : Model) (rest : List Model) (rows : List Value)
      → set_clause
          (with_clause d t sent c)
          Clause.insert_into
          (Clause.str t.name ∷ Clause.strs t.field_names ∷ [])
        ≡ some (with_clause d t sent (insert_clause t))
      → IsRecordOf t m
      → insert_loop (with_clause d t sent (insert_clause t)) rest
        ≡ some (with_clause d t sent (insert_clause t), rows)
      → (row : Value) × HasColumns (length t.fields) row
        × (insert_loop (with_clause d t sent c) (m ∷ rest)
            ≡ some (with_clause d t sent (insert_clause t), row ∷ rows))
  unfolding insert_loop set_model
  insert_one c m rest rows ready (same, has) ran =
      let (vs, read, many) = record_values_total t m named has in
      let modelled : set_model (with_clause d t sent c) m ≡ some (with_clause d t sent c) =
        if_pos (text_dec m.type_of t.model.type_of) same _ _ in
      (
        slice (of_list vs),
        ap length (to_list-of_list vs) ∙ many,
        ground (arith, modelled, ready, read, ran),
      )

  insert_rest :
      (records : List Model)
      → All (IsRecordOf t) records
      → (rows : List Value) × All (HasColumns (length t.fields)) rows
        × (length rows ≡ length records)
        × (insert_loop (with_clause d t sent (insert_clause t)) records
            ≡ some (with_clause d t sent (insert_clause t), rows))
  unfolding insert_loop
  insert_rest [] all = ([], tt, refl, refl)
  insert_rest (m ∷ rest) (here, later) =
      let (rows, columns, many, ran) = insert_rest rest later in
      let (row, fits, ran') =
        insert_one (insert_clause t) m rest rows (set_clause-insert_again d t sent) here ran in
      (row ∷ rows, (fits, columns), ap suc many, ran')

  -- The statement for the rows, as `Build` makes it.
  abbrev pub insert_query : Text → List Value → Statement
  insert_query text vs = record {
    text = (insert_text t ++ (codes " " ++ text)) ++ codes " ";
    vars = slice nil ∷ slice (of_list vs) ∷ [];
  }

  insert_run :
      (db : Database) (rows vs : List Value) (text : Text)
      → gen_values rows ≡ some (text, vs)
      → (s : Session) × (set_clause (with_clause d t sent (insert_clause t)) Clause.values rows
          ≡ some s)
        × ((run_clause db s (Clause.insert_into ∷ Clause.values ∷ [])).0
            ≡ clear_session d t (sent ++ insert_query text vs ∷ []))
  unfolding set_clause Clause.set Clause.generate insert_clause Common.insert Common.delete
      Clause.ClauseType-discrete run_clause exec raw submit clear Clause.build lookup join
  insert_run db rows vs text made = (
    with_clause d t sent (record {
      sql = (Clause.values, text) ∷ (Clause.insert_into, insert_text t) ∷ [];
      sql_vars = (Clause.values, vs) ∷ (Clause.insert_into, []) ∷ [];
    }),
    ground (arith, made),
    refl,
  )

  -- `Insert` of at least one record of the session's table, on a clear session, sends one INSERT
  -- statement: the text of `_values` with a question mark for each value of each record, but two
  -- variables.
  pub insert-sent :
      (db : Database) (m : Model) (rest : List Model)
      → All (IsRecordOf t) (m ∷ rest)
      → (text : Text) × (vs : List Value) × (n : Result ℕ) × (insert db
            (clear_session d t sent)
            (m ∷ rest)
          ≡ some (clear_session d t (sent ++ insert_query text vs ∷ []), n))
        × (marks text ≡ length t.fields * length (m ∷ rest))
        × (length vs ≡ length t.fields * length (m ∷ rest))
  unfolding insert
  insert-sent db m rest (here, later) =
      let (rows, columns, many, ran) = insert_rest rest later in
      let (row, fits, ran') =
        insert_one Clause.empty m rest rows (set_clause-insert d t sent) here ran in
      let (text, vs, made, same, total) =
        gen_values-marks (length t.fields) (row ∷ rows) (fits, columns) in
      let (s, set, sends) = insert_run db (row ∷ rows) vs text made in
      let counted : length vs ≡ length t.fields * suc (length rest) =
        total ∙ ap (λ k. length t.fields * suc k) many in
      (
        text,
        vs,
        (run_clause db s (Clause.insert_into ∷ Clause.values ∷ [])).1,
        ground (arith, ran', set, sends),
        same ∙ counted,
        counted,
      )
