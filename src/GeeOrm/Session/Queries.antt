-- ===== src/GeeOrm/Session/Queries.antt =====
-- The statement of `Find`.
use days_project.Common
use days_project.Common.{
  ℕ, suc, ◌*◌, ◌≡◌, refl, sym, ap, ◌∙◌, ◌≢◌, inl, inr, List, [], ◌∷◌, ◌++◌, Option, none, some,
  Text, codes, Result, ok, err, text_dec, ite, if_pos, if_neg, arith, All, In, length, join, map,
  lookup, lookup-insert, ℕ_discrete, Option-cases, ◌>>=◌, >>=-eq-some, eq_of_some, subst,
}
use days_project.GeeOrm.Clause
use days_project.GeeOrm.Clause.{Value, slice, nil, cons, to_list, of_list, gen_values}
use days_project.GeeOrm.Dialect.{Dialect}
use days_project.GeeOrm.Schema.{Schema, parse, parse_fields}
use days_project.GeeOrm.Session.{
  Statement, Session, Hook, Rows, Database, clear, submit, set_model, parse_model, set_clause,
  reflect_value, query_rows, call_method, scan_rows, collect, select_rows, find, raw,
}

-- The clause of a `Find`, over an empty one.
select_clause : Clause.Clause
select_clause = record {
  sql = (Clause.select, codes "SELECT  FROM Value") ∷ [];
  sql_vars = (Clause.select, []) ∷ [];
}

set-select :
    Clause.set Clause.empty Clause.select (Clause.str (codes "Value") ∷ Clause.strs [] ∷ [])
    ≡ some select_clause
unfolding Clause.set Clause.generate select_clause Common.insert Common.delete join
set-select = refl

build-select :
    Clause.build select_clause
      (Clause.select ∷ Clause.where_by ∷ Clause.order_by ∷ Clause.limit ∷ [])
    ≡ (codes "SELECT  FROM Value", slice nil ∷ [])
unfolding Clause.build select_clause Clause.ClauseType-discrete lookup join
build-select = refl

-- What `Parse` makes of a `reflect.Value`.
abbrev pub value_schema : Schema
value_schema = record {
  model = reflect_value;
  name = codes "Value";
  fields = [];
  field_names = [];
  field_map = [];
}

-- A session with a table, and nothing of a statement.
abbrev pub clear_session : Dialect → Schema → List Statement → Session
clear_session d t sent = record {
  dialect = d;
  ref_table = some t;
  clause = Clause.empty;
  sql = [];
  sql_vars = [];
  sent = sent;
}

abbrev pub value_query : Statement
value_query = record {
  text = codes "SELECT  FROM Value ";
  vars = slice (cons (slice nil) nil) ∷ [];
}

-- The hooks do nothing with the session.
abbrev pub IsQuiet : Hook → Type 0
IsQuiet hook = (method : Text) (row : List Value) (s : Session) → (hook method row s).0 ≡ s

module _ (db : Database) (hook : Hook) (quiet : IsQuiet hook) where
  call_method_of :
      (s : Session) (t : Schema) (method : Text) (row : List Value)
      → s.ref_table ≡ some t
      → call_method db hook s method row ≡ some (hook method row s)
  unfolding call_method
  call_method_of s t method row known =
      ap (λ (o : Option Schema). o >>= (λ x. some (hook method row s))) known

  scan_rows_total :
      (s : Session) (t : Schema) (scans : List (Result (List Value))) (found : List (List Value))
      → s.ref_table ≡ some t
      → (r : List (List Value) × Option Text) × (scan_rows db hook s scans found
          ≡ some (s, r.0, r.1))
  unfolding scan_rows call_method
  scan_rows_total s t [] found known = ((found, none), refl)
  scan_rows_total s t (err e ∷ rest) found known = ((found, some e), refl)
  scan_rows_total s t (ok row ∷ rest) found known =
      let hooked = hook (codes "AfterQuery") row s in
      let same = quiet (codes "AfterQuery") row s in
      let (r, ran) =
        scan_rows_total hooked.0 t rest (found ++ hooked.1 ∷ [])
          (ap (λ (x : Session). x.ref_table) same ∙ known) in
      (
        r,
        ap
              (λ (o : Option (Session × List Value)).
                o >>= (λ p. scan_rows db hook p.0 rest (found ++ p.1 ∷ [])))
              (call_method_of s t (codes "AfterQuery") row known)
            ∙ ran
            ∙ ap (λ x. some (x, r.0, r.1)) same,
      )

  collect_total :
      (s : Session) (t : Schema) (answer : Result Rows)
      → s.ref_table ≡ some t
      → (r : List (List Value) × Option Text) × (collect db hook s answer ≡ some (s, r.0, r.1))
  unfolding collect
  collect_total s t (err e) known = (([], some e), refl)
  collect_total s t (ok rows) known =
      let (r, ran) = scan_rows_total s t rows.scans [] known in
      ((r.0, elim r.1 [ some e ↦ some e | none ↦ rows.close_error ]), ground (arith, ran))

  select_rows_of :
      (d : Dialect) (sent : List Statement)
      → let s = record (clear_session d value_schema sent) { clause = select_clause } in
        (found : List (List Value)) × (failed : Option Text) × (select_rows db hook s
          ≡ some (clear_session d value_schema (sent ++ value_query ∷ []), found, failed))
  unfolding select_rows query_rows raw submit clear
  select_rows_of d sent =
      let s' = clear_session d value_schema (sent ++ value_query ∷ []) in
      let (r, ran) = collect_total s' value_schema (db.query_reply s'.sent) refl in
      (r.0, r.1, rw build-select (ground (arith, ran)))

  -- `Find` hands `Model` the `reflect.Value` of a new record in place of the record. So on a clear
  -- session with the table of any type, with hooks that do nothing with the session, it asks for no column of a table `Value`, and that table
  -- stays the session's.
  pub find_of_any :
      (d : Dialect) (t : Schema) (sent : List Statement)
      → t.model.type_of ≢ reflect_value.type_of
      → (found : List (List Value)) × (failed : Option Text) × (find db hook
            (clear_session d t sent)
          ≡ some (clear_session d value_schema (sent ++ value_query ∷ []), found, failed))
  unfolding find call_method set_clause set_model parse_model parse parse_fields
  find_of_any d t sent other =
      let modelled : set_model (clear_session d t sent) reflect_value
          ≡ some (clear_session d value_schema sent) =
        if_neg (text_dec reflect_value.type_of t.model.type_of) (λ e. other (sym e)) _ _ in
      let (found, failed, ran) = select_rows_of d sent in
      (
        found,
        failed,
        ground (
          arith,
          quiet (codes "BeforeQuery") [] (clear_session d t sent),
          modelled,
          set-select,
          ran,
        ),
      )
