-- ===== src/GeeOrm/Session.antt =====
-- geeorm/session: raw.go, table.go, record.go and hooks.go. A session builds up a statement, sends it
-- to the database and clears itself. The database is an argument: what it answers to the statements
-- that it was sent so far.
pub mod Statements
pub mod Queries
pub mod Inserts
use days_project.Common.{
  ℕ, suc, List, [], ◌∷◌, ◌++◌, Option, none, some, Bool, true, false, Text, codes, Result, ok, err,
  text_dec, ite, join, map, ◌>>=◌,
}
use days_project.GeeOrm.Clause
use days_project.GeeOrm.Clause.{
  Clause, Value, str, strs, slice, fields, Values, Fields, end, field, of_list, insert_into, values,
  select, where_by, order_by, limit, update,
}
use days_project.GeeOrm.Dialect.{Dialect, table_exist_sql}
use days_project.GeeOrm.Schema.{Model, Field, Schema, parse, record_values}

-- A statement with the variables for its question marks.
pub record Statement : Type 0 where
  pub text : Text
  pub vars : List Value

-- `Session`; the database behind `db` or `tx` is an argument below, and `sent` lists the statements
-- that it got, the first at the head.
pub record Session : Type 0 where
  pub dialect : Dialect
  pub ref_table : Option Schema
  pub clause : Clause
  pub sql : Text
  pub sql_vars : List Value
  pub sent : List Statement

-- The rows of a query: the columns' names, what `Scan` gives for each row, and the error of `Close`.
pub record Rows : Type 0 where
  pub columns : List Text
  pub scans : List (Result (List Value))
  pub close_error : Option Text

-- The database: what `Exec` gives and then `RowsAffected`, what `Query` gives, and what `Scan` puts
-- into the string of `HasTable`.
pub record Database : Type 0 where
  pub exec_reply : List Statement → Result (Result ℕ)
  pub query_reply : List Statement → Result Rows
  pub scan_reply : List Statement → Text

-- `NewSession`
unfoldable pub new_session : Dialect → Session
new_session d = record {
  dialect = d;
  ref_table = none;
  clause = Clause.empty;
  sql = [];
  sql_vars = [];
  sent = [];
}

unfoldable pub clear : Session → Session
clear s = record s { sql = []; sql_vars = []; clause = Clause.empty }

unfoldable pub raw : Session → Text → List Value → Session
raw s text vars = record s { sql = s.sql ++ (text ++ codes " "); sql_vars = s.sql_vars ++ vars }

-- The statement that is built up.
abbrev pub pending : Session → Statement
pending s = record { text = s.sql; vars = s.sql_vars }

-- A statement goes to the database, and the deferred `Clear` runs.
unfoldable pub submit : Session → Statement → Session
unfolding clear
submit s q = clear (record s { sent = s.sent ++ q ∷ [] })

-- `Model`: the table is parsed anew where the dynamic type is another; `none` is a panic of `Parse`.
unfoldable pub parse_model : Session → Model → Option Session
parse_model s m = do t ← parse m s.dialect; some (record s { ref_table = some t })

unfoldable pub set_model : Session → Model → Option Session
unfolding parse_model
set_model s m = elim s.ref_table [
  | none ↦ parse_model s m
  | some t ↦ ite (text_dec m.type_of t.model.type_of) (some s) (parse_model s m)
]

unfoldable pub set_clause : Session → Clause.ClauseType → List Value → Option Session
set_clause s name args = do c ← Clause.set s.clause name args; some (record s { clause = c })

-- One column's definition in `CreateTable`.
unfoldable pub column_def : Field → Text
column_def f = f.name ++ (codes " " ++ (f.sql_type ++ (codes " " ++ f.tag)))

-- The loop of `Update` over the arguments, a key and a value each; `none` is a panic, on a key that is
-- no string or a last key without a value.
unfoldable pub set_field : Text → Value → Fields → Fields
set_field k v end = field k v end
set_field k v (field j w rest) =
    let more = set_field k v rest in ite (text_dec k j) (field k v rest) (field j w more)

unfoldable pub pairs_of : List Value → Fields → Option Fields
unfolding set_field
pairs_of [] m = some m
pairs_of (str k ∷ v ∷ rest) m = pairs_of rest (set_field k v m)
pairs_of kv m = none

unfoldable pub update_map : List Value → Option Fields
unfolding pairs_of
update_map [] = none
update_map (fields m ∷ rest) = some m
update_map kv = pairs_of kv end

-- The loop of `Insert`: `Model`, the INSERT clause and the values of each record.
unfoldable pub insert_loop : Session → List Model → Option (Session × List Value)
unfolding set_clause
insert_loop s [] = some (s, [])
insert_loop s (m ∷ rest) = do
  s' ← set_model s m
  t ← s'.ref_table
  s'' ← set_clause s' insert_into (str t.name ∷ strs t.field_names ∷ [])
  vs ← record_values t m
  (last, records) ← insert_loop s'' rest
  some (last, slice (of_list vs) ∷ records)

-- The argument of `Model` in `Find`: a `reflect.Value` itself, a struct with no exported field.
abbrev pub reflect_value : Model
reflect_value = record {
  type_of = codes "reflect.Value";
  name = codes "Value";
  fields = [];
  values = [];
}

-- A hook: from the name of the method, the record and the session, the session and the record behind
-- it.
abbrev pub Hook : Type 0
Hook = Text → List Value → Session → Session × List Value

module _ (db : Database) where
  -- `Exec`
  unfoldable pub exec : Session → Session × Result (Result ℕ)
  exec s = let s' = submit s (pending s) in (s', db.exec_reply s'.sent)

  -- `QueryRow` and the `Scan` of its row
  unfoldable pub query_row : Session → Session × Text
  query_row s = let s' = submit s (pending s) in (s', db.scan_reply s'.sent)

  -- `QueryRows`, which hands the variables over as one value
  unfoldable pub query_rows : Session → Session × Result Rows
  query_rows s =
      let s' = submit s (record { text = s.sql; vars = slice (of_list s.sql_vars) ∷ [] }) in
      (s', db.query_reply s'.sent)

  -- `_, err := …Exec()`
  unfoldable pub error_of : Result (Result ℕ) → Option Text
  error_of (err e) = some e
  error_of (ok n) = none

  -- `result.RowsAffected()`, or the error of `Exec`
  unfoldable pub rows_affected : Result (Result ℕ) → Result ℕ
  rows_affected (err e) = err e
  rows_affected (ok n) = n

  unfoldable pub create_table : Session → Option (Session × Option Text)
  unfolding exec column_def error_of
  create_table s = do
    t ← s.ref_table
    let (s', answer) = exec (
        raw s
          (codes "CREATE TABLE "
            ++ (t.name
                ++ (codes " (" ++ (join (map column_def t.fields) (codes ",") ++ codes ");"))))
          [])
    some (s', error_of answer)

  unfoldable pub drop_table : Session → Option (Session × Option Text)
  unfolding exec error_of
  drop_table s = do
    t ← s.ref_table
    let (s', answer) = exec (raw s (codes "DROP TABLE IF EXISTS " ++ t.name) [])
    some (s', error_of answer)

  unfoldable pub has_table : Session → Option (Session × Bool)
  unfolding query_row
  has_table s = do
    t ← s.ref_table
    let (text, vars) = table_exist_sql s.dialect t.name
    let (s', found) = query_row (raw s text vars)
    some (s', ite (text_dec found t.name) true false)

  -- `s.clause.Build`, `s.Raw` and `s.Exec` at the end of `Insert` and `Update`.
  unfoldable pub run_clause : Session → List Clause.ClauseType → Session × Result ℕ
  unfolding exec rows_affected
  run_clause s orders =
      let (text, vars) = Clause.build s.clause orders in
      let (s', answer) = exec (raw s text vars) in (s', rows_affected answer)

  -- `Insert`
  unfoldable pub insert : Session → List Model → Option (Session × Result ℕ)
  unfolding insert_loop run_clause set_clause
  insert s records = do
    (s', rows) ← insert_loop s records
    s'' ← set_clause s' values rows
    some (run_clause s'' (insert_into ∷ values ∷ []))

  -- `Update`
  unfoldable pub update_records : Session → List Value → Option (Session × Result ℕ)
  unfolding update_map run_clause set_clause
  update_records s kv = do
    m ← update_map kv
    t ← s.ref_table
    s' ← set_clause s update (str t.name ∷ fields m ∷ [])
    some (run_clause s' (update ∷ where_by ∷ []))

  -- `hook` is the model's method of a name: what it makes of a record and of the session that it is
  -- handed. `CallMethod` looks at the session's table first: `none` is its panic without one.
  module _ (hook : Hook) where
    unfoldable pub call_method : Session → Text → List Value → Option (Session × List Value)
    call_method s method value = do t ← s.ref_table; some (hook method value s)

    -- The loop of `Find` over the rows: the session, the records so far, and the error of a `Scan`.
    unfoldable pub scan_rows :
        Session
        → List (Result (List Value))
        → List (List Value)
        → Option (Session × List (List Value) × Option Text)
    unfolding call_method
    scan_rows s [] found = some (s, found, none)
    scan_rows s (err e ∷ rest) found = some (s, found, some e)
    scan_rows s (ok row ∷ rest) found = do
      (s', row') ← call_method s (codes "AfterQuery") row
      scan_rows s' rest (found ++ row' ∷ [])

    -- The answer of the query, and the records that `Find` makes of it.
    unfoldable pub collect :
        Session → Result Rows → Option (Session × List (List Value) × Option Text)
    unfolding scan_rows
    collect s (err e) = some (s, [], some e)
    collect s (ok rows) = do
      (s', found, failed) ← scan_rows s rows.scans []
      some (s', found, elim failed [ some e ↦ some e | none ↦ rows.close_error ])

    -- `Find` once the clause is set: the statement, and the records with the error.
    unfoldable pub select_rows : Session → Option (Session × List (List Value) × Option Text)
    unfolding collect query_rows
    select_rows s = do
      let (text, vars) = Clause.build s.clause (select ∷ where_by ∷ order_by ∷ limit ∷ [])
      let (s', answer) = query_rows (raw s text vars)
      collect s' answer

    -- `Find`
    unfoldable pub find : Session → Option (Session × List (List Value) × Option Text)
    unfolding select_rows call_method set_clause set_model
    find s = do
      (hooked, ignored) ← call_method s (codes "BeforeQuery") []
      s' ← set_model hooked reflect_value
      t ← s'.ref_table
      s'' ← set_clause s' select (str t.name ∷ strs t.field_names ∷ [])
      select_rows s''
