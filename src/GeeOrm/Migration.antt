-- ===== src/GeeOrm/Migration.antt =====
-- geeorm/geeorm.go: `NewEngine` and `Migrate`, which makes a table's columns those of a struct.
pub mod Steps
pub mod Effects
use days_project.Common.{
  ℕ, List, [], ◌∷◌, ◌++◌, Option, none, some, Bool, true, false, Text, codes, Result, ok, err, join,
  map, length, ◌==◌, ◌>>=◌, if◌then◌else◌,
}
use days_project.GeeOrm.Dialect.{Dialect, DialectsMap, get_dialect}
use days_project.GeeOrm.Schema.{Model, Field, Schema, get_field}
use days_project.GeeOrm.Session.{
  Statement, Session, Rows, Database, new_session, raw, exec, query_rows, set_model, has_table,
  create_table, error_of,
}
use days_project.GeeOrm.Engine.{Action, work, Ending, returned, Answer, transaction, difference}

-- `NewEngine`: the dialect of the engine; the errors of `Open` and `Ping` are arguments. An unknown
-- driver gives neither an engine nor an error.
unfoldable pub new_engine :
    DialectsMap → Option Text → Option Text → Text → Option Dialect × Option Text
new_engine dialects (some e) ping driver = (none, some e)
new_engine dialects none (some e) driver = (none, some e)
new_engine dialects none none driver = (get_dialect driver dialects, none)

unfoldable pub select_one : Schema → Text
select_one t = codes "SELECT * FROM " ++ (t.name ++ codes " LIMIT 1")

unfoldable pub add_column : Schema → Field → Text
add_column t f =
    codes "ALTER TABLE "
    ++ (t.name ++ (codes " ADD COLUMN " ++ (f.name ++ (codes " " ++ (f.sql_type ++ codes ";")))))

unfoldable pub tmp_name : Schema → Text
tmp_name t = codes "tmp_" ++ t.name

unfoldable pub copy_table : Schema → Text
copy_table t =
    codes "CREATE TABLE "
    ++ (tmp_name t
        ++ (codes " AS SELECT "
            ++ (join t.field_names (codes ", ") ++ (codes " from " ++ (t.name ++ codes ";")))))

unfoldable pub drop_old : Schema → Text
drop_old t = codes "DROP TABLE " ++ (t.name ++ codes ";")

unfoldable pub rename_table : Schema → Text
rename_table t =
    codes "ALTER TABLE " ++ (tmp_name t ++ (codes " RENAME TO " ++ (t.name ++ codes ";")))

-- The three calls of `Raw` before the last `Exec`
unfoldable pub raw_copy : Schema → Session → Session
raw_copy t s = raw (raw (raw s (copy_table t) []) (drop_old t) []) (rename_table t) []

-- `rows, _ := …QueryRows()` followed by a method of `rows`
unfoldable pub rows_of : Result Rows → Option Rows
rows_of (ok rows) = some rows
rows_of (err e) = none

module _ (db : Database) where
  -- The loop over the added columns: the session, and whether an `Exec` failed and ended the function.
  -- `none` is a nil field.
  unfoldable pub add_columns : Schema → List Text → Session → Option (Session × Bool)
  add_columns t [] s = some (s, false)
  add_columns t (col ∷ rest) s = do
    f ← get_field t col
    let (s', answer) = exec db (raw s (add_column t f) [])
    elim answer [ err e ↦ some (s', true) | ok n ↦ add_columns t rest s' ]

  -- The end of the function. The Go compiler refuses the `return` in the loop, where `err` is shadowed;
  -- it stands here for the value of the result, which is nil.
  unfoldable pub drop_columns : Schema → List Text → Session × Bool → Session × Option Text
  drop_columns t del (s, true) = (s, none)
  drop_columns t del (s, false) =
      if length del == 0
      then (s, none)
      else (let (s', answer) = exec db (raw_copy t s) in (s', error_of db answer))

  -- The part for a table that exists; `none` is a panic, also on the nil rows of a failed query.
  unfoldable pub alter_table : Session → Option (Session × Option Text)
  unfolding add_columns drop_columns
  alter_table s = do
    t ← s.ref_table
    let (s', answer) = query_rows db (raw s (select_one t) [])
    rows ← rows_of answer
    added ← add_columns t (difference t.field_names rows.columns) s'
    some (drop_columns t (difference rows.columns t.field_names) added)

  -- The function of the transaction.
  unfoldable pub migrate_in : Session → Model → Option (Session × Option Text)
  unfolding alter_table
  migrate_in s value = do
    s' ← set_model s value
    (s'', found) ← has_table db s'
    elim found [ true ↦ alter_table s'' | false ↦ create_table db s'' ]

  -- `Migrate`: what the database is asked, and the error; `none` is a panic.
  unfoldable pub migrate :
      Dialect → Option Text → Option Text → Model → Option (List Action × Answer (Unit {0}))
  unfolding migrate_in
  migrate d (some e) commit_error value =
      some (transaction (some e) commit_error ([], returned tt none))
  migrate d none commit_error value = do
    (s, failed) ← migrate_in (new_session d) value
    some (
        transaction none commit_error
          (map (λ (q : Statement). work q.text) s.sent, returned tt failed))
