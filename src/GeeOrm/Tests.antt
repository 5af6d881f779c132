-- ===== src/GeeOrm/Tests.antt =====
-- The theorems about geeorm at concrete inputs.
use days_project.Common.{
  ℕ, ◌≡◌, refl, ◌≢◌, insert as map_insert, delete, text_dec, ◌⊎◌, ◌↔◌, List, [], ◌∷◌, ◌++◌, Option,
  none, some, Text, codes, ite, In, length, false, Result, ok, map, lookup, inl, inr,
}
use days_project.GeeOrm.Clause.{Value, num, str}
use days_project.GeeOrm.Clause.Placeholders.{marks}
use days_project.GeeOrm.Dialect.{sqlite3, string_kind, int_kind}
use days_project.GeeOrm.Schema.{Model, Field, Schema, parse, get_field}
use days_project.GeeOrm.Schema.Columns.{columns, parse-columns}
use days_project.GeeOrm.Session.{
  Session, Hook, Rows, Database, insert, find, has_table, submit, raw,
}
use days_project.GeeOrm.Session.Statements.{ask, perform, SentOne, perform-SentOne}
use days_project.GeeOrm.Session.Queries.{
  IsQuiet, clear_session, value_schema, value_query, find_of_any,
}
use days_project.GeeOrm.Session.Inserts.{IsRecordOf, insert_query, insert-sent}
use days_project.GeeOrm.Migration.Steps.{exist_query}
use days_project.GeeOrm.Migration.Effects.{Effect}
use days_project.GeeOrm.Engine.{commit, begin, rollback, Ending, returned, transaction}
use days_project.GeeOrm.Engine.Outcomes.{statements, transaction_commits}

abbrev done : Ending ℕ
done = returned 1 none

transaction_commits_example :
    (In commit (transaction none none (statements (codes "x" ∷ []), done)).0
      ↔ ((◌≡◌ {A = Option Text} none none) × ((a : ℕ) × (done ≡ returned a none))))
    × ((◌≡◌ {A = Option Text} none none)
        → ((transaction none none (statements (codes "x" ∷ []), done)).0
            ≡ (begin ∷ statements (codes "x" ∷ [])) ++ commit ∷ [])
          ⊎ ((transaction none none (statements (codes "x" ∷ []), done)).0
              ≡ (begin ∷ statements (codes "x" ∷ [])) ++ rollback ∷ []))
transaction_commits_example = transaction_commits none none (codes "x" ∷ []) done

-- type User struct { Name string `geeorm:"PRIMARY KEY"`; Age int }
abbrev user : Model
user = record {
  type_of = codes "*main.User";
  name = codes "User";
  fields =
      record {
        name = codes "Name";
        anonymous = false;
        kind = string_kind;
        tag = some (codes "PRIMARY KEY");
      }
      ∷ record { name = codes "Age"; anonymous = false; kind = int_kind; tag = none }
      ∷ record { name = codes "secret"; anonymous = false; kind = int_kind; tag = none }
      ∷ [];
  values = (codes "Name", str (codes "Tom")) ∷ (codes "Age", num 18) ∷ [];
}

abbrev name_field : Field
name_field = record { name = codes "Name"; sql_type = codes "text"; tag = codes "PRIMARY KEY" }

abbrev age_field : Field
age_field = record { name = codes "Age"; sql_type = codes "integer"; tag = [] }

abbrev users : Schema
users = record {
  model = user;
  name = codes "User";
  fields = name_field ∷ age_field ∷ [];
  field_names = codes "Name" ∷ codes "Age" ∷ [];
  field_map = (codes "Age", age_field) ∷ (codes "Name", name_field) ∷ [];
}

user-parsed : parse user sqlite3 ≡ some users
unfolding parse map_insert delete text_dec
user-parsed = refl

parse-columns_example :
    (users.name ≡ user.name)
    × (users.field_names ≡ columns user.fields)
    × (map (λ (f : Field). f.name) users.fields ≡ users.field_names)
    × ((x : Text)
        → ((get_field users x ≢ none) ↔ In x users.field_names)
          × ((f : Field) → get_field users x ≡ some f → In f users.fields × (f.name ≡ x)))
parse-columns_example = parse-columns user sqlite3 users user-parsed

-- A database with the table, which lacks the column Age and has a column Old.
abbrev found_rows : Rows
found_rows = record { columns = codes "Name" ∷ codes "Old" ∷ []; scans = []; close_error = none }

abbrev database : Database
database = record {
  exec_reply = λ l. ok (ok 1);
  query_reply = λ l. ok found_rows;
  scan_reply = λ l. codes "User";
}

abbrev hook : Hook
hook method row s = (s, row)

hook-IsQuiet : IsQuiet hook
hook-IsQuiet method row s = refl

abbrev session : Session
session = clear_session sqlite3 users []

abbrev asked : Session
asked = clear_session sqlite3 users (exist_query database (λ l. (ok 1, refl)) sqlite3 users ∷ [])

asked-performed : perform database hook hook-IsQuiet ask session ≡ some asked
unfolding perform has_table submit raw
asked-performed = refl

perform-SentOne_example : SentOne session asked
perform-SentOne_example =
    perform-SentOne database hook hook-IsQuiet ask session asked asked-performed

user-IsRecord : IsRecordOf users user
unfolding lookup text_dec
user-IsRecord = (
  refl,
  λ x. elim [
    | inl e ↦ rw (← e) (λ f. cc)
    | inr h ↦ elim h [ inl e ↦ rw (← e) (λ f. cc) | inr g ↦ absurd g ]
  ],
)

insert-sent_example :
    (text : Text) × (vs : List Value) × (n : Result ℕ) × (insert database session (user ∷ user ∷ [])
      ≡ some (clear_session sqlite3 users (insert_query sqlite3 users [] refl text vs ∷ []), n))
    × (marks text ≡ 4)
    × (length vs ≡ 4)
insert-sent_example =
    insert-sent sqlite3 users [] refl database user (user ∷ []) (user-IsRecord, (user-IsRecord, tt))

find_of_any_example :
    (found : List (List Value)) × (failed : Option Text) × (find database hook session
      ≡ some (clear_session sqlite3 value_schema (value_query ∷ []), found, failed))
find_of_any_example = find_of_any database hook hook-IsQuiet sqlite3 users [] (λ e. cc)

-- The column Age is added, and the columns of the struct are selected.
abbrev effect : Effect
effect text cols =
    ite (text_dec text (codes "ALTER TABLE User ADD COLUMN Name text; "))
      (cols ++ codes "Name" ∷ [])
      (ite (text_dec text (codes "ALTER TABLE User ADD COLUMN Age integer; "))
        (cols ++ codes "Age" ∷ [])
        (ite
          (text_dec text (
            codes
              "CREATE TABLE tmp_User AS SELECT Name, Age from User; DROP TABLE User; ALTER TABLE tmp_User RENAME TO User; "))
          (codes "Name" ∷ codes "Age" ∷ []) cols))
