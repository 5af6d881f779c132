-- ===== src/GeeOrm/Clause.antt =====
-- geeorm/clause/clause.go and generator.go: the clauses of a statement, with their variables. A
-- generator gives `none` where the source panics, on a missing argument or a failed type assertion;
-- so it does for a table name or a condition that is no string, which no caller passes.
pub mod Placeholders
use days_project.Common.{
  ℕ, zero, suc, List, [], ◌∷◌, ◌++◌, Option, none, some, Bool, true, false, Text, codes, text_dec,
  ite, join, GoMap, lookup, insert, length, ◌==◌, if◌then◌else◌,
}

-- `Type`
pub data ClauseType : Type 0 where
  insert_into values select limit where_by order_by update delete_from count : ClauseType

unfoldable pub ClauseType-discrete : Discrete ClauseType
ClauseType-discrete = hlevel

-- An `interface{}`: a string, a number, a `[]string`, a `[]interface{}` or a
-- `map[string]interface{}`.
mutual
  pub data Value : Type 0 where
    str : Text → Value
    num : ℕ → Value
    strs : List Text → Value
    slice : Values → Value
    fields : Fields → Value

  pub data Values : Type 0 where
    nil : Values
    cons : Value → Values → Values

  pub data Fields : Type 0 where
    end : Fields
    field : Text → Value → Fields → Fields

abbrev pub to_list : Values → List Value
to_list nil = []
to_list (cons v vs) = v ∷ to_list vs

abbrev pub of_list : List Value → Values
of_list [] = nil
of_list (v ∷ vs) = cons v (of_list vs)

abbrev pub replicate : ℕ → Text → List Text
replicate zero s = []
replicate (suc n) s = s ∷ replicate n s

-- `genBindVars`
unfoldable pub gen_bind_vars : ℕ → Text
gen_bind_vars n = join (replicate n (b'?' ∷ [])) (b',' ∷ [])

abbrev pub Generated : Type 0
Generated = Option (Text × List Value)

unfoldable pub gen_insert : List Value → Generated
gen_insert (str table ∷ strs names ∷ rest) =
    some
      (codes "INSERT INTO " ++ (table ++ (codes " (" ++ (join names (codes ",") ++ codes ")"))), [])
gen_insert args = none

-- The loop of `_values`; `bind_str` is kept from one row to the next.
unfoldable pub values_loop : Text → List Value → Text → List Value → Generated
unfolding gen_bind_vars
values_loop bind_str [] sql vars = some (sql, vars)
values_loop bind_str (slice v ∷ rest) sql vars =
    let bind = ite (text_dec bind_str []) (gen_bind_vars (length (to_list v))) bind_str in
    values_loop bind rest
      (sql ++ (codes "(" ++ (bind ++ (codes ")" ++ (if length rest == 0 then [] else codes ", ")))))
      (vars ++ to_list v)
values_loop bind_str (other ∷ rest) sql vars = none

unfoldable pub gen_values : List Value → Generated
unfolding values_loop
gen_values args = values_loop [] args (codes "VALUES ") []

unfoldable pub gen_select : List Value → Generated
gen_select (str table ∷ strs names ∷ rest) =
    some (codes "SELECT " ++ (join names (codes ",") ++ (codes " FROM " ++ table)), [])
gen_select args = none

unfoldable pub gen_limit : List Value → Generated
gen_limit args = some (codes "LIMIT ?", args)

unfoldable pub gen_where : List Value → Generated
gen_where (str desc ∷ vars) = some (codes "WHERE " ++ desc, vars)
gen_where args = none

unfoldable pub gen_order_by : List Value → Generated
gen_order_by (str by ∷ rest) = some (codes "ORDER BY " ++ by, [])
gen_order_by args = none

-- The loop of `_update` over the map
unfoldable pub set_keys : Fields → List Text
set_keys end = []
set_keys (field k v rest) = (k ++ codes " = ?") ∷ set_keys rest

unfoldable pub set_vars : Fields → List Value
set_vars end = []
set_vars (field k v rest) = v ∷ set_vars rest

unfoldable pub gen_update : List Value → Generated
unfolding set_keys set_vars
gen_update (str table ∷ fields m ∷ rest) =
    some
      (codes "UPDATE " ++ (table ++ (codes " SET " ++ join (set_keys m) (codes ","))), set_vars m)
gen_update args = none

unfoldable pub gen_delete : List Value → Generated
gen_delete (str table ∷ rest) = some (codes "DELETE FROM " ++ table, [])
gen_delete args = none

unfoldable pub gen_count : List Value → Generated
unfolding gen_select
gen_count [] = none
gen_count (table ∷ rest) = gen_select (table ∷ strs (codes "count(*)" ∷ []) ∷ [])

-- The map `generators`
unfoldable pub generate : ClauseType → List Value → Generated
unfolding gen_insert gen_values gen_select gen_limit gen_where gen_order_by gen_update gen_delete
    gen_count
generate insert_into args = gen_insert args
generate values args = gen_values args
generate select args = gen_select args
generate limit args = gen_limit args
generate where_by args = gen_where args
generate order_by args = gen_order_by args
generate update args = gen_update args
generate delete_from args = gen_delete args
generate count args = gen_count args

-- `Clause`
pub record Clause : Type 0 where
  pub sql : GoMap ClauseType Text
  pub sql_vars : GoMap ClauseType (List Value)

abbrev pub empty : Clause
empty = record { sql = []; sql_vars = [] }

-- `Set`
unfoldable pub set : Clause → ClauseType → List Value → Option Clause
set c name args = elim (generate name args) [
  | none ↦ none
  | some (sql, vars) ↦ some (record {
    sql = insert ClauseType-discrete name sql c.sql;
    sql_vars = insert ClauseType-discrete name vars c.sql_vars;
  })
]

abbrev pub vars_of : Clause → ClauseType → List Value
vars_of c order = elim (lookup ClauseType-discrete order c.sql_vars) [
  | none ↦ []
  | some vars ↦ vars
]

-- The loop of `Build`; a clause's variables are appended as one value, a slice.
unfoldable pub build_loop : Clause → List ClauseType → List Text × List Value
build_loop c [] = ([], [])
build_loop c (order ∷ rest) =
    let later = build_loop c rest in
    elim (lookup ClauseType-discrete order c.sql) [
      | none ↦ later
      | some sql ↦ (sql ∷ later.0, slice (of_list (vars_of c order)) ∷ later.1)
    ]

-- `Build`
unfoldable pub build : Clause → List ClauseType → Text × List Value
unfolding build_loop
build c orders = let (sqls, vars) = build_loop c orders in (join sqls (codes " "), vars)
