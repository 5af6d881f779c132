-- ===== src/GeeOrm/Dialect.antt =====
-- geeorm/dialect/dialect.go, mysql.go and sqlite3.go: the SQL types of Go values, and the query that
-- shows whether a table exists.
use days_project.Common.{
  List, [], ◌∷◌, Option, none, some, Bool, true, false, Text, codes, GoMap, lookup, insert,
  text_dec,
}
use days_project.GeeOrm.Clause.{Value, str}

-- `reflect.Kind` of a value; a struct says whether it is a `time.Time`.
pub data Kind : Type 0 where
  bool_kind : Kind
  int_kind int8_kind int16_kind int32_kind int64_kind : Kind
  uint_kind uint8_kind uint16_kind uint32_kind uint64_kind uintptr_kind : Kind
  float32_kind float64_kind string_kind array_kind slice_kind : Kind
  struct_kind : (is_time : Bool) → Kind
  other_kind : Text → Kind

-- The implementations of `Dialect`
pub data Dialect : Type 0 where
  mysql sqlite3 : Dialect

-- The method `DataTypeOf` of `mysql`; `none` is its panic.
unfoldable pub mysql_type_of : Kind → Option Text
mysql_type_of bool_kind = some (codes "bool")
mysql_type_of int_kind = some (codes "integer")
mysql_type_of int8_kind = some (codes "integer")
mysql_type_of int16_kind = some (codes "integer")
mysql_type_of int32_kind = some (codes "integer")
mysql_type_of uint_kind = some (codes "integer")
mysql_type_of uint8_kind = some (codes "integer")
mysql_type_of uint16_kind = some (codes "integer")
mysql_type_of uint32_kind = some (codes "integer")
mysql_type_of uintptr_kind = some (codes "integer")
mysql_type_of int64_kind = some (codes "bigint")
mysql_type_of uint64_kind = some (codes "bigint")
mysql_type_of float32_kind = some (codes "real")
mysql_type_of float64_kind = some (codes "real")
mysql_type_of string_kind = some (codes "text")
mysql_type_of array_kind = some (codes "blob")
mysql_type_of slice_kind = some (codes "blob")
mysql_type_of (struct_kind true) = some (codes "datetime")
mysql_type_of (struct_kind false) = none
mysql_type_of (other_kind k) = none

-- The method `DataTypeOf` of `sqlite3`
unfoldable pub sqlite3_type_of : Kind → Option Text
sqlite3_type_of bool_kind = some (codes "bool")
sqlite3_type_of int_kind = some (codes "integer")
sqlite3_type_of int8_kind = some (codes "integer")
sqlite3_type_of int16_kind = some (codes "integer")
sqlite3_type_of int32_kind = some (codes "integer")
sqlite3_type_of uint_kind = some (codes "integer")
sqlite3_type_of uint8_kind = some (codes "integer")
sqlite3_type_of uint16_kind = some (codes "integer")
sqlite3_type_of uint32_kind = some (codes "integer")
sqlite3_type_of uintptr_kind = some (codes "integer")
sqlite3_type_of int64_kind = some (codes "bigint")
sqlite3_type_of uint64_kind = some (codes "bigint")
sqlite3_type_of float32_kind = some (codes "real")
sqlite3_type_of float64_kind = some (codes "real")
sqlite3_type_of string_kind = some (codes "text")
sqlite3_type_of array_kind = some (codes "blob")
sqlite3_type_of slice_kind = some (codes "blob")
sqlite3_type_of (struct_kind true) = some (codes "datetime")
sqlite3_type_of (struct_kind false) = none
sqlite3_type_of (other_kind k) = none

-- The interface's methods
unfoldable pub data_type_of : Dialect → Kind → Option Text
unfolding mysql_type_of sqlite3_type_of
data_type_of mysql k = mysql_type_of k
data_type_of sqlite3 k = sqlite3_type_of k

unfoldable pub table_exist_sql : Dialect → Text → Text × List Value
table_exist_sql mysql table =
    (codes "SELECT * FROM information_schema.tables where table_name = ?", str table ∷ [])
table_exist_sql sqlite3 table =
    (codes "SELECT name FROM sqlite_master WHERE type='table' and name = ?", str table ∷ [])

abbrev pub DialectsMap : Type 0
DialectsMap = GoMap Text Dialect

unfoldable pub register_dialect : Text → Dialect → DialectsMap → DialectsMap
register_dialect name d m = insert text_dec name d m

unfoldable pub get_dialect : Text → DialectsMap → Option Dialect
get_dialect name m = lookup text_dec name m

-- The map behind the two `init` functions
unfoldable pub dialects_map : DialectsMap
unfolding register_dialect
dialects_map =
    register_dialect (codes "sqlite3") sqlite3 (register_dialect (codes "mysql") mysql [])
