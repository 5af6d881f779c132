-- ===== src/GeeOrm/Schema.antt =====
-- geeorm/schema/schema.go: the table of a Go struct. What reflection shows of a value is a record.
pub mod Columns
use days_project.Common.{
  ℕ, List, [], ◌∷◌, ◌++◌, Option, none, some, Bool, true, false, Text, codes, GoMap, lookup, insert,
  text_dec, leb, not, ◌&&◌,
}
use days_project.GeeOrm.Clause.{Value}
use days_project.GeeOrm.Dialect.{Kind, Dialect, data_type_of}

-- `reflect.StructField`; `tag` is what `Tag.Lookup("geeorm")` gives.
pub record StructField : Type 0 where
  pub name : Text
  pub anonymous : Bool
  pub kind : Kind
  pub tag : Option Text

-- An `interface{}` that holds a struct or a pointer to one: its dynamic type, the struct's name and
-- fields, and the values of the fields.
pub record Model : Type 0 where
  pub type_of : Text
  pub name : Text
  pub fields : List StructField
  pub values : GoMap Text Value

-- `Field`
pub record Field : Type 0 where
  pub name : Text
  pub sql_type : Text
  pub tag : Text

-- `Schema`
pub record Schema : Type 0 where
  pub model : Model
  pub name : Text
  pub fields : List Field
  pub field_names : List Text
  pub field_map : GoMap Text Field

-- `GetField`; `none` is the nil pointer.
unfoldable pub get_field : Schema → Text → Option Field
get_field s name = lookup text_dec name s.field_map

-- `ast.IsExported` of an ASCII name
unfoldable pub is_exported : Text → Bool
is_exported [] = false
is_exported (c ∷ s) = leb b'A' c && leb c b'Z'

-- The condition `!p.Anonymous && ast.IsExported(p.Name)`
unfoldable pub is_column : StructField → Bool
unfolding is_exported
is_column p = not p.anonymous && is_exported p.name

-- The field that one round of the loop makes; `none` is the panic of `DataTypeOf`.
unfoldable pub field_of : Dialect → StructField → Option Field
unfolding data_type_of
field_of d p = elim (data_type_of d p.kind) [
  | none ↦ none
  | some t ↦
      some (record { name = p.name; sql_type = t; tag = elim p.tag [ none ↦ [] | some v ↦ v ] })
]

unfoldable pub append_field : Field → Schema → Schema
append_field f s = record s {
  fields = s.fields ++ f ∷ [];
  field_names = s.field_names ++ f.name ∷ [];
  field_map = insert text_dec f.name f s.field_map;
}

-- The loop of `Parse`
unfoldable pub parse_fields : Dialect → List StructField → Schema → Option Schema
unfolding is_column field_of append_field
parse_fields d [] s = some s
parse_fields d (p ∷ rest) s = elim (is_column p) [
  | false ↦ parse_fields d rest s
  | true ↦ elim (field_of d p) [ none ↦ none | some f ↦ parse_fields d rest (append_field f s) ]
]

-- `Parse`
unfoldable pub parse : Model → Dialect → Option Schema
unfolding parse_fields
parse m d =
    parse_fields d m.fields
      (record { model = m; name = m.name; fields = []; field_names = []; field_map = [] })

-- The loop of `RecordValues`; `none` is the panic on a field that the struct lacks.
unfoldable pub values_of : List Field → GoMap Text Value → Option (List Value)
values_of [] values = some []
values_of (f ∷ fs) values = elim (lookup text_dec f.name values) [
  | none ↦ none
  | some v ↦ elim (values_of fs values) [ none ↦ none | some vs ↦ some (v ∷ vs) ]
]

-- `RecordValues`
unfoldable pub record_values : Schema → Model → Option (List Value)
record_values s dest = values_of s.fields dest.values
