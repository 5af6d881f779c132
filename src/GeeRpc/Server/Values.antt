-- ===== src/GeeRpc/Server/Values.antt =====
-- geerpc/server/server.go: the values that `readRequest` makes for a request, and `call`, which counts.
pub mod Requests
use days_project.Common.{List, [], ◌∷◌, Option, none, some, Text, Result, Int64, add64}
use days_project.GeeRpc.Server.{TypeInfo, MethodType}

mutual
  -- `reflect.Type`: what a type is called, and its kind.
  pub data GoType : Type 0 where
    go_type : TypeInfo → Kind → GoType

  -- `reflect.Kind`, with the type that `Elem` gives where there is one.
  pub data Kind : Type 0 where
    plain : Kind
    pointer map_to slice_of array_of channel_of : GoType → Kind

abbrev pub info_of : GoType → TypeInfo
info_of (go_type info kind) = info

-- `Elem`: a panic for a plain type.
unfoldable pub elem_of : GoType → Option GoType
elem_of (go_type info plain) = none
elem_of (go_type info (pointer t)) = some t
elem_of (go_type info (map_to t)) = some t
elem_of (go_type info (slice_of t)) = some t
elem_of (go_type info (array_of t)) = some t
elem_of (go_type info (channel_of t)) = some t

-- What a new variable holds.
pub data Contents : Type 0 where
  zero_value empty_map empty_slice : Contents

-- The result of `newArgv`: a pointer to a new variable, or the variable.
pub data Argv : Type 0 where
  argv_pointer argv_variable : GoType → Argv

unfoldable pub new_argv : GoType → Argv
new_argv (go_type info (pointer t)) = argv_pointer t
new_argv t = argv_variable t

-- `argvi`: in both cases a pointer to the variable, which has this type, is handed to `ReadBody`.
unfoldable pub target_of : Argv → GoType
target_of (argv_pointer t) = t
target_of (argv_variable t) = t

-- The `switch` of `newReplyv`
unfoldable pub contents_of : GoType → Contents
contents_of (go_type info (map_to t)) = empty_map
contents_of (go_type info (slice_of t)) = empty_slice
contents_of t = zero_value

-- `newReplyv`: a pointer to a new variable, with its type and contents, or a panic.
unfoldable pub new_replyv : GoType → Option (GoType × Contents)
unfolding elem_of contents_of
new_replyv t = elim (elem_of t) [ none ↦ none | some e ↦ some (e, contents_of e) ]

-- `methodType` with its counter `numCalls`
pub record Counted : Type 0 where
  pub method : MethodType
  pub num_calls : Int64

-- `call`, with the method as a function of its argument
unfoldable pub call : (MethodType → Text → Result Text) → Counted → Text → Counted × Result Text
call invoke m arg = (record m { num_calls = add64 m.num_calls 1 }, invoke m.method arg)

-- The calls of a method, in the order of their atomic additions
unfoldable pub call_all : (MethodType → Text → Result Text) → List Text → Counted → Counted
unfolding call
call_all invoke [] m = m
call_all invoke (arg ∷ rest) m = call_all invoke rest (call invoke m arg).0
