-- ===== src/GeeRpc/Server.antt =====
-- geerpc/server/server.go and codec/codec.go: which service a request reaches, and the responses of
-- one connection. The requests of a connection are handled one after the other here.
pub mod Dispatch
pub mod Connection
pub mod Values
use days_project.Common.{
  ℕ, suc, ◌+◌, List, [], ◌∷◌, ◌++◌, Option, none, some, Bool, true, false, Text, codes, text_dec,
  ite, Result, ok, err, GoMap, lookup, insert, ltb, leb, ◌==◌, ◌&&◌, ◌||◌, not, if◌then◌else◌,
  ℕ_discrete,
}

-- What `reflect` shows of a type and of a method.
pub record TypeInfo : Type 0 where
  pub name : Text
  pub pkg_path : Text

pub record MethodInfo : Type 0 where
  pub name : Text
  pub num_in : ℕ
  pub num_out : ℕ
  pub out_is_error : Bool
  pub arg_type : TypeInfo
  pub reply_type : TypeInfo

-- `methodType`
pub record MethodType : Type 0 where
  pub method : Text
  pub arg_type : TypeInfo
  pub reply_type : TypeInfo

-- `service`
pub record Service : Type 0 where
  pub name : Text
  pub method : GoMap Text MethodType

abbrev pub Server : Type 0
Server = GoMap Text Service

-- `ast.IsExported` of an ASCII name
unfoldable pub is_exported : Text → Bool
is_exported [] = false
is_exported (c ∷ s) = leb b'A' c && leb c b'Z'

-- `isExportedOrBuiltinType`
unfoldable pub is_exported_or_builtin : TypeInfo → Bool
unfolding is_exported
is_exported_or_builtin t = is_exported t.name || ite (text_dec t.pkg_path []) true false

-- The conditions of `registerMethods`, in its order.
unfoldable pub is_rpc_method : MethodInfo → Bool
unfolding is_exported_or_builtin
is_rpc_method m =
    (m.num_in == 3)
    && (m.num_out == 1)
    && m.out_is_error
    && is_exported_or_builtin m.arg_type
    && is_exported_or_builtin m.reply_type

-- The loop of `registerMethods`
unfoldable pub register_methods : List MethodInfo → GoMap Text MethodType → GoMap Text MethodType
unfolding is_rpc_method
register_methods [] methods = methods
register_methods (m ∷ rest) methods = register_methods rest (
    if is_rpc_method m
    then insert text_dec m.name
        (record { method = m.name; arg_type = m.arg_type; reply_type = m.reply_type }) methods
    else methods)

-- `newService`: a name that is not exported is only reported.
unfoldable pub new_service : Text → List MethodInfo → Service
unfolding register_methods
new_service name methods = record { name = name; method = register_methods methods [] }

-- `Register`
unfoldable pub register : Server → Text → List MethodInfo → Server × Option Text
unfolding new_service
register server name methods = elim (lookup text_dec name server) [
  | some s ↦ (server, some (codes "rpc: service already defined:" ++ name))
  | none ↦ (insert text_dec name (new_service name methods) server, none)
]

-- `strings.LastIndex` at one byte, with the two slices around it
unfoldable pub cut_last : ℕ → Text → Option (Text × Text)
cut_last b [] = none
cut_last b (c ∷ s) = elim (cut_last b s) [
  | some (left, right) ↦ some (c ∷ left, right)
  | none ↦ ite (ℕ_discrete c b) (some ([], s)) none
]

-- `findService`, behind the split
unfoldable pub find_method : Server → Text → Text → Result MethodType
find_method server service_name method_name = elim (lookup text_dec service_name server) [
  | none ↦ err (codes "rpc server: cant't find service " ++ service_name)
  | some svc ↦ elim (lookup text_dec method_name svc.method) [
    | none ↦ err (codes "rpc server: can't find method " ++ method_name)
    | some m ↦ ok m
  ]
]

unfoldable pub find_service : Server → Text → Result MethodType
unfolding cut_last find_method
find_service server service_method = elim (cut_last b'.' service_method) [
  | none ↦ err (codes "rpc server: service/method request ill-formed:" ++ service_method)
  | some (service_name, method_name) ↦ find_method server service_name method_name
]

-- `codec.Header`
pub record Header : Type 0 where
  pub service_method : Text
  pub seq : ℕ
  pub error : Text

-- A value on the connection: a header, or the bytes of a body.
pub data Frame : Type 0 where
  header : Header → Frame
  body : Text → Frame

-- A response: the header, and the reply or `invalidRequest`; without `body_sent` the header alone.
pub record Response : Type 0 where
  pub head : Header
  pub reply : Option Text
  pub body_sent : Bool

abbrev pub request_timeout : ℕ
request_timeout = 3

-- How `ServeConn` ends before it serves requests, or that it serves them.
pub data Handshake : Type 0 where
  options_error bad_magic bad_codec serving : Handshake

-- `ServeConn` on the options that it decodes, as a magic number and a codec type
unfoldable pub handshake : Option (ℕ × Text) → Handshake
handshake none = options_error
handshake (some (magic, codec)) =
    if not (magic == 0x3bef5c)
    then bad_magic
    else ite (text_dec codec (codes "application/gob")) serving bad_codec

-- An error response, under `invalidRequest`
abbrev pub fail_with : Header → Text → Response
fail_with h message = record { head = record h { error = message }; reply = none; body_sent = true }

-- The response to a request that `readRequest` refuses. Its body is `req.argv`, a `reflect.Value`, which
-- is a struct without an exported field: gob does not encode it, so `Write` sends the header and
-- closes the connection.
abbrev pub refuse_with : Header → Text → Response
refuse_with h message = record {
  head = record h { error = message };
  reply = none;
  body_sent = false;
}

-- `sendResponse` and `continue`: the loop goes on behind the response, to which `later` are the
-- responses; but where `Write` has closed the connection, nothing more is read of it.
unfoldable pub continue_after : Response → List Response → List Response
continue_after r later = r ∷ (if r.body_sent then later else [])

-- What `readRequest` gives: no header and an error; a header and an error; or a request with its
-- method and argument. The list is what is left on the connection.
pub data ReadRequest : Type 0 where
  ended : ReadRequest
  refused : (h : Header) (message : Text) (rest : List Frame) → ReadRequest
  accepted : (h : Header) (m : MethodType) (arg : Text) (rest : List Frame) → ReadRequest

-- `decode_header` and `decode_body` are gob's decoder at a `Header` and at a method's argument.
module _ (decode_header : Text → Option Header)
    (decode_body : MethodType → Text → Result Text) where
  -- `readRequestHeader`
  unfoldable pub read_header : Frame → Option Header
  read_header (header h) = some h
  read_header (body b) = decode_header b

  -- `cc.ReadBody`
  unfoldable pub read_body : MethodType → Frame → Result Text
  read_body m (header h) = err (codes "gob: type mismatch")
  read_body m (body b) = decode_body m b

  -- The end of `readRequest`, behind `findService`
  unfoldable pub read_argument : Header → MethodType → List Frame → ReadRequest
  unfolding read_body
  read_argument h m [] = refused h (codes "EOF") []
  read_argument h m (f ∷ rest) = elim (read_body m f) [
    | err e ↦ refused h e rest
    | ok arg ↦ accepted h m arg rest
  ]

  -- `readRequest`, for methods whose reply is a pointer: Values.antt has the others.
  unfoldable pub read_request : Server → List Frame → ReadRequest
  unfolding read_header read_argument
  read_request server [] = ended
  read_request server (f ∷ rest) = elim (read_header f) [
    | none ↦ ended
    | some h ↦ elim (find_service server h.service_method) [
      | err e ↦ refused h e rest
      | ok m ↦ read_argument h m rest
    ]
  ]

-- `invoke` is the method, with its result and the seconds that it takes.
module _ (decode_header : Text → Option Header) (decode_body : MethodType → Text → Result Text)
    (invoke : MethodType → Text → Result Text × ℕ) where
  -- `handleRequest`: the method's reply, which gob encodes here, its error, or the timeout.
  unfoldable pub handle_request : ℕ → Header → MethodType → Text → Response
  handle_request timeout h m arg =
      let (result, seconds) = invoke m arg in
      let in_time : Response = elim result [
        | ok reply ↦ record { head = h; reply = some reply; body_sent = true }
        | err e ↦ fail_with h e
      ] in
      if (timeout == 0) || ltb seconds timeout
      then in_time
      else fail_with h (codes "rpc server: request handle timeout: expect within 3s")

  -- The loop of `serverCodec` with `readRequest`, over the values that arrive before the end of the
  -- connection. A value that is no header ends the loop; a request that is refused does not.
  unfoldable pub serve : Server → List Frame → List Response
  unfolding read_header read_body handle_request continue_after
  serve server [] = []
  serve server (f ∷ []) = elim (read_header decode_header decode_body f) [
    | none ↦ []
    | some h ↦ elim (find_service server h.service_method) [
      | err e ↦ continue_after (refuse_with h e) []
      | ok m ↦ continue_after (refuse_with h (codes "EOF")) []
    ]
  ]
  serve server (f ∷ g ∷ rest) =
      let behind_header = serve server (g ∷ rest) in
      let behind_body = serve server rest in
      elim (read_header decode_header decode_body f) [
        | none ↦ []
        | some h ↦ elim (find_service server h.service_method) [
          | err e ↦ continue_after (refuse_with h e) behind_header
          | ok m ↦ elim (read_body decode_header decode_body m g) [
            | err e ↦ continue_after (refuse_with h e) behind_body
            | ok arg ↦ handle_request request_timeout h m arg ∷ behind_body
          ]
        ]
      ]
