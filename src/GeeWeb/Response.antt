-- ===== src/GeeWeb/Response.antt =====
-- geeweb/gee/context.go: the request and the response of a context. The response is Go's
-- `http.ResponseWriter`: what `WriteHeader` sends is fixed by its first call.
pub mod Statuses
use days_project.Common.{
  ℕ, List, [], ◌∷◌, ◌++◌, Option, none, some, Text, codes, text_dec, Result, ok, err, GoMap, lookup,
  insert, join,
}
use mathlib.Core.Option.{get_or}

-- `http.ResponseWriter`, for codes from 200 to 999: the headers to send, the status and headers that were sent, and the body.
pub record Writer : Type 0 where
  pub headers : GoMap Text Text
  pub status : Option ℕ
  pub sent_headers : GoMap Text Text
  pub body : Text

-- The fields of `Context` besides the handlers; `form` and `query` are what the request's parsed
-- form and query hold.
pub record Exchange : Type 0 where
  pub path : Text
  pub method : Text
  pub form : GoMap Text Text
  pub query : GoMap Text Text
  pub params : GoMap Text Text
  pub status_code : ℕ
  pub writer : Writer

abbrev pub fresh_writer : Writer
fresh_writer = record { headers = []; status = none; sent_headers = []; body = [] }

-- `newContext`
unfoldable pub new_exchange : Text → Text → GoMap Text Text → GoMap Text Text → Exchange
new_exchange method path form query = record {
  path = path;
  method = method;
  form = form;
  query = query;
  params = [];
  status_code = 0;
  writer = fresh_writer;
}

-- `WriteHeader`, of a code from 200 to 999: a smaller one is sent on its own or panics, a greater one
-- panics.
unfoldable pub write_header : ℕ → Writer → Writer
write_header code w = elim w.status [
  | some sent ↦ w
  | none ↦ record w { status = some code; sent_headers = w.headers }
]

-- `Write`
unfoldable pub write : Text → Writer → Writer
unfolding write_header
write text w = let w' = write_header 200 w in record w' { body = w'.body ++ text }

-- `Header().Set`
unfoldable pub set_field : Text → Text → Writer → Writer
set_field key value w = record w { headers = insert text_dec key value w.headers }

-- `http.Error`
unfoldable pub http_error : Text → ℕ → Writer → Writer
unfolding write write_header set_field
http_error message code w = write (message ++ codes "\n") (
    write_header code (
      set_field (codes "X-Content-Type-Options") (codes "nosniff")
        (set_field (codes "Content-Type") (codes "text/plain; charset=utf-8") w)))

unfoldable pub param : Text → Exchange → Text
param key c = get_or (lookup text_dec key c.params) []

unfoldable pub post_form : Text → Exchange → Text
post_form key c = get_or (lookup text_dec key c.form) []

-- `Query`
unfoldable pub query_of : Text → Exchange → Text
query_of key c = get_or (lookup text_dec key c.query) []

-- `Status`
unfoldable pub status : ℕ → Exchange → Exchange
unfolding write_header
status code c = record c { status_code = code; writer = write_header code c.writer }

unfoldable pub set_header : Text → Text → Exchange → Exchange
unfolding set_field
set_header key value c = record c { writer = set_field key value c.writer }

-- A write to `c.Writer`
unfoldable pub write_to : Text → Exchange → Exchange
unfolding write
write_to text c = record c { writer = write text c.writer }

-- `String`, with the text that `fmt.Sprintf` gives
unfoldable pub string : ℕ → Text → Exchange → Exchange
unfolding status set_header write_to
string code text c =
    write_to text (status code (set_header (codes "Content-Type") (codes "text/plain") c))

-- `JSON`, with the text or the error of the encoder, which writes nothing on an error
unfoldable pub json : ℕ → Result Text → Exchange → Exchange
unfolding status set_header write_to http_error
json code encoded c =
    let c' = status code (set_header (codes "Content-Type") (codes "application/json") c) in
    elim encoded [
      | ok text ↦ write_to (text ++ codes "\n") c'
      | err e ↦ record c' { writer = http_error e 500 c'.writer }
    ]

unfoldable pub data_of : ℕ → Text → Exchange → Exchange
unfolding status write_to
data_of code bytes c = write_to bytes (status code c)

-- `Fail` prints.
unfoldable pub fail : ℕ → Text → Exchange → Exchange
fail code message c = c

-- `HTML` over templates that are loaded, with what `ExecuteTemplate` writes, and its error
unfoldable pub html_with : ℕ → Text → Option Text → Exchange → Exchange
unfolding status set_header write_to fail
html_with code text failure c =
    let c' =
      write_to text (status code (set_header (codes "Content-Type") (codes "text/html") c)) in
    elim failure [ none ↦ c' | some e ↦ fail 500 e c' ]

-- `HTML`; `none` is the panic of `ExecuteTemplate` on the nil `htmlTemplates`.
unfoldable pub html : ℕ → Option (Text × Option Text) → Exchange → Option Exchange
unfolding html_with
html code templates c = elim templates [
  | none ↦ none
  | some (text, failure) ↦ some (html_with code text failure c)
]
