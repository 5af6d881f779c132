-- ===== src/GeeWeb/Response/Statuses.antt =====
-- Which status a response is sent with.
use days_project.Common.{
  ℕ, ◌≤◌, ◌<◌, All, ◌≡◌, refl, ap, ◌∙◌, List, [], ◌∷◌, ◌++◌, Option, none, some, Text, codes,
  Result, ok, err, GoMap, arith,
}
use mathlib.Core.Option.{get_or}
use days_project.GeeWeb.Response.{
  Writer, Exchange, new_exchange, write_header, write, set_field, http_error, status, set_header,
  write_to, string, json, data_of, fail, html_with,
}

-- What a handler does with the response; the templates are loaded.
pub data Request : Type 0 where
  status_of : (code : ℕ) → Request
  header_of : (key value : Text) → Request
  string_of : (code : ℕ) (text : Text) → Request
  json_of : (code : ℕ) (encoded : Result Text) → Request
  bytes_of : (code : ℕ) (bytes : Text) → Request
  html_of : (code : ℕ) (text : Text) (failure : Option Text) → Request
  fail_of : (code : ℕ) (message : Text) → Request

unfoldable pub perform : Request → Exchange → Exchange
perform (status_of code) c = status code c
perform (header_of key value) c = set_header key value c
perform (string_of code text) c = string code text c
perform (json_of code encoded) c = json code encoded c
perform (bytes_of code bytes) c = data_of code bytes c
perform (html_of code text failure) c = html_with code text failure c
perform (fail_of code message) c = fail code message c

unfoldable pub perform_all : List Request → Exchange → Exchange
unfolding perform
perform_all [] c = c
perform_all (r ∷ rest) c = perform_all rest (perform r c)

-- The code that a call names.
abbrev pub code_of : Request → Option ℕ
code_of (status_of code) = some code
code_of (header_of key value) = none
code_of (string_of code text) = some code
code_of (json_of code encoded) = some code
code_of (bytes_of code bytes) = some code
code_of (html_of code text failure) = some code
code_of (fail_of code message) = none

-- The first of two that is there.
abbrev earlier : Option ℕ → Option ℕ → Option ℕ
earlier none later = later
earlier (some code) later = some code

-- The first code of a list of calls.
abbrev pub first_code : List Request → Option ℕ
first_code [] = none
first_code (r ∷ rest) = earlier (code_of r) (first_code rest)

-- The last code of a list of calls, or `code` where they name none.
abbrev pub last_code : ℕ → List Request → ℕ
last_code code [] = code
last_code code (r ∷ rest) = last_code (get_or (code_of r) code) rest

earlier_assoc : (x y z : Option ℕ) → earlier (earlier x y) z ≡ earlier x (earlier y z)
earlier_assoc none y z = refl
earlier_assoc (some code) y z = refl

write_header-status :
    (code : ℕ) (w : Writer) → (write_header code w).status ≡ earlier w.status (some code)
unfolding write_header
write_header-status code w = ground arith

-- A body after a code is sent with the code.
write-status :
    (text : Text) (code : ℕ) (w : Writer)
    → (write text (write_header code w)).status ≡ earlier w.status (some code)
unfolding write write_header
write-status text code w = ground arith

-- `http.Error` after a code changes nothing of the status.
http_error-status :
    (text : Text) (code next : ℕ) (w : Writer)
    → (http_error text next (write_header code w)).status ≡ earlier w.status (some code)
unfolding http_error write set_field write_header
http_error-status text code next w = ground arith

perform-status :
    (r : Request) (c : Exchange) → (perform r c).writer.status ≡ earlier c.writer.status (code_of r)
unfolding perform status set_header string json data_of html_with fail write_to set_field
perform-status (status_of code) c = write_header-status code _
perform-status (header_of key value) c = ground arith
perform-status (string_of code text) c = write-status text code _
perform-status (json_of code (ok text)) c = write-status (text ++ codes "\n") code _
perform-status (json_of code (err m)) c = http_error-status m code 500 _
perform-status (bytes_of code bytes) c = write-status bytes code _
perform-status (html_of code text none) c = write-status text code _
perform-status (html_of code text (some m)) c = write-status text code _
perform-status (fail_of code message) c = ground arith

perform-status_code :
    (r : Request) (c : Exchange) → (perform r c).status_code ≡ get_or (code_of r) c.status_code
unfolding perform status set_header string json data_of html_with fail write_to
perform-status_code (status_of code) c = refl
perform-status_code (header_of key value) c = refl
perform-status_code (string_of code text) c = refl
perform-status_code (json_of code (ok text)) c = refl
perform-status_code (json_of code (err m)) c = refl
perform-status_code (bytes_of code bytes) c = refl
perform-status_code (html_of code text none) c = refl
perform-status_code (html_of code text (some m)) c = refl
perform-status_code (fail_of code message) c = refl

perform_all-status :
    (rs : List Request) (c : Exchange)
    → ((perform_all rs c).writer.status ≡ earlier c.writer.status (first_code rs))
      × ((perform_all rs c).status_code ≡ last_code c.status_code rs)
unfolding perform_all
perform_all-status [] c = (ground arith, refl)
perform_all-status (r ∷ rest) c = (
  (perform_all-status rest (perform r c)).0
      ∙ (rw (perform-status r c) (earlier_assoc c.writer.status (code_of r) (first_code rest))),
  (perform_all-status rest (perform r c)).1 ∙ ap (λ n. last_code n rest) (perform-status_code r c),
)

-- After any calls on a new context whose codes are from 200 to 999, the response has the first code
-- that they name, and the context's `StatusCode`, which `Logger` prints, is the last one, or 0 where
-- they name none.
pub statuses :
    (rs : List Request) (method path : Text) (form query : GoMap Text Text)
    → All (λ r. (code : ℕ) → code_of r ≡ some code → (200 ≤ code) × (code < 1000)) rs
    → ((perform_all rs (new_exchange method path form query)).writer.status ≡ first_code rs)
      × ((perform_all rs (new_exchange method path form query)).status_code ≡ last_code 0 rs)
unfolding new_exchange
statuses rs method path form query final = perform_all-status rs _
