-- ===== src/GeeRpc/Upgrade.antt =====
-- geerpc/server/server.go: `ServeHTTP` and `HandleHTTP`, by which a server takes its connections over from
-- an HTTP server, together with the client's dial over HTTP.
pub mod Dials
use days_project.Common.{
  ℕ, List, [], ◌∷◌, ◌++◌, Option, none, some, Text, codes, text_dec, ite, split, Result, ok, err,
  ℕ_discrete,
}
use days_project.GeeRpc.Client.Dialing.{connected, default_rpc_path}

-- How the server answers a request: not at all, as a request that it cannot read; no handler for the
-- path; not a CONNECT; no connection to take over; or by taking it over, with what it writes first.
pub data Upgrade : Type 0 where
  unreadable not_found not_allowed : Upgrade
  hijack_failed : (message : Text) → Upgrade
  upgraded : (greeting : Text) → Upgrade

abbrev greeting_of : Text
greeting_of = codes "HTTP/1.0 " ++ (connected ++ codes "\n\n")

-- `ServeHTTP` for a request with this method; `hijack` is the error of `Hijack`, if there is one.
-- After `upgraded` the connection is served by `ServeConn`.
unfoldable pub serve_http : Option Text → Text → Upgrade
serve_http hijack method =
    ite (text_dec method (codes "CONNECT"))
      (elim hijack [ some e ↦ hijack_failed e | none ↦ upgraded greeting_of ]) not_allowed

-- The method and the path in the first line of a request
unfoldable pub request_line : List Text → Option (Text × Text)
request_line [] = none
request_line (line ∷ lines) = elim (split line b' ') [
  | [] ↦ none
  | method ∷ more ↦ elim more [ [] ↦ none | path ∷ rest ↦ some (method, path) ]
]

-- A request to an HTTP server on which `HandleHTTP` has registered the server
unfoldable pub receive_request : Option Text → Text → Upgrade
unfolding serve_http request_line
receive_request hijack bytes = elim (request_line (split bytes b'\n')) [
  | none ↦ unreadable
  | some (method, path) ↦ ite (text_dec path default_rpc_path) (serve_http hijack method) not_found
]

-- `resp.Status` in a response's first line, behind the protocol
unfoldable pub after_space : Text → Result Text
after_space [] = err (codes "malformed HTTP response")
after_space (c ∷ s) = let rest = after_space s in ite (ℕ_discrete c b' ') (ok s) rest

unfoldable pub first_line : List Text → Text
first_line [] = []
first_line (line ∷ lines) = line

-- The status that `http.ReadResponse` reads of the answer. A handler that writes nothing has
-- answered 200.
unfoldable pub status_of : Upgrade → Result Text
unfolding after_space first_line
status_of unreadable = ok (codes "400 Bad Request")
status_of not_found = ok (codes "404 Not Found")
status_of not_allowed = ok (codes "405 Method Not Allowed")
status_of (hijack_failed message) = ok (codes "200 OK")
status_of (upgraded greeting) = after_space (first_line (split greeting b'\n'))
