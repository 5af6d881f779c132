-- ===== src/GeeRpc/Client/Dialing.antt =====
-- geerpc/client/client.go: how a client gets its connection. The network is an argument: whether the
-- connection opens, what is read and written on it, and whether the timeout comes first.
use days_project.Common.{
  ℕ, List, [], ◌∷◌, ◌++◌, Option, none, some, Bool, true, false, Text, codes, text_dec, ite, Result,
  ok, err, ◌==◌, if◌then◌else◌,
}
use days_project.GeeRpc.Client.{
  Call, Client, new_client, Options, parse_options, http_target, net_target, x_dial,
}

-- A `net.Conn`: what was written to it, and whether it was closed.
pub record Conn : Type 0 where
  pub written : List Text
  pub closed : Bool

-- What happens on a connection: the options as JSON, the error of writing them, if there is one, and
-- the status line of the answer to CONNECT.
pub record Network : Type 0 where
  pub encode : Options → Text
  pub encode_error : Option Text
  pub status : Result Text

abbrev pub connected : Text
connected = codes "200 Connected to Gee RPC"

abbrev pub default_rpc_path : Text
default_rpc_path = codes "/_geeprc_"

abbrev pub connect_request : Text
connect_request = codes "CONNECT " ++ (default_rpc_path ++ codes " HTTP/1.0\n\n")

-- `NewClient`; `calls` is the memory that is not allocated yet.
unfoldable pub open_client : (ℕ → Call) → Network → Options → Conn → Conn × Result Client
open_client calls net opt conn =
    ite (text_dec opt.codec_type (codes "application/gob"))
      (elim net.encode_error [
        | some e ↦ (record conn { closed = true }, err e)
        | none ↦
            (record conn { written = conn.written ++ net.encode opt ∷ [] }, ok (new_client calls))
      ])
      (conn, err (codes "invalid codec type " ++ opt.codec_type))

-- `NewHTTPClient` behind the answer to CONNECT
unfoldable pub check_status :
    (ℕ → Call) → Network → Options → Conn → Result Text → Conn × Result Client
unfolding open_client
check_status calls net opt conn (err e) = (conn, err e)
check_status calls net opt conn (ok status) =
    ite (text_dec status connected) (open_client calls net opt conn)
      (conn, err (codes "unexpected HTTP response: " ++ status))

-- `NewHTTPClient`
unfoldable pub open_http_client : (ℕ → Call) → Network → Options → Conn → Conn × Result Client
unfolding check_status
open_http_client calls net opt conn =
    check_status calls net opt (record conn { written = conn.written ++ connect_request ∷ [] })
      net.status

-- The deferred function of `dialTimeout`: the connection is closed on an error.
unfoldable pub close_on_error : Conn × Result Client → Conn × Result Client
close_on_error (conn, ok c) = (conn, ok c)
close_on_error (conn, err e) = (record conn { closed = true }, err e)

-- The two waits of `dialTimeout`; `late` says that the timeout comes before the result of `f`;
-- what `f` writes besides is left out then.
unfoldable pub await_client : Bool → Options → Conn → Conn × Result Client → Conn × Result Client
await_client late opt conn made = if opt.connect_timeout == 0 then made else elim late [
  | true ↦ (conn, err (codes "rpc client:connect: expect within "))
  | false ↦ made
]

-- `dialTimeout`; `opened` is the error of `net.DialTimeout`. The connection is `none` where none was
-- opened.
unfoldable pub dial_timeout :
    (Options → Conn → Conn × Result Client)
    → Option Text
    → Bool
    → List (Option Options)
    → Option Conn × Result Client
unfolding close_on_error await_client
dial_timeout f opened late opts = elim (parse_options opts) [
  | err e ↦ (none, err e)
  | ok opt ↦ elim opened [
    | some e ↦ (none, err e)
    | none ↦
        let conn : Conn = record { written = []; closed = false } in
        let (conn', result) = close_on_error (await_client late opt conn (f opt conn)) in
        (some conn', result)
  ]
]

-- `XDial` with `DialHTTP` and `Dial`
unfoldable pub dial_at :
    (ℕ → Call)
    → Network
    → Option Text
    → Bool
    → Text
    → List (Option Options)
    → Option Conn × Result Client
unfolding open_client open_http_client dial_timeout
dial_at calls net opened late rpc_addr opts = elim (x_dial rpc_addr) [
  | none ↦ (
    none,
    err (codes "rpc client err: wrong format '" ++ (rpc_addr ++ codes "', expect protocol@addr")),
  )
  | some (http_target addr) ↦ dial_timeout (open_http_client calls net) opened late opts
  | some (net_target network addr) ↦ dial_timeout (open_client calls net) opened late opts
]
