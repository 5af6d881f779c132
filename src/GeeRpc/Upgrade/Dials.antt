-- ===== src/GeeRpc/Upgrade/Dials.antt =====
-- A client that dials over HTTP meets a server that has registered.
use days_project.Common.{
  ℕ, ◌≡◌, refl, ◌∙◌, List, [], ◌∷◌, Option, none, some, false, true, Text, codes, text_dec, if_pos,
  if_neg, split, Result, ok, err, arith,
}
use days_project.GeeRpc.Client.{
  Call, Client, Options, new_client, parse_options, x_dial, http_target,
}
use days_project.GeeRpc.Client.Dialing.{
  Conn, Network, connected, connect_request, open_client, check_status, open_http_client,
  close_on_error, await_client, dial_timeout, dial_at,
}
use days_project.GeeRpc.Client.Opening.{parse_options-magic, handshake_serves}
use days_project.GeeRpc.Server.{handshake, serving}
use days_project.GeeRpc.Upgrade.{
  receive_request, status_of, request_line, serve_http, after_space, first_line,
}

-- The connection of a dial that succeeded, and of one that the server could not take over.
abbrev pub outcome : (ℕ → Call) → Network → Options → Option Text → Option Conn × Result Client
outcome calls net opt none = (
  some (record { written = connect_request ∷ net.encode opt ∷ []; closed = false }),
  ok (new_client calls),
)
outcome calls net opt (some e) = (
  some (record { written = connect_request ∷ []; closed = true }),
  err (codes "unexpected HTTP response: 200 OK"),
)

-- What the client reads of the answer to its request.
received :
    (hijack : Option Text)
    → status_of (receive_request hijack connect_request)
      ≡ (elim hijack [ none ↦ ok connected | some e ↦ ok (codes "200 OK") ])
unfolding receive_request status_of request_line split text_dec serve_http after_space first_line
received none = refl
received (some e) = refl

opened :
    (calls : ℕ → Call) (net : Network) (opt : Options) (hijack : Option Text)
    → opt.codec_type ≡ codes "application/gob"
    → net.encode_error ≡ none
    → net.status ≡ status_of (receive_request hijack connect_request)
    → (made : Conn × Result Client) × (open_http_client calls net opt
          (record { written = []; closed = false })
        ≡ made)
      × ((some (close_on_error made).0, (close_on_error made).1) ≡ outcome calls net opt hijack)
unfolding open_http_client close_on_error check_status open_client
opened calls net opt none gob fine answer = (
  (
    record { written = connect_request ∷ net.encode opt ∷ []; closed = false },
    ok (new_client calls),
  ),
  rw (answer ∙ received none, check_status)
      (if_pos (text_dec connected connected) refl _ _
        ∙ if_pos (text_dec opt.codec_type (codes "application/gob")) gob _ _
        ∙ rw (fine, open_client) refl),
  refl,
)
opened calls net opt (some e) gob fine answer = (
  (
    record { written = connect_request ∷ []; closed = false },
    err (codes "unexpected HTTP response: 200 OK"),
  ),
  rw (answer ∙ received (some e), check_status)
      (if_neg (text_dec (codes "200 OK") connected) (λ q. cc) _ _),
  refl,
)

on_time :
    (opt : Options) (conn : Conn) (made : Conn × Result Client)
    → await_client false opt conn made ≡ made
unfolding await_client
on_time opt conn made = ground arith

-- A client that dials over HTTP, with its default codec and before the timeout, sends a request that
-- the server's HTTP side takes for a CONNECT to it. If the server can take the connection over, the
-- dial gives a new client over the open connection, and its options pass the server's handshake; if
-- not, the dial fails and closes the connection.
pub dial_at-receive_request :
    (calls : ℕ → Call) (net : Network) (hijack : Option Text) (rpc_addr addr : Text)
    (opts : List (Option Options)) (opt : Options)
    → x_dial rpc_addr ≡ some (http_target addr)
    → parse_options opts ≡ ok opt
    → opt.codec_type ≡ codes "application/gob"
    → net.encode_error ≡ none
    → net.status ≡ status_of (receive_request hijack connect_request)
    → (dial_at calls net none false rpc_addr opts ≡ outcome calls net opt hijack)
      × (handshake (some (opt.magic_number, opt.codec_type)) ≡ serving)
unfolding dial_at dial_timeout await_client
dial_at-receive_request calls net hijack rpc_addr addr opts opt aimed parsed gob fine answer =
    let (made, ran, ends) = opened calls net opt hijack gob fine answer in
    (
      rw (aimed, dial_at) (rw (parsed, dial_timeout) (rw (on_time opt _ _) (rw ran ends))),
      handshake_serves opt (parse_options-magic opts opt parsed) gob,
    )
