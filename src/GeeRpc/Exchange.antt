-- ===== src/GeeRpc/Exchange.antt =====
-- A client and a server over one connection: what the client writes is what the server reads, and
-- the other way round. geerpc/client/client.go with geerpc/server/server.go and geerpc/codec/gob.go.
pub mod Receiving
pub mod Issuing
pub mod RoundTrip
use days_project.Common.{
  ℕ, List, [], ◌∷◌, ◌++◌, Option, none, some, Text, codes, text_dec, ite, if◌then◌else◌, Result, ok,
  err,
}
use days_project.GeeRpc.Client
use days_project.GeeRpc.Client.{Client, Incoming, response, go}
use days_project.GeeRpc.Server.{Header, Frame, Response}
use days_project.GeeRpc.Codec.{GobCodec, write}

-- The header of a request, which `send` fills in.
unfoldable pub request_header : Client.Request → Header
request_header r = record { service_method = r.service_method; seq = r.seq; error = [] }

-- The requests of a client go through its codec, without an error.
unfoldable pub write_all : List Client.Request → GobCodec → GobCodec
unfolding request_header
write_all [] g = g
write_all (r ∷ rest) g = write_all rest (write none none (request_header r) r.args g).0

-- What `ReadBody(nil)` gives behind an error, and else `ReadBody(call.Reply)`, which refuses an
-- `invalidRequest`; without a body the connection has ended.
unfoldable pub body_of : Response → Result Text
body_of r =
    let whole : Result Text =
      ite (text_dec r.head.error [])
        (elim r.reply [ some v ↦ ok v | none ↦ err (codes "gob: type mismatch") ]) (ok []) in
    if r.body_sent then whole else err (codes "EOF")

-- What the client reads of a response
unfoldable pub incoming_of : Response → Incoming
unfolding body_of
incoming_of r = response r.head.seq r.head.error (body_of r)

-- The calls of a client, one after the other
unfoldable pub issue : List (Text × Text) → Client → Client
issue [] c = c
issue (q ∷ rest) c = issue rest (go none c q.0 q.1).0
