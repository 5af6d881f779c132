-- ===== src/GeeRpc/Serving.antt =====
-- geerpc/server/server.go: `serverCodec`, whose loop reads the requests of a connection while the
-- goroutines of the earlier ones still run. A step is one of the loop's or of a goroutine's; the mutex
-- `sending` makes a response one step.
pub mod Owed
pub mod Answers
pub mod Sequential
use days_project.Common.{
  ℕ, List, [], ◌∷◌, ◌++◌, ◌≡◌, ◌⊎◌, if◌then◌else◌, Option, none, some, Bool, true, false, Text,
  Result, ok, err, All, length, drop, map,
}
use days_project.GeeRpc.Server.{
  MethodType, Server, Header, Frame, Response, refuse_with, ReadRequest, ended, refused, accepted,
  read_request, request_timeout,
}
use days_project.GeeRpc.Handling
use days_project.GeeRpc.Handling.{Handling, begin, response_of}

-- The connection: what is left to read, whether the loop goes on, the requests read so far, their
-- goroutines, the responses in the order in which they were sent, whether the codec has closed it
-- after an error of encoding, and whether `serverCodec` has closed it.
pub record Connection : Type 0 where
  pub unread : List Frame
  pub reading : Bool
  pub heads : List Header
  pub handlings : List Handling
  pub sent : List Response
  pub broken : Bool
  pub closed : Bool

unfoldable pub open_connection : List Frame → Connection
open_connection unread = record {
  unread = unread;
  reading = true;
  heads = [];
  handlings = [];
  sent = [];
  broken = false;
  closed = false;
}

-- `req == nil`: the loop ends.
unfoldable pub leave_loop : Connection → Connection
leave_loop s = record s { reading = false }

-- Nothing is sent after the codec has closed the connection.
unfoldable pub deliver : Bool → List Response → List Response → List Response
deliver broken sent responses = if broken then sent else sent ++ responses

-- The error of a request is sent by the loop itself, and the codec then closes the connection.
unfoldable pub refuse : Connection → Header → Text → List Frame → Connection
unfolding deliver
refuse s h message rest = record s {
  unread = rest;
  heads = s.heads ++ h ∷ [];
  sent = deliver s.broken s.sent (refuse_with h message ∷ []);
  broken = true;
}

-- `wg.Add(1)` and `go server.handleRequest(…)`
unfoldable pub spawn : Connection → Header → List Frame → Connection
spawn s h rest = record s {
  unread = rest;
  heads = s.heads ++ h ∷ [];
  handlings = s.handlings ++ begin h request_timeout ∷ [];
}

-- A goroutine goes from `t` to `t'`; what it sends, a reply that gob encodes or an error, goes to the
-- connection.
unfoldable pub progress :
    Connection → List Handling → Handling → Handling → List Handling → Connection
unfolding deliver
progress s before t t' after = record s {
  handlings = before ++ t' ∷ after;
  sent = deliver s.broken s.sent (drop (length t.responses) t'.responses);
}

-- The header alone of a response
unfoldable pub header_of : Response → Response
header_of r = record r { reply = none; body_sent = false }

-- A goroutine sends a reply that gob does not encode: `Write` sends the header and closes the
-- connection.
unfoldable pub break_off :
    Connection → List Handling → Handling → Handling → List Handling → Connection
unfolding deliver header_of
break_off s before t t' after = record s {
  handlings = before ++ t' ∷ after;
  sent = deliver s.broken s.sent (map header_of (drop (length t.responses) t'.responses));
  broken = true;
}

module _ (decode_header : Text → Option Header) (decode_body : MethodType → Text → Result Text)
    (server : Server) where
  -- On a broken connection the loop still reads what the decoder has in its buffer, or ends.
  pub data Step (s : Connection) : Connection → Type 0 where
    end_step :
        s.reading ≡ true
        → (s.broken ≡ true) ⊎ (read_request decode_header decode_body server s.unread ≡ ended)
        → Step s (leave_loop s)
    refuse_step :
        (h : Header) (message : Text) (rest : List Frame)
        → s.reading ≡ true
        → read_request decode_header decode_body server s.unread ≡ refused h message rest
        → Step s (refuse s h message rest)
    spawn_step :
        (h : Header) (m : MethodType) (arg : Text) (rest : List Frame)
        → s.reading ≡ true
        → read_request decode_header decode_body server s.unread ≡ accepted h m arg rest
        → Step s (spawn s h rest)
    progress_step :
        (before : List Handling) (t t' : Handling) (after : List Handling)
        → s.handlings ≡ before ++ t ∷ after
        → Handling.Step t t'
        → Step s (progress s before t t' after)
    break_step :
        (before : List Handling) (t t' : Handling) (after : List Handling) (reply : Text)
        → s.handlings ≡ before ++ t ∷ after
        → Handling.Step t t'
        → t'.responses ≡ t.responses ++ response_of t.head (ok reply) ∷ []
        → Step s (break_off s before t t' after)
    -- `wg.Wait()` returns when each `handleRequest` has.
    close_step :
        s.reading ≡ false
        → All (λ (t : Handling). t.waiter ≡ Handling.done) s.handlings
        → Step s (record s { closed = true })

  -- Any number of steps.
  pub data Steps (s : Connection) : Connection → Type 0 where
    start : Steps s s
    next : {t u : Connection} → Steps s t → Step t u → Steps s u
