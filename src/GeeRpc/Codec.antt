-- ===== src/GeeRpc/Codec.antt =====
-- geerpc/codec/gob.go: `GobCodec`, which writes a header and a body through a buffer. What gob makes
-- of a value is a frame; its errors are arguments.
use days_project.Common.{List, [], ◌∷◌, ◌++◌, Option, none, some, Bool, true, false, Text}
use days_project.GeeRpc.Server.{Header, Frame, header, body}

-- `GobCodec`: what is in the buffer, what the other side gets, and whether the connection is closed.
pub record GobCodec : Type 0 where
  pub buf : List Frame
  pub conn : List Frame
  pub closed : Bool

-- `NewGobCodec`
unfoldable pub new_gob_codec : GobCodec
new_gob_codec = record { buf = []; conn = []; closed = false }

unfoldable pub close : GobCodec → GobCodec
close g = record g { closed = true }

-- `g.enc.Encode`, with its error
unfoldable pub encode : Option Text → Frame → GobCodec → GobCodec × Option Text
encode none f g = (record g { buf = g.buf ++ f ∷ [] }, none)
encode (some e) f g = (g, some e)

-- `g.buf.Flush()`
unfoldable pub flush : GobCodec → GobCodec
flush g = record g { conn = g.conn ++ g.buf; buf = [] }

-- The deferred function of `Write`
unfoldable pub finish : GobCodec × Option Text → GobCodec × Option Text
unfolding flush close
finish (g, none) = (flush g, none)
finish (g, some e) = (close (flush g), some e)

-- `Write`; the arguments are the errors of encoding the header and the body.
unfoldable pub write : Option Text → Option Text → Header → Text → GobCodec → GobCodec × Option Text
unfolding encode finish
write header_failure body_failure h b g =
    let (g', failed) = encode header_failure (header h) g in
    elim failed [ some e ↦ finish (g', some e) | none ↦ finish (encode body_failure (body b) g') ]
