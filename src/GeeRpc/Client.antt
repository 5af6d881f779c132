-- ===== src/GeeRpc/Client.antt =====
-- geerpc/client/client.go: a client's calls. A `*Call` is a pointer, a number; `calls` gives what it
-- points to. What runs under `mu` is one step; `send`
-- holds only `sending` from one such step to the next.
pub mod Completion
pub mod Histories
pub mod Dialing
pub mod Opening
pub mod Termination
use days_project.Common.{
  ℕ, suc, ◌+◌, ◌%◌, ◌^◌, List, [], ◌∷◌, ◌++◌, Option, none, some, Bool, true, false, Text, codes,
  text_dec, ite, Result, ok, err, GoMap, lookup, insert, delete, split, ℕ_discrete, if◌then◌else◌,
  not, ◌||◌, ◌&&◌,
}

-- `Call`; `done` counts the sends on its channel.
pub record Call : Type 0 where
  pub seq : ℕ
  pub service_method : Text
  pub args : Text
  pub reply : Option Text
  pub error : Option Text
  pub done : ℕ

-- What `cc.Write` sends: `codec.Header` and the body.
pub record Request : Type 0 where
  pub seq : ℕ
  pub service_method : Text
  pub args : Text

-- `Client`; `wire` lists the requests written, the first at the head.
pub record Client : Type 0 where
  pub seq : ℕ
  pub pending : GoMap ℕ ℕ
  pub closing : Bool
  pub shutdown : Bool
  pub calls : ℕ → Call
  pub fresh : ℕ
  pub wire : List Request

abbrev pub update : {A : Type 0} → (ℕ → A) → ℕ → A → ℕ → A
update f p a q = ite (ℕ_discrete p q) a (f q)

abbrev pub err_shutdown : Text
err_shutdown = codes "connection is shutdown"

-- `newClientCodec`, over any contents of the memory that is not allocated yet
unfoldable pub new_client : (ℕ → Call) → Client
new_client calls = record {
  seq = 1;
  pending = [];
  closing = false;
  shutdown = false;
  calls = calls;
  fresh = 0;
  wire = [];
}

-- `Close`; the error of the codec's `Close` is passed on by the source.
unfoldable pub close : Client → Client × Option Text
close c = if c.closing then (c, some err_shutdown) else (record c { closing = true }, none)

unfoldable pub is_available : Client → Bool
is_available c = not c.shutdown && not c.closing

-- `registerCall`
unfoldable pub register_call : Client → ℕ → Client × Result ℕ
register_call c p = if c.closing || c.shutdown then (c, err err_shutdown) else (
  record c {
    calls = update c.calls p (let call = c.calls p in record call { seq = c.seq });
    pending = insert ℕ_discrete c.seq p c.pending;
    seq = (c.seq + 1) % 2 ^ 64;
  },
  ok c.seq,
)

-- `removeCall`
unfoldable pub remove_call : Client → ℕ → Client × Option ℕ
remove_call c seq =
    (record c { pending = delete ℕ_discrete seq c.pending }, lookup ℕ_discrete seq c.pending)

-- `call.Error = err; call.done()`
unfoldable pub fail_call : Client → ℕ → Text → Client
fail_call c p message = record c {
  calls =
      update c.calls p
        (let call = c.calls p in record call { error = some message; done = suc call.done });
}

-- A reply is stored and `call.done()` called.
unfoldable pub finish_call : Client → ℕ → Text → Client
finish_call c p value = record c {
  calls =
      update c.calls p
        (let call = c.calls p in record call { reply = some value; done = suc call.done });
}

-- The loop of `terminateCalls` over the pending calls.
unfoldable pub fail_all : GoMap ℕ ℕ → Text → Client → Client
unfolding fail_call
fail_all [] message c = c
fail_all (e ∷ rest) message c = fail_all rest message (fail_call c e.1 message)

-- `terminateCalls`
unfoldable pub terminate_calls : Client → Text → Client
unfolding fail_all
terminate_calls c message = fail_all c.pending message (record c { shutdown = true })

-- Where `send` stands, which holds `sending`: outside; behind `registerCall`; or behind an error of
-- `cc.Write`.
pub data Sending : Type 0 where
  idle : Sending
  writing : (p seq : ℕ) → Sending
  failing : (p seq : ℕ) (message : Text) → Sending

-- `registerCall` in `send`, or its error
unfoldable pub begin_send : Client → ℕ → Client × Sending
unfolding register_call fail_call
begin_send c p =
    let (c', seq) = register_call c p in
    elim seq [ err message ↦ (fail_call c' p message, idle) | ok n ↦ (c', writing p n) ]

-- `cc.Write`, where it gives no error
unfoldable pub write_request : Client → ℕ → ℕ → Client
write_request c p seq = record c {
  wire =
      c.wire
      ++ record { seq = seq; service_method = (c.calls p).service_method; args = (c.calls p).args }
        ∷ [];
}

-- Behind an error of `cc.Write`: `removeCall`, and the error of the call that it gives.
unfoldable pub fail_write : Client → ℕ → ℕ → Text → Client
unfolding remove_call fail_call
fail_write c p seq message =
    let (c', found) = remove_call c seq in
    elim found [ none ↦ c' | some q ↦ fail_call c' q message ]

-- The end of `send` where no other goroutine comes in between.
unfoldable pub write_call : Option Text → Client → ℕ → ℕ → Client
unfolding write_request fail_write
write_call failure c p seq = elim failure [
  | none ↦ write_request c p seq
  | some message ↦ fail_write c p seq message
]

unfoldable pub finish_send : Option Text → Client → Sending → Client
unfolding write_call
finish_send failure c idle = c
finish_send failure c (writing p n) = write_call failure c p n
finish_send failure c (failing p n message) = fail_write c p n message

-- `send` where no other goroutine comes in between; `failure` is the error of `cc.Write`, if it gives
-- one.
unfoldable pub send : Option Text → Client → ℕ → Client
unfolding begin_send finish_send
send failure c p = let (c', s) = begin_send c p in finish_send failure c' s

-- The new call of `Go`
unfoldable pub allocate : Client → Text → Text → Client
allocate c service_method args = record c {
  calls = update c.calls c.fresh (record {
    seq = 0;
    service_method = service_method;
    args = args;
    reply = none;
    error = none;
    done = 0;
  });
  fresh = suc c.fresh;
}

-- `Go`, with a `send` that no other goroutine interrupts
unfoldable pub go : Option Text → Client → Text → Text → Client × ℕ
unfolding send allocate
go failure c service_method args = (send failure (allocate c service_method args) c.fresh, c.fresh)

-- `Call` gives up on a call when its context is done.
unfoldable pub cancel : Client → ℕ → Client
unfolding remove_call
cancel c p = (remove_call c (c.calls p).seq).0

-- What the connection gives `receive`: the error of `ReadHeader`, or a header and what `ReadBody` gives.
pub data Incoming : Type 0 where
  header_error : Text → Incoming
  response : (seq : ℕ) (error : Text) (body : Result Text) → Incoming

unfoldable pub body_error : Result Text → Option Text
body_error (ok v) = none
body_error (err e) = some e

-- One round of the loop of `receive` behind `ReadHeader`: the client, and the error that ends the loop.
unfoldable pub receive_one : Client → ℕ → Text → Result Text → Client × Option Text
unfolding remove_call fail_call finish_call body_error
receive_one c seq error body =
    let (c', found) = remove_call c seq in
    elim found [
      | none ↦ (c', body_error body)
      | some p ↦
          ite (text_dec error [])
            (elim body [
              | ok v ↦ (finish_call c' p v, none)
              | err e ↦ (fail_call c' p (codes "reading body " ++ e), some e)
            ])
            (fail_call c' p error, body_error body)
    ]

-- `receive` over what arrives; it waits at the end of the list, and `terminateCalls` ends it.
unfoldable pub receive : List Incoming → Client → Client
unfolding receive_one terminate_calls
receive [] c = c
receive (header_error e ∷ rest) c = terminate_calls c e
receive (response seq error body ∷ rest) c =
    let (c', failed) = receive_one c seq error body in
    elim failed [ some e ↦ terminate_calls c' e | none ↦ receive rest c' ]

-- `common.Option`
pub record Options : Type 0 where
  pub magic_number : ℕ
  pub codec_type : Text
  pub connect_timeout : ℕ
  pub handle_timeout : ℕ

abbrev pub default_options : Options
default_options = record {
  magic_number = 0x3bef5c;
  codec_type = codes "application/gob";
  connect_timeout = 10;
  handle_timeout = 0;
}

-- `parseOptions`; a nil option is `none`.
unfoldable pub parse_options : List (Option Options) → Result Options
parse_options [] = ok default_options
parse_options (none ∷ rest) = ok default_options
parse_options (some opt ∷ more ∷ rest) = err (codes "number of options is more than 1")
parse_options (some opt ∷ []) = ok (record opt {
  magic_number = default_options.magic_number;
  codec_type = ite (text_dec opt.codec_type []) default_options.codec_type opt.codec_type;
})

-- Where `XDial` connects to.
pub data Target : Type 0 where
  http_target : (addr : Text) → Target
  net_target : (network addr : Text) → Target

-- `XDial`, up to the connection.
unfoldable pub target_of : List Text → Option Target
target_of (protocol ∷ addr ∷ []) =
    some (ite (text_dec protocol (codes "http")) (http_target addr) (net_target protocol addr))
target_of parts = none

unfoldable pub x_dial : Text → Option Target
unfolding target_of
x_dial rpc_addr = target_of (split rpc_addr b'@')
