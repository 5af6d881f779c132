-- ===== src/GeeRpc/Client/Opening.antt =====
-- What a dialled client can rely on: its connection, its state and the server's handshake.
use days_project.Common.{
  ℕ, List, [], ◌∷◌, ◌++◌, ◌≡◌, refl, Option, none, some, Bool, true, false, Text, codes, text_dec,
  if_pos, if_neg, Result, ok, err, arith, ◌⊎◌, inl, inr, ◌==◌, Option-cases, Bool-cases,
}
use days_project.GeeRpc.Client.{
  Call, Client, new_client, is_available, Options, parse_options, http_target, net_target, x_dial,
}
use days_project.GeeRpc.Client.Dialing.{
  Conn, Network, open_client, check_status, open_http_client, close_on_error, await_client,
  dial_timeout, dial_at, connected,
}
use days_project.GeeRpc.Server.{serving, handshake}

-- The result of dialling: an error, with the connection closed if it was opened; or a client that can
-- be used, over an open connection on which options that the server accepts were written last.
pub data Opened (calls : ℕ → Call) (net : Network) : Option Conn × Result Client → Type 0 where
  no_connection : (e : Text) → Opened calls net (none, err e)
  given_up : (conn : Conn) (e : Text) → conn.closed ≡ true → Opened calls net (some conn, err e)
  established :
      (conn : Conn) (opt : Options) (before : List Text)
      → conn.closed ≡ false
      → conn.written ≡ before ++ net.encode opt ∷ []
      → handshake (some (opt.magic_number, opt.codec_type)) ≡ serving
      → Opened calls net (some conn, ok (new_client calls))

-- What `f` of `dialTimeout` gives on an open connection.
pub data Made (calls : ℕ → Call) (net : Network) (opt : Options)
    : Conn × Result Client → Type 0 where
  failed : (conn : Conn) (e : Text) → Made calls net opt (conn, err e)
  made :
      (conn : Conn) (before : List Text)
      → conn.closed ≡ false
      → conn.written ≡ before ++ net.encode opt ∷ []
      → opt.codec_type ≡ codes "application/gob"
      → Made calls net opt (conn, ok (new_client calls))

Result-cases {ℓ} : {A : Type ℓ} (r : Result A) → ((a : A) × (r ≡ ok a)) ⊎ ((e : Text) × (r ≡ err e))
Result-cases (ok a) = inl (a, refl)
Result-cases (err e) = inr (e, refl)

pub parse_options-magic :
    (opts : List (Option Options)) (opt : Options)
    → parse_options opts ≡ ok opt
    → opt.magic_number ≡ 0x3bef5c
unfolding parse_options
parse_options-magic [] opt e = ground arith
parse_options-magic (none ∷ rest) opt e = ground arith
parse_options-magic (some o ∷ []) opt e = ground arith
parse_options-magic (some o ∷ more ∷ rest) opt e = absurd (cc)

pub handshake_serves :
    (opt : Options)
    → opt.magic_number ≡ 0x3bef5c
    → opt.codec_type ≡ codes "application/gob"
    → handshake (some (opt.magic_number, opt.codec_type)) ≡ serving
unfolding handshake
handshake_serves opt m c = ground (arith, m, c)

module _ (calls : ℕ → Call) (net : Network) where
  open_client-Made :
      (opt : Options) (conn : Conn)
      → conn.closed ≡ false
      → Made calls net opt (open_client calls net opt conn)
  unfolding open_client
  open_client-Made opt conn fresh = elim (text_dec opt.codec_type (codes "application/gob")) [
    | no n ↦ rw (if_neg (text_dec opt.codec_type (codes "application/gob")) n) (failed _ _)
    | yes p ↦
        rw (if_pos (text_dec opt.codec_type (codes "application/gob")) p)
          (elim (Option-cases net.encode_error) [
            | inl e ↦ rw e (made _ conn.written fresh refl p)
            | inr (m, e) ↦ rw e (failed _ m)
          ])
  ]

  check_status-Made :
      (opt : Options) (conn : Conn) (status : Result Text)
      → conn.closed ≡ false
      → Made calls net opt (check_status calls net opt conn status)
  unfolding check_status
  check_status-Made opt conn (err e) fresh = failed conn e
  check_status-Made opt conn (ok status) fresh = elim (text_dec status connected) [
    | yes p ↦ rw (if_pos (text_dec status connected) p) (open_client-Made opt conn fresh)
    | no n ↦ rw (if_neg (text_dec status connected) n) (failed conn _)
  ]

  open_http_client-Made :
      (opt : Options) (conn : Conn)
      → conn.closed ≡ false
      → Made calls net opt (open_http_client calls net opt conn)
  unfolding open_http_client
  open_http_client-Made opt conn fresh = check_status-Made opt _ net.status fresh

  close_on_error-Opened :
      (opt : Options) {r : Conn × Result Client}
      → opt.magic_number ≡ 0x3bef5c
      → Made calls net opt r
      → let (conn, result) = close_on_error r in Opened calls net (some conn, result)
  unfolding close_on_error
  close_on_error-Opened opt magic (failed conn e) = given_up _ e refl
  close_on_error-Opened opt magic (made conn before fresh written codec) =
      established conn opt before fresh written (handshake_serves opt magic codec)

  await_client-Made :
      (late : Bool) (opt : Options) (conn : Conn) (r : Conn × Result Client)
      → Made calls net opt r
      → Made calls net opt (await_client late opt conn r)
  unfolding await_client
  await_client-Made late opt conn r m = elim (Bool-cases (opt.connect_timeout == 0)) [
    | inl e ↦ rw e m
    | inr e ↦
        rw e
          (elim late
            as (λ b. Made calls net opt (elim b [
              | true ↦ (conn, err (codes "rpc client:connect: expect within "))
              | false ↦ r
            ])) [ true ↦ failed conn _ | false ↦ m ])
  ]

  dial_timeout-Opened :
      (f : Options → Conn → Conn × Result Client) (opened : Option Text) (late : Bool)
      (opts : List (Option Options))
      → ((opt : Options) (conn : Conn) → conn.closed ≡ false → Made calls net opt (f opt conn))
      → Opened calls net (dial_timeout f opened late opts)
  unfolding dial_timeout
  dial_timeout-Opened f opened late opts good = elim (Result-cases (parse_options opts)) [
    | inr (m, e) ↦ rw (e, dial_timeout) (no_connection m)
    | inl (opt, e) ↦ elim (Option-cases opened) [
      | inr (m, refused) ↦ rw (e, refused, dial_timeout) (no_connection m)
      | inl open_now ↦
          let conn : Conn = record { written = []; closed = false } in
          rw (e, open_now, dial_timeout)
            (close_on_error-Opened opt (parse_options-magic opts opt e)
              (await_client-Made late opt conn (f opt conn) (good opt conn refl)))
    ]
  ]

  -- However a dial ends: without a connection, with an error; with an error and the connection
  -- closed; or with a new client over an open connection, on which the options were written last,
  -- and these pass the server's handshake.
  pub dial_at-Opened :
      (opened : Option Text) (late : Bool) (rpc_addr : Text) (opts : List (Option Options))
      → Opened calls net (dial_at calls net opened late rpc_addr opts)
  unfolding dial_at
  dial_at-Opened opened late rpc_addr opts = elim (Option-cases (x_dial rpc_addr)) [
    | inl e ↦ rw (e, dial_at) (no_connection _)
    | inr (http_target addr, e) ↦
        rw (e, dial_at)
          (dial_timeout-Opened (open_http_client calls net) opened late opts open_http_client-Made)
    | inr (net_target network addr, e) ↦
        rw (e, dial_at)
          (dial_timeout-Opened (open_client calls net) opened late opts open_client-Made)
  ]

  new_client-is_available : is_available (new_client calls) ≡ true
  unfolding is_available new_client
  new_client-is_available = refl
