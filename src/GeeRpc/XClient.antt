-- ===== src/GeeRpc/XClient.antt =====
-- geerpc/xclient/xclient.go: a client of several servers. It keeps one connection for each address; a
-- `*client.Client` is a pointer, a number, and `store` gives what it points to.
pub mod Connections
pub mod Closing
pub mod Broadcasts
use days_project.Common.{
  ℕ, zero, suc, List, [], ◌∷◌, ◌++◌, Option, none, some, Bool, true, false, Text, text_dec, ite,
  Result, ok, err, GoMap, lookup, insert, delete, ℕ_discrete, ◌>>=◌,
}
use days_project.GeeRpc.Client
use days_project.GeeRpc.Client.{Client, is_available, update}
use days_project.GeeRpc.Discovery.{SelectMode}

-- The interface `Discovery`, of which `Get` and `GetAll` are called; `none` is a panic.
pub record Discovery (D : Type 0) : Type 0 where
  pub get : SelectMode → D → Option (D × Result Text)
  pub get_all : D → D × Result (List Text)

-- `XClient`; `opt` is part of what `XDial` gives, an argument of `dial`.
pub record XClient (D : Type 0) : Type 0 where
  pub d : D
  pub mode : SelectMode
  pub clients : GoMap Text ℕ
  pub store : ℕ → Client
  pub fresh : ℕ

module _ {D : Type 0} where
  -- `NewXClient`, over any contents of the memory that is not allocated yet
  unfoldable pub new_x_client : D → SelectMode → (ℕ → Client) → XClient D
  new_x_client d mode store = record { d = d; mode = mode; clients = []; store = store; fresh = 0 }

  -- A call of `Close` of a client; its error is dropped.
  unfoldable pub close_at : ℕ → XClient D → XClient D
  close_at p xc = record xc { store = update xc.store p (Client.close (xc.store p)).0 }

  -- The loop of `Close` over the map
  unfoldable pub close_each : GoMap Text ℕ → XClient D → XClient D
  unfolding close_at
  close_each [] xc = xc
  close_each (e ∷ rest) xc =
      let xc' = close_at e.1 xc in
      close_each rest (record xc' { clients = delete text_dec e.0 xc'.clients })

  -- `Close`
  unfoldable pub close : XClient D → XClient D
  unfolding close_each
  close xc = close_each xc.clients xc

  -- The first part of `dial`: the client that is kept, if it can be used.
  unfoldable pub reuse : Text → XClient D → XClient D × Option ℕ
  unfolding close_at
  reuse addr xc = elim (lookup text_dec addr xc.clients) [
    | none ↦ (xc, none)
    | some p ↦ elim (is_available (xc.store p)) [
      | true ↦ (xc, some p)
      | false ↦
          let xc' = close_at p xc in
          (record xc' { clients = delete text_dec addr xc'.clients }, none)
    ]
  ]

  -- The second part; `dialled` is what `client.XDial` gives.
  unfoldable pub connect : Result Client → Text → XClient D → XClient D × Result ℕ
  connect (err e) addr xc = (xc, err e)
  connect (ok c) addr xc = (
    record xc {
      clients = insert text_dec addr xc.fresh xc.clients;
      store = update xc.store xc.fresh c;
      fresh = suc xc.fresh;
    },
    ok xc.fresh,
  )

  -- `dial`
  unfoldable pub dial : Result Client → Text → XClient D → XClient D × Result ℕ
  unfolding reuse connect
  dial dialled addr xc =
      let (xc', kept) = reuse addr xc in
      elim kept [ some p ↦ (xc', ok p) | none ↦ connect dialled addr xc' ]

  -- The method `call`, up to the wait for the call: the client and the call that is sent.
  unfoldable pub call_at :
      Result Client → Option Text → Text → Text → Text → XClient D → XClient D × Result (ℕ × ℕ)
  unfolding dial
  call_at dialled failure addr service_method args xc =
      let (xc', client) = dial dialled addr xc in
      elim client [
        | err e ↦ (xc', err e)
        | ok p ↦
            let (c, q) = Client.go failure (xc'.store p) service_method args in
            (record xc' { store = update xc'.store p c }, ok (p, q))
      ]

  -- `Call`: the server that the discovery gives is called; `dialled` is what `XDial` gives there.
  unfoldable pub call :
      Discovery D
      → (Text → Result Client)
      → Option Text
      → Text
      → Text
      → XClient D
      → Option (XClient D × Result (ℕ × ℕ))
  unfolding call_at
  call ops dialled failure service_method args xc = do
    (d', chosen) ← ops.get xc.mode xc.d
    let xc' = record xc { d = d' }
    elim chosen [
      | err e ↦ some (xc', err e)
      | ok addr ↦ some (call_at (dialled addr) failure addr service_method args xc')
    ]

-- What the goroutines of `Broadcast` share: the first error, the reply, whether it is set, and
-- whether the context was cancelled.
pub record Shared : Type 0 where
  pub e : Option Text
  pub reply : Option Text
  pub reply_done : Bool
  pub cancelled : Bool

-- A goroutine's part under the lock, with the error or the cloned reply of its call.
unfoldable pub record_result : Result Text → Shared → Shared
record_result (err message) s = elim s.e [
  | none ↦ record s { e = some message; cancelled = true }
  | some first ↦ s
]
record_result (ok value) s = elim s.reply_done [
  | true ↦ s
  | false ↦ record s { reply = some value; reply_done = true }
]

-- The goroutines in the order in which they take the lock.
unfoldable pub gather : List (Result Text) → Shared → Shared
unfolding record_result
gather [] s = s
gather (r ∷ rest) s = gather rest (record_result r s)

-- `Broadcast` behind `GetAll`; `wants_reply` says that `reply` is not nil.
unfoldable pub broadcast :
    Bool → Result (List Text) → (List Text → List (Result Text)) → Option Text × Option Text
unfolding gather
broadcast wants_reply (err e) results = (some e, none)
broadcast wants_reply (ok servers) results =
    let s = gather (results servers) (record {
      e = none;
      reply = none;
      reply_done = elim wants_reply [ true ↦ false | false ↦ true ];
      cancelled = false;
    }) in
    (s.e, s.reply)
