-- ===== src/GeeRpc/Exchange/RoundTrip.antt =====
-- Calls from a client to a server and back.
use days_project.Common.{
  ℕ, zero, suc, ◌+◌, ◌^◌, ◌<◌, ◌≡◌, refl, sym, ap, subst, ◌∙◌, ◌≢◌, inl, inr, List, [], ◌∷◌, ◌++◌,
  Option, none, some, Text, Result, ok, err, All, In, map, length, get_elem?, lookup, ℕ_discrete,
  arith, Bool-cases, Result-cases, length-map, get_elem?-lt, ltb, eq_of_some,
}
use mathlib.Core.Path.{ap₂}
use mathlib.Core.List.{append_assoc, append-nil}
use days_project.GeeRpc.Client.{Call, new_client, receive}
use days_project.GeeRpc.Client.Histories.{new_client-IsValid}
use days_project.GeeRpc.Server.{
  MethodType, Server, Header, header, body, Response, find_service, handle_request, request_timeout,
  serve,
}
use days_project.GeeRpc.Server.Connection
use days_project.GeeRpc.Server.Connection.{
  frames, answer, IsServed, serve-answer, handle_request-seq,
}
use days_project.GeeRpc.Codec.{GobCodec, new_gob_codec, write}
use days_project.GeeRpc.Exchange.{request_header, write_all, incoming_of, issue}
use days_project.GeeRpc.Exchange.Receiving.{IsClear, Completed, SeqsDistinct, receive-Completed}
use days_project.GeeRpc.Exchange.Issuing.{requests_from, new_client-IsWaiting, issue-IsWaiting}

-- A call with the method that it reaches and the argument that the server decodes.
pub record Aimed : Type 0 where
  pub service_method : Text
  pub args : Text
  pub method : MethodType
  pub arg : Text

abbrev pub call_of : Aimed → Text × Text
call_of a = (a.service_method, a.args)

-- The request of the call under a number, as the server sees it.
abbrev request_of : ℕ → Aimed → Connection.Request
request_of i a = record {
  head = record { service_method = a.service_method; seq = i; error = [] };
  method = a.method;
  bytes = a.args;
  arg = a.arg;
}

abbrev requests_of : ℕ → List Aimed → List Connection.Request
requests_of i [] = []
requests_of i (a ∷ rest) = request_of i a ∷ requests_of (suc i) rest

write_one :
    (g : GobCodec) (h : Header) (b : Text)
    → g.buf ≡ []
    → ((write none none h b g).0.buf ≡ [])
      × ((write none none h b g).0.conn ≡ g.conn ++ header h ∷ body b ∷ [])
unfolding write
write_one g h b e = (refl, ap (λ l. g.conn ++ ((l ++ header h ∷ []) ++ body b ∷ [])) e)

-- Through the codec, the requests of the client are the server's.
write_all-frames :
    (qs : List Aimed) (i : ℕ) (g : GobCodec)
    → g.buf ≡ []
    → (write_all (requests_from i (map call_of qs)) g).conn ≡ g.conn ++ frames (requests_of i qs)
unfolding write_all request_header
write_all-frames [] i g e = sym (append-nil g.conn)
write_all-frames (a ∷ rest) i g e =
    let h = (request_of i a).head in
    let (empty, sent) = write_one g h a.args e in
    write_all-frames rest (suc i) (write none none h a.args g).0 empty
    ∙ ap (λ l. l ++ frames (requests_of (suc i) rest)) sent
    ∙ append_assoc g.conn (header h ∷ body a.args ∷ []) (frames (requests_of (suc i) rest))

module _ (decode_header : Text → Option Header) (decode_body : MethodType → Text → Result Text)
    (invoke : MethodType → Text → Result Text × ℕ) (server : Server) where
  -- The server has the method, the argument decodes, and an error of the method has a text.
  abbrev pub IsAimed : Aimed → Type 0
  IsAimed a =
      (find_service server a.service_method ≡ ok a.method)
      × (decode_body a.method a.args ≡ ok a.arg)
      × ((invoke a.method a.arg).0 ≢ err [])

  -- The answer to the call under a number.
  abbrev pub answer_to : ℕ → Aimed → Response
  answer_to i a =
      handle_request decode_header decode_body invoke request_timeout
        (record { service_method = a.service_method; seq = i; error = [] }) a.method a.arg

  abbrev answers : ℕ → List Aimed → List Response
  answers i qs = map (answer decode_header decode_body invoke server) (requests_of i qs)

  answer_to-IsClear :
      (i : ℕ) (a : Aimed) → (invoke a.method a.arg).0 ≢ err [] → IsClear (answer_to i a)
  unfolding handle_request
  answer_to-IsClear i a named = elim (Bool-cases (ltb (invoke a.method a.arg).1 request_timeout)) [
    | inr slow ↦ (ground (arith, slow), inl (ground (arith, slow)))
    | inl fast ↦ elim (Result-cases (invoke a.method a.arg).0) [
      | inl (v, e) ↦
          (ground (arith, fast, e), inr (v, ground (arith, fast, e), ground (arith, fast, e)))
      | inr (m, e) ↦
          let said : (answer_to i a).head.error ≡ m = ground (arith, fast, e) in
          (ground (arith, fast, e), inl (λ f. named (e ∙ ap err (sym said ∙ f))))
    ]
  ]

  answers-IsClear : (i : ℕ) (qs : List Aimed) → All IsAimed qs → All IsClear (answers i qs)
  answers-IsClear i [] h = tt
  answers-IsClear i (a ∷ qs) h = (answer_to-IsClear i a h.0.2, answers-IsClear (suc i) qs h.1)

  requests-IsServed :
      (i : ℕ) (qs : List Aimed)
      → All IsAimed qs
      → All (IsServed decode_header decode_body invoke server) (requests_of i qs)
  requests-IsServed i [] h = tt
  requests-IsServed i (a ∷ qs) h = ((h.0.0, h.0.1), requests-IsServed (suc i) qs h.1)

  -- The numbers of later answers are greater.
  answers-later :
      (i k : ℕ) (qs : List Aimed) → k < i → All (λ (q : Response). q.head.seq ≢ k) (answers i qs)
  answers-later i k [] h = tt
  answers-later i k (a ∷ qs) h = (
    λ e. absurd (
        omega (
          arith,
          h,
          e,
          handle_request-seq decode_header decode_body invoke server request_timeout
              (request_of i a).head a.method a.arg,
        )),
    answers-later (suc i) k qs (omega (arith, h)),
  )

  answers-SeqsDistinct : (i : ℕ) (qs : List Aimed) → SeqsDistinct (answers i qs)
  answers-SeqsDistinct i [] = tt
  answers-SeqsDistinct i (a ∷ qs) = (
    subst (λ k. All (λ (q : Response). q.head.seq ≢ k) (answers (suc i) qs))
        (sym (
          handle_request-seq decode_header decode_body invoke server request_timeout
            (request_of i a).head a.method a.arg))
        (answers-later (suc i) i qs (omega arith)),
    answers-SeqsDistinct (suc i) qs,
  )

  In-answers :
      (i j : ℕ) (qs : List Aimed) (a : Aimed)
      → get_elem? qs j ≡ some a
      → In (answer_to (i + j) a) (answers i qs)
  In-answers i j [] a e = absurd (cc)
  In-answers i zero (b ∷ qs) a e = inl (ap₂ answer_to (omega arith) (eq_of_some e))
  In-answers i (suc j) (b ∷ qs) a e = inr (
      subst (λ k. In (answer_to k a) (answers (suc i) qs)) (omega arith)
        (In-answers (suc i) j qs a e))

  -- A new client makes calls for methods that the server has, and writes their requests through its
  -- codec; the server answers what it reads; the client receives the answers. Then each call is
  -- completed, once, with what its own method gave for its own argument: the reply, the error, or the
  -- timeout's. There are fewer than 2 ^ 64 - 1 calls, and no error of a method is empty.
  pub round_trip :
      (qs : List Aimed) (calls : ℕ → Call) (j : ℕ) (a : Aimed)
      → ((p : ℕ) → (calls p).done ≡ 0)
      → All IsAimed qs
      → length qs + 1 < 2 ^ 64
      → get_elem? qs j ≡ some a
      → let c = issue (map call_of qs) (new_client calls) in
        let unread = (write_all c.wire new_gob_codec).conn in
        Completed
          (receive (map incoming_of (serve decode_header decode_body invoke server unread)) c)
          j
          (answer_to (suc j) a)
  unfolding new_client new_gob_codec
  round_trip qs calls j a zeros aimed small e =
      let c = issue (map call_of qs) (new_client calls) in
      let count = length-map call_of qs in
      let (waits, valid, wrote) =
        issue-IsWaiting (map call_of qs) 0 (new_client calls) (omega (arith, small, count))
          (new_client-IsWaiting calls) (new_client-IsValid calls zeros) in
      let unread : (write_all c.wire new_gob_codec).conn ≡ frames (requests_of 1 qs) =
        ap (λ l. (write_all l new_gob_codec).conn) wrote
        ∙ write_all-frames qs 1 new_gob_codec refl in
      let served : serve decode_header decode_body invoke server
            (write_all c.wire new_gob_codec).conn
          ≡ answers 1 qs =
        ap (serve decode_header decode_body invoke server) unread
        ∙ (serve-answer decode_header decode_body invoke server (requests_of 1 qs)
            (requests-IsServed 1 qs aimed)) in
      let r = answer_to (suc j) a in
      let here : In r (answers 1 qs) =
        subst (λ k. In (answer_to k a) (answers 1 qs)) (omega arith) (In-answers 1 j qs a e) in
      let seq : r.head.seq ≡ suc j =
        handle_request-seq decode_header decode_body invoke server request_timeout
          (request_of (suc j) a).head a.method a.arg in
      let known : lookup ℕ_discrete r.head.seq c.pending ≡ some j =
        ap (λ k. lookup ℕ_discrete k c.pending) seq
        ∙ waits.pending j (omega (arith, count, get_elem?-lt qs j a e)) in
      let (each, others) =
        receive-Completed (answers 1 qs) c valid (answers-SeqsDistinct 1 qs)
          (answers-IsClear 1 qs aimed) in
      subst (λ rs. Completed (receive (map incoming_of rs) c) j r) (sym served)
        (each r j here known)
