-- ===== src/GeeRpc/Serving/Sequential.antt =====
-- A connection served with goroutines answers like one whose requests are handled in turn.
use days_project.Common.{
  ℕ, ◌+◌, ◌≡◌, ◌≤◌, ◌⊎◌, inl, inr, Bool-cases, refl, ap, ◌∙◌, List, [], ◌∷◌, Option, true, false,
  Text, Result, arith, sum_of-append, map, drop, length,
}
use days_project.GeeRpc.Server.{
  MethodType, Server, Header, Frame, Response, refuse_with, ReadRequest, ended, refused, accepted,
  read_argument, read_request, request_timeout, handle_request, serve,
}
use days_project.GeeRpc.Server.Connection.{handle_request-seq}
use days_project.GeeRpc.Serving.{
  Connection, open_connection, leave_loop, refuse, spawn, progress, deliver, Step, end_step,
  refuse_step, spawn_step, progress_step, break_step, break_off, header_of, close_step, Steps,
  start, next,
}
use days_project.GeeRpc.Serving.Owed.{
  tally, requests_under, responses_under, responses_under-header_of,
}
use days_project.GeeRpc.Serving.Answers.{
  closed_answered, progress_counts, IsValid, open_connection-IsValid, Steps-IsValid_lem,
}

module _ (decode_header : Text → Option Header) (decode_body : MethodType → Text → Result Text)
    (invoke : MethodType → Text → Result Text × ℕ) (server : Server) where
  -- The responses from a request on.
  abbrev serve_from : ReadRequest → List Response
  serve_from ended = []
  serve_from (refused h message rest) = refuse_with h message ∷ []
  serve_from (accepted h m arg rest) =
      handle_request decode_header decode_body invoke request_timeout h m arg
      ∷ serve decode_header decode_body invoke server rest

  serve-read_request :
      (unread : List Frame)
      → serve decode_header decode_body invoke server unread
        ≡ serve_from (read_request decode_header decode_body server unread)
  unfolding serve read_request read_argument
  serve-read_request [] = refl
  serve-read_request (f ∷ []) = ground arith
  serve-read_request (f ∷ g ∷ rest) = ground arith

  -- While the connection is not broken, what was read, and what would be answered from here on, is
  -- what would have been answered; on a broken one no more was sent than that.
  abbrev InTurn : List Frame → Connection → Type 0
  InTurn unread s =
      (s.broken ≡ false
        → ((n : ℕ)
            → requests_under n s.heads
                + responses_under n (serve decode_header decode_body invoke server s.unread)
              ≡ responses_under n (serve decode_header decode_body invoke server unread))
          × (s.reading ≡ false → serve decode_header decode_body invoke server s.unread ≡ []))
      × (s.broken ≡ true
          → (n : ℕ)
          → responses_under n s.sent
            ≤ responses_under n (serve decode_header decode_body invoke server unread))

  Step-InTurn :
      (unread : List Frame) {s u : Connection}
      → Step decode_header decode_body server s u
      → IsValid s
      → InTurn unread s
      → InTurn unread u
  unfolding leave_loop refuse spawn progress break_off deliver
  Step-InTurn unread {s} (end_step on (inl broken)) v (whole, cut) =
      (λ b. absurd (cc (b, broken)), cut)
  Step-InTurn unread {s} (end_step on (inr e)) v (whole, cut) =
      (λ b. ((whole b).0, λ q. serve-read_request s.unread ∙ ap serve_from e), cut)
  Step-InTurn unread {s} (refuse_step h message rest on e) v (whole, cut) = (
    λ b. absurd (cc),
    λ b n. elim (Bool-cases s.broken) [
      | inl broken ↦ rw broken (cut broken n)
      | inr sound ↦ rw sound (
          omega (
            arith,
            (whole sound).0 n,
            v.counted sound n,
            ap (responses_under n) (serve-read_request s.unread ∙ ap serve_from e),
            sum_of-append (λ (r : Response). tally n r.head.seq) s.sent
                (refuse_with h message ∷ []),
          ))
    ],
  )
  Step-InTurn unread {s} (spawn_step h m arg rest on e) v (whole, cut) = (
    λ b. (
      λ n. omega (
        arith,
        (whole b).0 n,
        ap (responses_under n) (serve-read_request s.unread ∙ ap serve_from e),
        ap (tally n)
            (handle_request-seq decode_header decode_body invoke server request_timeout h m arg),
        sum_of-append (λ (k : Header). tally n k.seq) s.heads (h ∷ []),
      ),
      λ q. absurd (cc (on, q)),
    ),
    cut,
  )
  Step-InTurn unread {s} (progress_step before t t' after e st) v (whole, cut) =
      (whole, λ b n. rw b (cut b n))
  Step-InTurn unread {s} (break_step before t t' after reply e st f) v (whole, cut) = (
    λ b. absurd (cc),
    λ b n. elim (Bool-cases s.broken) [
      | inl broken ↦ rw broken (cut broken n)
      | inr sound ↦ rw sound (
          omega (
            arith,
            (whole sound).0 n,
            progress_counts before t t' after n v sound e st,
            responses_under-header_of n (drop (length t.responses) t'.responses),
            sum_of-append (λ (r : Response). tally n r.head.seq) s.sent
                (map header_of (drop (length t.responses) t'.responses)),
          ))
    ],
  )
  Step-InTurn unread {s} (close_step off all) v w = w

  Steps-InTurn :
      (unread : List Frame) {s u : Connection}
      → Steps decode_header decode_body server s u
      → IsValid s
      → InTurn unread s
      → InTurn unread u
  Steps-InTurn unread start v w = w
  Steps-InTurn unread (next l st) v w =
      Step-InTurn unread st (Steps-IsValid_lem decode_header decode_body server l v)
        (Steps-InTurn unread l v w)

  -- However the loop and the goroutines of a connection interleave, by the time it is closed it has
  -- sent as many responses under each sequence number as a server that handles the requests one
  -- after the other; or the codec has closed it, at a request that was refused or at a reply that gob
  -- does not encode, and it has sent at most as many.
  pub closed-serve :
      (unread : List Frame) (u : Connection) (n : ℕ)
      → Steps decode_header decode_body server (open_connection unread) u
      → u.closed ≡ true
      → (responses_under n u.sent
          ≡ responses_under n (serve decode_header decode_body invoke server unread))
        ⊎ ((u.broken ≡ true)
            × (responses_under n u.sent
                ≤ responses_under n (serve decode_header decode_body invoke server unread)))
  unfolding open_connection
  closed-serve unread u n l c =
      let (whole, cut) =
        Steps-InTurn unread l (open_connection-IsValid unread)
          (λ b. (λ k. omega arith, λ q. absurd (cc)), λ b. absurd (cc)) in
      elim (Bool-cases u.broken) [
        | inl broken ↦ inr (broken, cut broken n)
        | inr sound ↦
            let (off, answered) =
              closed_answered decode_header decode_body server unread u n l c sound in
            let (counted, rest) = whole sound in
            inl (omega (arith, answered, counted n, ap (responses_under n) (rest off)))
      ]
