-- ===== src/GeeRpc/Serving/Answers.antt =====
-- Each request of a connection is answered once.
use days_project.Common.{
  ℕ, ◌+◌, ◌≡◌, refl, sym, ap, subst, inl, List, [], ◌∷◌, ◌++◌, Option, true, false, Text, Result,
  All, length, drop, arith, sum_of-append, append-All, All-append,
}
use days_project.GeeRpc.Server.{MethodType, Server, Header, Frame, Response, request_timeout}
use days_project.GeeRpc.Handling
use days_project.GeeRpc.Handling.{
  Handling, begin, response_of, timeout_response, return_step, called_step, answer_step, sent_step,
  timeout_step, refuse_step as late_step, calling,
}
use days_project.GeeRpc.Handling.Responses
use days_project.GeeRpc.Handling.Responses.{
  Phase, undecided, in_answer, after_answer, complete, expired, refused as late, Step-IsValid,
}
use days_project.GeeRpc.Serving.{
  Connection, open_connection, leave_loop, refuse, spawn, progress, deliver, Step, end_step,
  refuse_step, spawn_step, progress_step, break_step, break_off, close_step, Steps, start, next,
}
use days_project.GeeRpc.Serving.Owed.{
  tally, requests_under, responses_under, owed, owed_under, Step-Sends, Sends-owed,
}

-- The goroutines are all well-formed, what is still owed accounts for what was not sent on a
-- connection that is not broken, and a closed connection has waited for them.
pub record IsValid (s : Connection) : Type 0 where
  pub handled : All (λ (t : Handling). Responses.IsValid t.head request_timeout t) s.handlings
  pub counted :
      s.broken ≡ false
      → (n : ℕ) → responses_under n s.sent + owed_under n s.handlings ≡ requests_under n s.heads
  pub waited :
      s.closed ≡ true
      → (s.reading ≡ false) × All (λ (t : Handling). t.waiter ≡ Handling.done) s.handlings

pub open_connection-IsValid : (unread : List Frame) → IsValid (open_connection unread)
unfolding open_connection
open_connection-IsValid unread = record {
  handled = tt;
  counted = λ b n. refl;
  waited = λ e. absurd (cc);
}

begin-IsValid : (h : Header) → Responses.IsValid h request_timeout (begin h request_timeout)
unfolding begin
begin-IsValid h = record { head = refl; limit = refl; phase = undecided refl (inl refl) refl }

done_stays :
    {t t' : Handling} → Handling.Step t t' → t.waiter ≡ Handling.done → t'.waiter ≡ Handling.done
done_stays (return_step t r e) d = d
done_stays (called_step t r e f) d = absurd (cc)
done_stays (answer_step t r e) d = d
done_stays (sent_step t r e f) d = refl
done_stays (timeout_step t n f) d = absurd (cc)
done_stays (late_step t f) d = refl

-- In a list one element is replaced.
All-replace :
    (P : Handling → Type 0) (before after : List Handling) (t t' : Handling)
    → All P (before ++ t ∷ after)
    → (P t → P t')
    → All P (before ++ t' ∷ after)
All-replace P before after t t' h f =
    let (left, right) = append-All P before (t ∷ after) h in
    All-append P before (t' ∷ after) left (f right.0, right.1)

IsHandled : Handling → Type 0
IsHandled t = Responses.IsValid t.head request_timeout t

IsHandled-Step : {t t' : Handling} → Handling.Step t t' → IsHandled t → IsHandled t'
unfolding IsHandled
IsHandled-Step {t} {t'} st v =
    let next_one = Step-IsValid t.head request_timeout st v in
    subst (λ h. Responses.IsValid h request_timeout t') (sym next_one.head) next_one

done_owes :
    (n : ℕ) (t : Handling) {h : Header} {m : ℕ}
    → Phase h m t
    → t.waiter ≡ Handling.done
    → owed n t ≡ 0
done_owes n t (undecided a b c) d = absurd (cc)
done_owes n t (in_answer q a b c) d = absurd (cc)
done_owes n t (after_answer q a b c) d = absurd (cc)
done_owes n t (complete q a b c) d = rw c refl
done_owes n t (expired a b c m) d = absurd (cc)
done_owes n t (late a b c m) d = rw c refl

-- What a step of a goroutine sends is taken off what is owed.
pub progress_counts :
    {s : Connection} (before : List Handling) (t t' : Handling) (after : List Handling) (n : ℕ)
    → IsValid s
    → s.broken ≡ false
    → s.handlings ≡ before ++ t ∷ after
    → Handling.Step t t'
    → responses_under n s.sent
        + responses_under n (drop (length t.responses) t'.responses)
        + owed_under n (before ++ t' ∷ after)
      ≡ requests_under n s.heads
unfolding IsHandled
progress_counts {s} before t t' after n v b e st =
    let here : IsHandled t =
      (append-All IsHandled before (t ∷ after) (subst (All IsHandled) e v.handled)).1.0 in
    omega (
      arith,
      v.counted b n,
      ap (owed_under n) e,
      sum_of-append (owed n) before (t ∷ after),
      sum_of-append (owed n) before (t' ∷ after),
      Sends-owed n t t' (Step-Sends st here),
    )

progress-IsHandled :
    {s : Connection} (before : List Handling) (t t' : Handling) (after : List Handling)
    → IsValid s
    → s.handlings ≡ before ++ t ∷ after
    → Handling.Step t t'
    → All IsHandled (before ++ t' ∷ after)
unfolding IsHandled
progress-IsHandled before t t' after v e st =
    All-replace IsHandled before after t t' (subst (All IsHandled) e v.handled) (IsHandled-Step st)

progress_waits :
    {s : Connection} (before : List Handling) (t t' : Handling) (after : List Handling)
    → IsValid s
    → s.handlings ≡ before ++ t ∷ after
    → Handling.Step t t'
    → s.closed ≡ true
    → (s.reading ≡ false) × All (λ (x : Handling). x.waiter ≡ Handling.done) (before ++ t' ∷ after)
progress_waits before t t' after v e st c =
    let (off, all) = v.waited c in
    (
      off,
      All-replace (λ (x : Handling). x.waiter ≡ Handling.done) before after t t'
          (subst (All (λ (x : Handling). x.waiter ≡ Handling.done)) e all) (done_stays st),
    )

module _ (decode_header : Text → Option Header) (decode_body : MethodType → Text → Result Text)
    (server : Server) where
  Step-IsValid_lem :
      {s u : Connection} → Step decode_header decode_body server s u → IsValid s → IsValid u
  unfolding leave_loop refuse spawn progress break_off begin IsHandled deliver
  Step-IsValid_lem {s} (end_step on e) v = record {
    handled = v.handled;
    counted = v.counted;
    waited = λ c. (refl, (v.waited c).1);
  }
  Step-IsValid_lem {s} (refuse_step h message rest on e) v = record {
    handled = v.handled;
    counted = λ b. absurd (cc);
    waited = λ c. v.waited c;
  }
  Step-IsValid_lem {s} (spawn_step h m arg rest on e) v = record {
    handled =
        All-append _ s.handlings (begin h request_timeout ∷ []) v.handled (begin-IsValid h, tt);
    counted = λ b n. omega (
      arith,
      v.counted b n,
      sum_of-append (owed n) s.handlings (begin h request_timeout ∷ []),
      sum_of-append (λ (k : Header). tally n k.seq) s.heads (h ∷ []),
    );
    waited = λ c. absurd (cc (on, (v.waited c).0));
  }
  Step-IsValid_lem {s} (progress_step before t t' after e st) v = record {
    handled = progress-IsHandled before t t' after v e st;
    counted = λ b n. rw b (
        omega (
          arith,
          progress_counts before t t' after n v b e st,
          sum_of-append (λ (r : Response). tally n r.head.seq) s.sent
              (drop (length t.responses) t'.responses),
        ));
    waited = λ c. progress_waits before t t' after v e st c;
  }
  Step-IsValid_lem {s} (break_step before t t' after reply e st f) v = record {
    handled = progress-IsHandled before t t' after v e st;
    counted = λ b. absurd (cc);
    waited = λ c. progress_waits before t t' after v e st c;
  }
  Step-IsValid_lem {s} (close_step off all) v = record {
    handled = v.handled;
    counted = v.counted;
    waited = λ c. (off, all);
  }

  pub Steps-IsValid_lem :
      {s u : Connection} → Steps decode_header decode_body server s u → IsValid s → IsValid u
  Steps-IsValid_lem start v = v
  Steps-IsValid_lem (next l st) v = Step-IsValid_lem st (Steps-IsValid_lem l v)

  nothing_owed :
      (n : ℕ) (ts : List Handling)
      → All IsHandled ts
      → All (λ (t : Handling). t.waiter ≡ Handling.done) ts
      → owed_under n ts ≡ 0
  unfolding IsHandled
  nothing_owed n [] h d = refl
  nothing_owed n (t ∷ ts) h d =
      omega (arith, done_owes n t h.0.phase d.0, nothing_owed n ts h.1 d.1)

  -- However the loop and the goroutines of a connection interleave, when the connection is closed
  -- the loop has ended, and unless the codec has closed it before, as many responses were sent under
  -- each sequence number as requests were read under it.
  pub closed_answered :
      (unread : List Frame) (u : Connection) (n : ℕ)
      → Steps decode_header decode_body server (open_connection unread) u
      → u.closed ≡ true
      → u.broken ≡ false
      → (u.reading ≡ false) × (responses_under n u.sent ≡ requests_under n u.heads)
  unfolding IsHandled
  closed_answered unread u n l c b =
      let v = Steps-IsValid_lem l (open_connection-IsValid unread) in
      let (off, all) = v.waited c in
      (off, omega (arith, v.counted b n, nothing_owed n u.handlings v.handled all))
