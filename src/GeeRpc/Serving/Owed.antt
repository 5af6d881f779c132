-- ===== src/GeeRpc/Serving/Owed.antt =====
-- What the goroutines of a connection have sent and still owe.
use days_project.Common.{
  ℕ, ◌+◌, ◌≡◌, refl, ap, ◌⊎◌, inl, inr, List, [], ◌∷◌, ◌++◌, Text, Result, ok, err, length, drop,
  arith, sum_of, ◌==◌, map, if◌then◌else◌,
}
use days_project.GeeRpc.Server.{Header, Response}
use days_project.GeeRpc.Serving.{header_of}
use days_project.GeeRpc.Handling
use days_project.GeeRpc.Handling.{
  Handling, begin, response_of, timeout_response, return_step, called_step, answer_step, sent_step,
  timeout_step, refuse_step as late_step, calling,
}
use days_project.GeeRpc.Handling.Responses
use days_project.GeeRpc.Handling.Responses.{
  Phase, undecided, in_answer, after_answer, complete, expired, refused as late, Step-IsValid,
}

abbrev pub tally : ℕ → ℕ → ℕ
tally n seq = if seq == n then 1 else 0

-- How many requests were read under a sequence number, and how many responses were sent under it.
abbrev pub requests_under : ℕ → List Header → ℕ
requests_under n = sum_of (λ h. tally n h.seq)

abbrev pub responses_under : ℕ → List Response → ℕ
responses_under n = sum_of (λ r. tally n r.head.seq)

-- The goroutines that have not sent their response.
abbrev pub owed_of : ℕ → ℕ → List Response → ℕ
owed_of n seq [] = tally n seq
owed_of n seq (r ∷ rs) = 0

abbrev pub owed : ℕ → Handling → ℕ
owed n t = owed_of n t.head.seq t.responses

abbrev pub owed_under : ℕ → List Handling → ℕ
owed_under n = sum_of (owed n)

-- A step of a goroutine keeps its header, and sends nothing or its one response.
abbrev pub Sends : Handling → Handling → Type 0
Sends t t' =
    (t'.head ≡ t.head)
    × ((t'.responses ≡ t.responses)
        ⊎ ((t.responses ≡ [])
            × ((r : Response) × (t'.responses ≡ r ∷ []) × (r.head.seq ≡ t.head.seq))))

pub answer_empty :
    {h : Header} {n : ℕ} {t : Handling} (r : Result Text)
    → t.worker ≡ Handling.answering r
    → Phase h n t
    → t.responses ≡ []
answer_empty r e (undecided a (inl b) c) = c
answer_empty r e (undecided a (inr b) c) = c
answer_empty r e (in_answer q a b c) = c
answer_empty r e (after_answer q a b c) = absurd (cc)
answer_empty r e (complete q a b c) = absurd (cc)
answer_empty r e (expired a b c m) = c
answer_empty r e (late a (inl b) c m) = absurd (cc)
answer_empty r e (late a (inr (q, b)) c m) = absurd (cc)

pub late_empty :
    {h : Header} {n : ℕ} {t : Handling}
    → t.waiter ≡ Handling.timed_out
    → Phase h n t
    → t.responses ≡ []
late_empty e (undecided a b c) = c
late_empty e (in_answer q a b c) = c
late_empty e (after_answer q a b c) = absurd (cc)
late_empty e (complete q a b c) = absurd (cc)
late_empty e (expired a b c m) = c
late_empty e (late a b c m) = absurd (cc)

pub response_of-seq : (h : Header) (r : Result Text) → (response_of h r).head.seq ≡ h.seq
unfolding response_of
response_of-seq h (ok reply) = refl
response_of-seq h (err e) = refl

pub Step-Sends :
    {t t' : Handling} {h : Header} {n : ℕ}
    → Handling.Step t t'
    → Responses.IsValid h n t
    → Sends t t'
unfolding timeout_response
Step-Sends (return_step t r e) v = (refl, inl refl)
Step-Sends (called_step t r e f) v = (refl, inl refl)
Step-Sends (answer_step t r e) v =
    let none_yet = answer_empty r e v.phase in
    (
      refl,
      inr (
        none_yet,
        (
          response_of t.head r,
          ap (λ l. l ++ response_of t.head r ∷ []) none_yet,
          response_of-seq t.head r,
        ),
      ),
    )
Step-Sends (sent_step t r e f) v = (refl, inl refl)
Step-Sends (timeout_step t n f) v = (refl, inl refl)
Step-Sends (late_step t f) v =
    let none_yet = late_empty f v.phase in
    (
      refl,
      inr (
        none_yet,
        (timeout_response t.head, ap (λ l. l ++ timeout_response t.head ∷ []) none_yet, refl),
      ),
    )

pub drop_all : (rs : List Response) → drop (length rs) rs ≡ []
drop_all [] = refl
drop_all (r ∷ rs) = drop_all rs

pub Sends-owed :
    (n : ℕ) (t t' : Handling)
    → Sends t t'
    → responses_under n (drop (length t.responses) t'.responses) + owed n t' ≡ owed n t
Sends-owed n t t' (same, inl e) = rw (e, same, drop_all t.responses) (omega arith)
Sends-owed n t t' (same, inr (e, (r, f, g))) = rw (e, f, g) (omega arith)

-- A header counts like its response.
pub responses_under-header_of :
    (n : ℕ) (rs : List Response) → responses_under n (map header_of rs) ≡ responses_under n rs
unfolding header_of
responses_under-header_of n [] = refl
responses_under-header_of n (r ∷ rs) = omega (arith, responses_under-header_of n rs)
