-- ===== src/GeeRpc/Tests/Serving.antt =====
-- A connection with one request, served by a goroutine.
use days_project.Common.{
  true, arith, ok, ◌≡◌, ◌≤◌, ◌⊎◌, inr, refl, [], ◌∷◌, ◌++◌, Text, codes, Result, ok,
}
use days_project.GeeRpc.Server.{serve, read_request, accepted, request_timeout}
use days_project.GeeRpc.Server.Connection.{frames}
use days_project.GeeRpc.Handling
use days_project.GeeRpc.Handling.{Handling, begin, response_of}
use days_project.GeeRpc.Serving.{
  Connection, open_connection, leave_loop, spawn, deliver, progress, Steps, start, next, end_step,
  spawn_step, progress_step, close_step,
}
use days_project.GeeRpc.Serving.Owed.{responses_under}
use days_project.GeeRpc.Serving.Sequential.{closed-serve}
use days_project.GeeRpc.Tests.{foo, one, no_header, decode, echo, sum_type, found_sum}

abbrev seven : Result Text
seven = ok (codes "7")

abbrev called : Handling
called = record (begin one.head request_timeout) { worker = Handling.returned seven }

abbrev sending : Handling
sending = record called { worker = Handling.answering seven; waiter = Handling.awaiting_sent }

abbrev answered : Handling
answered = record sending {
  worker = Handling.answered seven;
  responses = sending.responses ++ response_of one.head seven ∷ [];
}

abbrev finished : Handling
finished = record answered { worker = Handling.finished; waiter = Handling.done }

abbrev spawned : Connection
spawned = spawn (open_connection (frames (one ∷ []))) one.head []

abbrev step_to : Connection → Handling → Handling → Connection
step_to s t t' = progress s [] t t' []

abbrev ended : Connection
ended = leave_loop (
    step_to
      (step_to (step_to (step_to spawned (begin one.head request_timeout) called) called sending)
        sending answered)
      answered finished)

abbrev closed : Connection
closed = record ended { closed = true }

read_one :
    read_request no_header decode foo (frames (one ∷ []))
    ≡ accepted one.head sum_type (codes "7") []
unfolding read_request
read_one = ground (arith, found_sum)

closed-Steps : Steps no_header decode foo (open_connection (frames (one ∷ []))) closed
unfolding open_connection spawn deliver progress leave_loop begin read_request
closed-Steps =
    next
      (next
        (next
          (next
            (next
              (next (next start (spawn_step one.head sum_type (codes "7") [] refl read_one)) (
                progress_step [] (begin one.head request_timeout) called [] refl
                  (Handling.return_step _ seven refl)))
              (progress_step [] called sending [] refl (Handling.called_step _ seven refl refl)))
            (progress_step [] sending answered [] refl (Handling.answer_step _ seven refl)))
          (progress_step [] answered finished [] refl (Handling.sent_step _ seven refl refl)))
        (end_step refl (inr refl)))
      (close_step refl (refl, tt))

closed-serve_example :
    (responses_under 1 closed.sent
      ≡ responses_under 1 (serve no_header decode echo foo (frames (one ∷ []))))
    ⊎ ((closed.broken ≡ true)
        × (responses_under 1 closed.sent
            ≤ responses_under 1 (serve no_header decode echo foo (frames (one ∷ [])))))
closed-serve_example =
    closed-serve no_header decode echo foo (frames (one ∷ [])) closed 1 closed-Steps refl
