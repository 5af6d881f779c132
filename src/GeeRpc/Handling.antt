-- ===== src/GeeRpc/Handling.antt =====
-- geerpc/server/server.go: `handleRequest` as interleavings of its goroutine, which calls the method,
-- and the wait for it with a timeout. The channels `called` and `sent` have no buffer: a send and its
-- receipt are one step.
pub mod Responses
use days_project.Common.{
  ℕ, List, [], ◌∷◌, ◌++◌, ◌≡◌, ◌≢◌, Option, none, some, true, Text, codes, Result, ok, err,
}
use days_project.GeeRpc.Server.{Header, Response}

-- Where the goroutine stands: in the method; at the send on `called`; at `sendResponse`; at the send on
-- `sent`; at its end.
pub data Worker : Type 0 where
  calling finished : Worker
  returned answering answered : Result Text → Worker

-- Where `handleRequest` stands: at the `select` (or at `<-called`); at `<-sent`; behind the timeout, at
-- `sendResponse`; at its end.
pub data Waiter : Type 0 where
  selecting awaiting_sent timed_out done : Waiter

pub record Handling : Type 0 where
  pub head : Header
  pub timeout : ℕ
  pub worker : Worker
  pub waiter : Waiter
  pub responses : List Response

-- The state when the goroutine has been started.
unfoldable pub begin : Header → ℕ → Handling
begin h timeout = record {
  head = h;
  timeout = timeout;
  worker = calling;
  waiter = selecting;
  responses = [];
}

-- The message, without the text of the duration at its end
abbrev pub timeout_message : Text
timeout_message = codes "rpc server: request handle timeout: expect within "

-- The response of the goroutine: the reply, or the error under `invalidRequest`.
unfoldable pub response_of : Header → Result Text → Response
response_of h (ok reply) = record { head = h; reply = some reply; body_sent = true }
response_of h (err e) = record { head = record h { error = e }; reply = none; body_sent = true }

-- The response behind the timeout
unfoldable pub timeout_response : Header → Response
timeout_response h = record {
  head = record h { error = timeout_message };
  reply = none;
  body_sent = true;
}

pub data Step : Handling → Handling → Type 0 where
  return_step :
      (s : Handling) (r : Result Text)
      → s.worker ≡ calling
      → Step s (record s { worker = returned r })
  called_step :
      (s : Handling) (r : Result Text)
      → s.worker ≡ returned r
      → s.waiter ≡ selecting
      → Step s (record s { worker = answering r; waiter = awaiting_sent })
  answer_step :
      (s : Handling) (r : Result Text)
      → s.worker ≡ answering r
      → Step s
          (record s { worker = answered r; responses = s.responses ++ response_of s.head r ∷ [] })
  sent_step :
      (s : Handling) (r : Result Text)
      → s.worker ≡ answered r
      → s.waiter ≡ awaiting_sent
      → Step s (record s { worker = finished; waiter = done })
  timeout_step :
      (s : Handling)
      → s.timeout ≢ 0
      → s.waiter ≡ selecting
      → Step s (record s { waiter = timed_out })
  refuse_step :
      (s : Handling)
      → s.waiter ≡ timed_out
      → Step s (record s { waiter = done; responses = s.responses ++ timeout_response s.head ∷ [] })

-- Any number of steps.
pub data Steps (s : Handling) : Handling → Type 0 where
  start : Steps s s
  next : {t u : Handling} → Steps s t → Step t u → Steps s u
