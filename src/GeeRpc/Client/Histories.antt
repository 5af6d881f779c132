-- ===== src/GeeRpc/Client/Histories.antt =====
-- The histories of a client, in which no call is completed twice.
use days_project.Common.{
  ℕ, ◌≡◌, sym, subst, inl, inr, Option, none, some, false, Text, Result, lookup, lookup-insert,
  ℕ_discrete, arith, Option-cases, Bool-cases, ◌||◌,
}
use days_project.GeeRpc.Client.{
  Call, Client, new_client, register_call, fail_call, fail_write, write_call, write_request,
  begin_send, send, finish_send, allocate, Sending, idle, writing, failing, go, cancel, close,
  receive_one, err_shutdown,
}
use days_project.GeeRpc.Client.Completion.{
  failed-IsValid, removed-IsValid, cancel-IsValid, receive_one-IsValid, IsValid,
}

rejected-IsValid :
    {c : Client} (service_method args message : Text)
    → IsValid c
    → IsValid (fail_call (allocate c service_method args) c.fresh message)
unfolding fail_call allocate
rejected-IsValid {c} service_method args message v = record {
  owned = λ k q f. ground (arith, v.owned k q f);
  once = λ q. ground (arith, v.once q);
}

registered-IsValid :
    {c : Client} (service_method args : Text)
    → (c.closing || c.shutdown) ≡ false
    → IsValid c
    → IsValid (register_call (allocate c service_method args) c.fresh).0
unfolding register_call allocate
registered-IsValid {c} service_method args open_still v = record {
  owned = λ k q f.
      ground (arith, open_still, v.owned k q, lookup-insert ℕ_discrete k c.seq c.fresh c.pending);
  once = λ q. ground (arith, open_still, v.once q);
}

fail_write-IsValid :
    {c : Client} (p seq : ℕ) (message : Text) → IsValid c → IsValid (fail_write c p seq message)
unfolding fail_write
fail_write-IsValid {c} p seq message v = elim (Option-cases (lookup ℕ_discrete seq c.pending)) [
  | inl e ↦ rw (e, fail_write) (removed-IsValid seq v)
  | inr (q, e) ↦ rw (e, fail_write) (failed-IsValid seq q message v e)
]

write_request-IsValid : {c : Client} (p seq : ℕ) → IsValid c → IsValid (write_request c p seq)
unfolding write_request
write_request-IsValid p seq v = record { owned = v.owned; once = v.once }

begin_send-IsValid :
    {c : Client} (service_method args : Text)
    → IsValid c
    → IsValid (begin_send (allocate c service_method args) c.fresh).0
unfolding begin_send allocate
begin_send-IsValid {c} service_method args v = elim (Bool-cases (c.closing || c.shutdown)) [
  | inl stopped ↦
      let rejected : (begin_send (allocate c service_method args) c.fresh).0
          ≡ fail_call (allocate c service_method args) c.fresh err_shutdown =
        ground (arith, stopped) in
      subst IsValid (sym rejected) (rejected-IsValid service_method args err_shutdown v)
  | inr open_still ↦
      let registered : (begin_send (allocate c service_method args) c.fresh).0
          ≡ (register_call (allocate c service_method args) c.fresh).0 =
        ground (arith, open_still) in
      subst IsValid (sym registered) (registered-IsValid service_method args open_still v)
]

-- What a client, its users, the goroutine that holds `sending` and the connection do while `receive`
-- runs: everything may happen between the steps of a `send`.
pub data Reach : Client → Sending → Type 0 where
  start : (calls : ℕ → Call) → ((p : ℕ) → (calls p).done ≡ 0) → Reach (new_client calls) idle
  begin_step :
      {c : Client} (service_method args : Text)
      → Reach c idle
      → Reach
          (begin_send (allocate c service_method args) c.fresh).0
          (begin_send (allocate c service_method args) c.fresh).1
  write_step :
      {c : Client} (p seq : ℕ) → Reach c (writing p seq) → Reach (write_request c p seq) idle
  error_step :
      {c : Client} (p seq : ℕ) (message : Text)
      → Reach c (writing p seq)
      → Reach c (failing p seq message)
  remove_step :
      {c : Client} (p seq : ℕ) (message : Text)
      → Reach c (failing p seq message)
      → Reach (fail_write c p seq message) idle
  receive_step :
      {c : Client} {s : Sending} (seq : ℕ) (error : Text) (body : Result Text)
      → Reach c s
      → Reach (receive_one c seq error body).0 s
  cancel_step : {c : Client} {s : Sending} (p : ℕ) → Reach c s → Reach (cancel c p) s
  close_step : {c : Client} {s : Sending} → Reach c s → Reach (close c).0 s

pub new_client-IsValid :
    (calls : ℕ → Call) → ((p : ℕ) → (calls p).done ≡ 0) → IsValid (new_client calls)
unfolding new_client lookup
new_client-IsValid calls zeros = record {
  owned = λ k q f. absurd (cc);
  once = λ p. omega (arith, zeros p);
}

close-IsValid : {c : Client} → IsValid c → IsValid (close c).0
unfolding close
close-IsValid {c} v = record {
  owned = λ k q f. ground (arith, v.owned k q);
  once = λ p. ground (arith, v.once p);
}

-- Calls, responses (also to unknown or cancelled calls, and to a call whose `send` has not written
-- it, or has failed to), cancellations and `Close`, in any order and between the steps of a `send`,
-- while `receive` runs: a pending call is not completed yet, and no call is ever completed twice.
pub Reach-IsValid : {c : Client} {s : Sending} → Reach c s → IsValid c
Reach-IsValid (start calls zeros) = new_client-IsValid calls zeros
Reach-IsValid (begin_step service_method args r) =
    begin_send-IsValid service_method args (Reach-IsValid r)
Reach-IsValid (write_step p seq r) = write_request-IsValid p seq (Reach-IsValid r)
Reach-IsValid (error_step p seq message r) = Reach-IsValid r
Reach-IsValid (remove_step p seq message r) = fail_write-IsValid p seq message (Reach-IsValid r)
Reach-IsValid (receive_step seq error body r) = receive_one-IsValid seq error body (Reach-IsValid r)
Reach-IsValid (cancel_step p r) = cancel-IsValid p (Reach-IsValid r)
Reach-IsValid (close_step r) = close-IsValid (Reach-IsValid r)

finish_send-IsValid :
    {c : Client} (failure : Option Text) (s : Sending)
    → IsValid c
    → IsValid (finish_send failure c s)
unfolding finish_send write_call
finish_send-IsValid failure idle v = v
finish_send-IsValid none (writing p n) v = write_request-IsValid p n v
finish_send-IsValid (some message) (writing p n) v = fail_write-IsValid p n message v
finish_send-IsValid failure (failing p n message) v = fail_write-IsValid p n message v

-- `Go` without an interruption keeps what holds in all histories.
pub go-IsValid :
    {c : Client} (failure : Option Text) (service_method args : Text)
    → IsValid c
    → IsValid (go failure c service_method args).0
unfolding go send
go-IsValid {c} failure service_method args v =
    finish_send-IsValid failure (begin_send (allocate c service_method args) c.fresh).1
      (begin_send-IsValid service_method args v)

finish_send-Reach :
    {c : Client} (failure : Option Text) (s : Sending)
    → Reach c s
    → Reach (finish_send failure c s) idle
unfolding finish_send write_call
finish_send-Reach failure idle r = r
finish_send-Reach none (writing p n) r = write_step p n r
finish_send-Reach (some message) (writing p n) r =
    remove_step p n message (error_step p n message r)
finish_send-Reach failure (failing p n message) r = remove_step p n message r

-- `Go` without an interruption is such a history.
pub go-Reach :
    {c : Client} (failure : Option Text) (service_method args : Text)
    → Reach c idle
    → Reach (go failure c service_method args).0 idle
unfolding go send
go-Reach {c} failure service_method args r =
    finish_send-Reach failure (begin_send (allocate c service_method args) c.fresh).1
      (begin_step service_method args r)
