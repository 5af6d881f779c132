-- ===== src/GeeRpc/Client/Completion.antt =====
-- Which call a response completes, once.
use days_project.Common.{
  ℕ, ◌≤◌, ◌<◌, ◌≡◌, sym, ap, subst, ◌≢◌, inl, inr, [], Option, none, some, Text, Result, ok, err,
  lookup, lookup-delete, ℕ_discrete, arith, Option-cases, text_dec, codes, ◌++◌,
}
use days_project.GeeRpc.Client.{
  Client, remove_call, fail_call, finish_call, cancel, receive_one, body_error,
}

-- While `receive` runs: a pending call is allocated, has its sequence number and is not completed;
-- no call is completed twice.
pub record IsValid (c : Client) : Type 0 where
  pub owned :
      (seq p : ℕ)
      → lookup ℕ_discrete seq c.pending ≡ some p
      → (p < c.fresh) × ((c.calls p).seq ≡ seq) × ((c.calls p).done ≡ 0)
  pub once : (p : ℕ) → (c.calls p).done ≤ 1

pub cancel-IsValid : {c : Client} (p : ℕ) → IsValid c → IsValid (cancel c p)
unfolding cancel
cancel-IsValid {c} p v = record {
  owned = λ seq q e.
      ground (arith, v.owned seq q, lookup-delete ℕ_discrete seq (c.calls p).seq c.pending);
  once = v.once;
}

-- A pending call is taken out and completed, by an error or a reply.
pub failed-IsValid :
    {c : Client} (seq p : ℕ) (message : Text)
    → IsValid c
    → lookup ℕ_discrete seq c.pending ≡ some p
    → IsValid (fail_call (remove_call c seq).0 p message)
unfolding fail_call remove_call
failed-IsValid {c} seq p message v e = record {
  owned = λ k q f.
      ground (arith, v.owned k q, v.owned seq p e, lookup-delete ℕ_discrete k seq c.pending);
  once = λ q. ground (arith, v.once q, v.owned seq p e);
}

finished-IsValid :
    {c : Client} (seq p : ℕ) (value : Text)
    → IsValid c
    → lookup ℕ_discrete seq c.pending ≡ some p
    → IsValid (finish_call (remove_call c seq).0 p value)
unfolding finish_call remove_call
finished-IsValid {c} seq p value v e = record {
  owned = λ k q f.
      ground (arith, v.owned k q, v.owned seq p e, lookup-delete ℕ_discrete k seq c.pending);
  once = λ q. ground (arith, v.once q, v.owned seq p e);
}

pub removed-IsValid : {c : Client} (seq : ℕ) → IsValid c → IsValid (remove_call c seq).0
unfolding remove_call
removed-IsValid {c} seq v = record {
  owned = λ k q f. ground (arith, v.owned k q, lookup-delete ℕ_discrete k seq c.pending);
  once = v.once;
}

received_ok :
    (c : Client) (seq p : ℕ) (error value : Text)
    → lookup ℕ_discrete seq c.pending ≡ some p
    → error ≡ []
    → receive_one c seq error (ok value) ≡ (finish_call (remove_call c seq).0 p value, none)
unfolding receive_one
received_ok c seq p error value e q = ground (arith, e, q)

received_bad :
    (c : Client) (seq p : ℕ) (error message : Text)
    → lookup ℕ_discrete seq c.pending ≡ some p
    → error ≡ []
    → receive_one c seq error (err message)
      ≡ (fail_call (remove_call c seq).0 p (codes "reading body " ++ message), some message)
unfolding receive_one
received_bad c seq p error message e q = ground (arith, e, q)

received_error :
    (c : Client) (seq p : ℕ) (error : Text) (body : Result Text)
    → lookup ℕ_discrete seq c.pending ≡ some p
    → error ≢ []
    → receive_one c seq error body ≡ (fail_call (remove_call c seq).0 p error, body_error body)
unfolding receive_one
received_error c seq p error body e n = ground (arith, e, n)

pub receive_one-IsValid :
    {c : Client} (seq : ℕ) (error : Text) (body : Result Text)
    → IsValid c
    → IsValid (receive_one c seq error body).0
unfolding receive_one
receive_one-IsValid {c} seq error (ok value) v =
    elim (Option-cases (lookup ℕ_discrete seq c.pending)) [
      | inl e ↦ rw (e, receive_one) (removed-IsValid seq v)
      | inr (p, e) ↦ elim (text_dec error []) [
        | yes q ↦
            subst IsValid
              (sym (ap (λ (t : Client × Option Text). t.0) (received_ok c seq p error value e q)))
              (finished-IsValid seq p value v e)
        | no n ↦
            subst IsValid
              (sym (
                ap (λ (t : Client × Option Text). t.0)
                  (received_error c seq p error (ok value) e n)))
              (failed-IsValid seq p error v e)
      ]
    ]
receive_one-IsValid {c} seq error (err message) v =
    elim (Option-cases (lookup ℕ_discrete seq c.pending)) [
      | inl e ↦ rw (e, receive_one) (removed-IsValid seq v)
      | inr (p, e) ↦ elim (text_dec error []) [
        | yes q ↦
            subst IsValid
              (sym
                (ap (λ (t : Client × Option Text). t.0) (received_bad c seq p error message e q)))
              (failed-IsValid seq p (codes "reading body " ++ message) v e)
        | no n ↦
            subst IsValid
              (sym (
                ap (λ (t : Client × Option Text). t.0)
                  (received_error c seq p error (err message) e n)))
              (failed-IsValid seq p error v e)
      ]
    ]

-- A response to a pending call completes it and takes it out of the pending calls; no other call
-- changes.
pub receive_one_completes :
    (c : Client) (seq p : ℕ) (error : Text) (body : Result Text)
    → IsValid c
    → lookup ℕ_discrete seq c.pending ≡ some p
    → (((receive_one c seq error body).0.calls p).done ≡ 1)
      × (lookup ℕ_discrete seq (receive_one c seq error body).0.pending ≡ none)
      × ((q : ℕ) → p ≢ q → (receive_one c seq error body).0.calls q ≡ c.calls q)
unfolding receive_one
receive_one_completes c seq p error (ok value) v e = (
  ground (arith, v.owned seq p e),
  ground (arith, e, lookup-delete ℕ_discrete seq seq c.pending),
  λ q n. ground (arith, e),
)
receive_one_completes c seq p error (err message) v e = (
  ground (arith, v.owned seq p e),
  ground (arith, e, lookup-delete ℕ_discrete seq seq c.pending),
  λ q n. ground (arith, e),
)
