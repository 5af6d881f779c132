-- ===== src/GeeRpc/Client/Termination.antt =====
-- The end of `receive`: no call is left waiting.
use days_project.Common.{
  ℕ, suc, ◌≡◌, refl, sym, ap, ◌∙◌, subst, ◌≢◌, inl, inr, [], ◌∷◌, Option, none, some, true, false,
  Text, Result, ok, err, GoMap, lookup, insert, delete, KeysDistinct, insert-KeysDistinct,
  delete-KeysDistinct, ℕ_discrete, arith, Bool-cases, ◌||◌,
}
use days_project.GeeRpc.Client.{
  Call, Client, new_client, remove_call, fail_call, go, allocate, begin_send, write_request,
  fail_write, Sending, idle, cancel, close, receive_one, err_shutdown, is_available, fail_all,
  terminate_calls,
}
use days_project.GeeRpc.Client.Histories.{
  Reach, start, begin_step, write_step, error_step, remove_step, receive_step, cancel_step,
  close_step, Reach-IsValid,
}

pub receive_one-pending :
    (c : Client) (seq : ℕ) (error : Text) (body : Result Text)
    → (receive_one c seq error body).0.pending ≡ delete ℕ_discrete seq c.pending
unfolding receive_one
receive_one-pending c seq error (ok v) = ground arith
receive_one-pending c seq error (err e) = ground arith

begin_send-KeysDistinct :
    (c : Client) (service_method args : Text)
    → KeysDistinct ℕ_discrete c.pending
    → KeysDistinct ℕ_discrete (begin_send (allocate c service_method args) c.fresh).0.pending
unfolding begin_send allocate
begin_send-KeysDistinct c service_method args h = elim (Bool-cases (c.closing || c.shutdown)) [
  | inl stopped ↦
      let same : (begin_send (allocate c service_method args) c.fresh).0.pending ≡ c.pending =
        ground (arith, stopped) in
      subst (KeysDistinct ℕ_discrete) (sym same) h
  | inr open_still ↦
      let same : (begin_send (allocate c service_method args) c.fresh).0.pending
          ≡ insert ℕ_discrete c.seq c.fresh c.pending =
        ground (arith, open_still) in
      subst (KeysDistinct ℕ_discrete) (sym same)
        (insert-KeysDistinct ℕ_discrete c.seq c.fresh c.pending h)
]

fail_write-pending :
    (c : Client) (p seq : ℕ) (message : Text)
    → (fail_write c p seq message).pending ≡ delete ℕ_discrete seq c.pending
unfolding fail_write
fail_write-pending c p seq message = ground arith

Reach-KeysDistinct : {c : Client} {s : Sending} → Reach c s → KeysDistinct ℕ_discrete c.pending
unfolding new_client cancel remove_call close write_request
Reach-KeysDistinct (start calls zeros) = tt
Reach-KeysDistinct (begin_step {c} service_method args r) =
    begin_send-KeysDistinct c service_method args (Reach-KeysDistinct r)
Reach-KeysDistinct (write_step p seq r) = Reach-KeysDistinct r
Reach-KeysDistinct (error_step p seq message r) = Reach-KeysDistinct r
Reach-KeysDistinct (remove_step {c} p seq message r) =
    subst (KeysDistinct ℕ_discrete) (sym (fail_write-pending c p seq message))
      (delete-KeysDistinct ℕ_discrete seq c.pending (Reach-KeysDistinct r))
Reach-KeysDistinct (receive_step {c} seq error body r) =
    subst (KeysDistinct ℕ_discrete) (sym (receive_one-pending c seq error body))
      (delete-KeysDistinct ℕ_discrete seq c.pending (Reach-KeysDistinct r))
Reach-KeysDistinct (cancel_step {c} p r) =
    delete-KeysDistinct ℕ_discrete (c.calls p).seq c.pending (Reach-KeysDistinct r)
Reach-KeysDistinct (close_step {c} r) = elim (Bool-cases c.closing) [
  | inl e ↦ rw e (Reach-KeysDistinct r)
  | inr e ↦ rw e (Reach-KeysDistinct r)
]

-- The calls that are pending under the keys of `es` have these numbers and are not completed.
abbrev Owned : GoMap ℕ ℕ → Client → Type 0
Owned es c =
    (k p : ℕ) → lookup ℕ_discrete k es ≡ some p → ((c.calls p).seq ≡ k) × ((c.calls p).done ≡ 0)

fail_all-other :
    (es : GoMap ℕ ℕ) (message : Text) (c : Client) (q : ℕ)
    → KeysDistinct ℕ_discrete es
    → ((k : ℕ) → lookup ℕ_discrete k es ≢ some q)
    → (fail_all es message c).calls q ≡ c.calls q
unfolding fail_all lookup fail_call
fail_all-other [] message c q d h = refl
fail_all-other (e ∷ rest) message c q d h =
    let apart : e.1 ≢ q = λ f. h e.0 (ground (arith, f)) in
    fail_all-other rest message (fail_call c e.1 message) q d.1
      (λ k f. h k (ground (arith, f, d.0)))
    ∙ ground (arith, apart)

head_own :
    (e : ℕ × ℕ) (rest : GoMap ℕ ℕ) (c : Client)
    → Owned (e ∷ rest) c
    → ((c.calls e.1).seq ≡ e.0) × ((c.calls e.1).done ≡ 0)
unfolding lookup
head_own e rest c own = own e.0 e.1 (ground arith)

tail_own :
    (e : ℕ × ℕ) (rest : GoMap ℕ ℕ) (c : Client)
    → lookup ℕ_discrete e.0 rest ≡ none
    → Owned (e ∷ rest) c
    → Owned rest c
unfolding lookup
tail_own e rest c absent own k p f = own k p (ground (arith, f, absent))

-- The first call is under no other key.
head_apart :
    (e : ℕ × ℕ) (rest : GoMap ℕ ℕ) (c : Client)
    → lookup ℕ_discrete e.0 rest ≡ none
    → Owned (e ∷ rest) c
    → (k : ℕ) → lookup ℕ_discrete k rest ≢ some e.1
head_apart e rest c absent own k f =
    let numbered = (tail_own e rest c absent own k e.1 f).0 in
    cc (absent, f, ap (λ t. lookup ℕ_discrete t rest) (sym numbered ∙ (head_own e rest c own).0))

failed_own :
    (e : ℕ × ℕ) (rest : GoMap ℕ ℕ) (message : Text) (c : Client)
    → lookup ℕ_discrete e.0 rest ≡ none
    → Owned (e ∷ rest) c
    → Owned rest (fail_call c e.1 message)
unfolding fail_call
failed_own e rest message c absent own k p f =
    let (numbered, waiting) = tail_own e rest c absent own k p f in
    let apart : e.1 ≢ p = λ same. head_apart e rest c absent own k (f ∙ ap some (sym same)) in
    (ground (arith, apart, numbered), ground (arith, apart, waiting))

fail_call_self :
    (c : Client) (p : ℕ) (message : Text)
    → (((fail_call c p message).calls p).done ≡ suc (c.calls p).done)
      × (((fail_call c p message).calls p).error ≡ some message)
unfolding fail_call
fail_call_self c p message = (ground arith, ground arith)

fail_all-own :
    (es : GoMap ℕ ℕ) (message : Text) (c : Client) (k p : ℕ)
    → KeysDistinct ℕ_discrete es
    → Owned es c
    → lookup ℕ_discrete k es ≡ some p
    → (((fail_all es message c).calls p).done ≡ 1)
      × (((fail_all es message c).calls p).error ≡ some message)
unfolding fail_all lookup
fail_all-own [] message c k p d own f = absurd (cc)
fail_all-own (e ∷ rest) message c k p d own f = elim (ℕ_discrete k e.0) [
  | yes same ↦
      let here : e.1 ≡ p = ground (arith, f, same) in
      let alone =
        fail_all-other rest message (fail_call c e.1 message) e.1 d.1
          (head_apart e rest c d.0 own) in
      let (once, told) = fail_call_self c e.1 message in
      let waiting = (head_own e rest c own).1 in
      subst
        (λ q.
          (((fail_all rest message (fail_call c e.1 message)).calls q).done ≡ 1)
          × (((fail_all rest message (fail_call c e.1 message)).calls q).error ≡ some message))
        here
        (
          ap (λ (t : Call). t.done) alone ∙ once ∙ ap suc waiting,
          ap (λ (t : Call). t.error) alone ∙ told,
        )
  | no other ↦
      fail_all-own rest message (fail_call c e.1 message) k p d.1
        (failed_own e rest message c d.0 own) (ground (arith, f, other))
]

fail_all-shutdown :
    (es : GoMap ℕ ℕ) (message : Text) (c : Client)
    → ((fail_all es message c).shutdown ≡ c.shutdown) × ((fail_all es message c).fresh ≡ c.fresh)
unfolding fail_all fail_call
fail_all-shutdown [] message c = (refl, refl)
fail_all-shutdown (e ∷ rest) message c =
    let (a, b) = fail_all-shutdown rest message (fail_call c e.1 message) in (a, b)

-- When `receive` ends, in any state that calls, responses, cancellations and `Close` lead to, every
-- pending call is completed exactly once and with the error (no `send` runs then, since
-- `terminateCalls` takes `sending`); all other calls stay as they are. The
-- client cannot be used any more: each later call is completed at once, with the error of a shutdown.
pub terminate_completes :
    (c : Client) (message : Text)
    → Reach c idle
    → ((k p : ℕ)
        → lookup ℕ_discrete k c.pending ≡ some p
        → (((terminate_calls c message).calls p).done ≡ 1)
          × (((terminate_calls c message).calls p).error ≡ some message))
      × ((q : ℕ)
          → ((k : ℕ) → lookup ℕ_discrete k c.pending ≢ some q)
          → (terminate_calls c message).calls q ≡ c.calls q)
      × (is_available (terminate_calls c message) ≡ false)
      × ((failure : Option Text) (service_method args : Text)
          → let (d, q) = go failure (terminate_calls c message) service_method args in
            ((d.calls q).done ≡ 1) × ((d.calls q).error ≡ some err_shutdown))
unfolding terminate_calls is_available go
terminate_completes c message reach =
    let v = Reach-IsValid reach in
    let d = Reach-KeysDistinct reach in
    let stopped = (fail_all-shutdown c.pending message (record c { shutdown = true })).0 in
    (
      λ k p e.
          fail_all-own c.pending message (record c { shutdown = true }) k p d
            (λ j q f. ((v.owned j q f).1, (v.owned j q f).2)) e,
      λ q h. fail_all-other c.pending message (record c { shutdown = true }) q d h,
      ground (arith, stopped),
      λ failure service_method args. (ground (arith, stopped), ground (arith, stopped)),
    )
