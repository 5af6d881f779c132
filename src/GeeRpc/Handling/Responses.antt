-- ===== src/GeeRpc/Handling/Responses.antt =====
-- A request is answered once, by its method or by the timeout.
use days_project.Common.{ℕ, ◌≡◌, refl, ap, ◌∙◌, ◌≢◌, ◌⊎◌, inl, inr, [], ◌∷◌, ◌++◌, Text, Result, ok}
use days_project.GeeRpc.Server.{Header}
use days_project.GeeRpc.Handling.{
  Worker, calling, finished, returned, answering, answered, Waiter, selecting, awaiting_sent,
  timed_out, done, Handling, begin, response_of, timeout_response, Step, return_step, called_step,
  answer_step, sent_step, timeout_step, refuse_step, Steps, start, next,
}

-- The goroutine is still before its send on `called`.
abbrev pub IsBefore : Worker → Type 0
IsBefore w = (w ≡ calling) ⊎ ((r : Result Text) × (w ≡ returned r))

-- Where the goroutine and the wait for it stand together, and the responses by then.
pub data Phase (h : Header) (timeout : ℕ) (s : Handling) : Type 0 where
  undecided : s.waiter ≡ selecting → IsBefore s.worker → s.responses ≡ [] → Phase h timeout s
  in_answer :
      (r : Result Text)
      → s.waiter ≡ awaiting_sent
      → s.worker ≡ answering r
      → s.responses ≡ []
      → Phase h timeout s
  after_answer :
      (r : Result Text)
      → s.waiter ≡ awaiting_sent
      → s.worker ≡ answered r
      → s.responses ≡ response_of h r ∷ []
      → Phase h timeout s
  complete :
      (r : Result Text)
      → s.waiter ≡ done
      → s.worker ≡ finished
      → s.responses ≡ response_of h r ∷ []
      → Phase h timeout s
  expired :
      s.waiter ≡ timed_out → IsBefore s.worker → s.responses ≡ [] → timeout ≢ 0 → Phase h timeout s
  refused :
      s.waiter ≡ done
      → IsBefore s.worker
      → s.responses ≡ timeout_response h ∷ []
      → timeout ≢ 0
      → Phase h timeout s

-- The header and the timeout stay, and the phase is one of the above.
pub record IsValid (h : Header) (timeout : ℕ) (s : Handling) : Type 0 where
  pub head : s.head ≡ h
  pub limit : s.timeout ≡ timeout
  pub phase : Phase h timeout s

not_before :
    (w : Worker) → IsBefore w → (r : Result Text) → w ≢ answering r × w ≢ answered r × w ≢ finished
not_before w (inl e) r = (λ f. cc, λ f. cc, λ f. cc)
not_before w (inr (q, e)) r = (λ f. cc, λ f. cc, λ f. cc)

module _ (h : Header) (timeout : ℕ) where
  return-Phase :
      (s : Handling) (r : Result Text)
      → s.worker ≡ calling
      → Phase h timeout s
      → Phase h timeout (record s { worker = returned r })
  return-Phase s r e (undecided a b c) = undecided a (inr (r, refl)) c
  return-Phase s r e (in_answer q a b c) = absurd (cc)
  return-Phase s r e (after_answer q a b c) = absurd (cc)
  return-Phase s r e (complete q a b c) = absurd (cc)
  return-Phase s r e (expired a b c n) = expired a (inr (r, refl)) c n
  return-Phase s r e (refused a b c n) = refused a (inr (r, refl)) c n

  called-Phase :
      (s : Handling) (r : Result Text)
      → s.worker ≡ returned r
      → s.waiter ≡ selecting
      → Phase h timeout s
      → Phase h timeout (record s { worker = answering r; waiter = awaiting_sent })
  called-Phase s r e f (undecided a b c) = in_answer r refl refl c
  called-Phase s r e f (in_answer q a b c) = absurd (cc)
  called-Phase s r e f (after_answer q a b c) = absurd (cc)
  called-Phase s r e f (complete q a b c) = absurd (cc)
  called-Phase s r e f (expired a b c n) = absurd (cc)
  called-Phase s r e f (refused a b c n) = absurd (cc)

  answer-Phase :
      (s : Handling) (r : Result Text)
      → s.head ≡ h
      → s.worker ≡ answering r
      → Phase h timeout s
      → Phase h timeout
          (record s { worker = answered r; responses = s.responses ++ response_of s.head r ∷ [] })
  answer-Phase s r g e (undecided a b c) = absurd ((not_before s.worker b r).0 e)
  answer-Phase s r g e (in_answer q a b c) =
      after_answer r a refl
        (ap (λ l. l ++ response_of s.head r ∷ []) c ∙ ap (λ t. response_of t r ∷ []) g)
  answer-Phase s r g e (after_answer q a b c) = absurd (cc)
  answer-Phase s r g e (complete q a b c) = absurd (cc)
  answer-Phase s r g e (expired a b c n) = absurd ((not_before s.worker b r).0 e)
  answer-Phase s r g e (refused a b c n) = absurd ((not_before s.worker b r).0 e)

  sent-Phase :
      (s : Handling) (r : Result Text)
      → s.worker ≡ answered r
      → s.waiter ≡ awaiting_sent
      → Phase h timeout s
      → Phase h timeout (record s { worker = finished; waiter = done })
  sent-Phase s r e f (undecided a b c) = absurd (cc)
  sent-Phase s r e f (in_answer q a b c) = absurd (cc)
  sent-Phase s r e f (after_answer q a b c) = complete q refl refl c
  sent-Phase s r e f (complete q a b c) = absurd (cc)
  sent-Phase s r e f (expired a b c n) = absurd (cc)
  sent-Phase s r e f (refused a b c n) = absurd (cc)

  timeout-Phase :
      (s : Handling)
      → timeout ≢ 0
      → s.waiter ≡ selecting
      → Phase h timeout s
      → Phase h timeout (record s { waiter = timed_out })
  timeout-Phase s n f (undecided a b c) = expired refl b c n
  timeout-Phase s n f (in_answer q a b c) = absurd (cc)
  timeout-Phase s n f (after_answer q a b c) = absurd (cc)
  timeout-Phase s n f (complete q a b c) = absurd (cc)
  timeout-Phase s n f (expired a b c m) = absurd (cc)
  timeout-Phase s n f (refused a b c m) = absurd (cc)

  refuse-Phase :
      (s : Handling)
      → s.head ≡ h
      → s.waiter ≡ timed_out
      → Phase h timeout s
      → Phase h timeout
          (record s { waiter = done; responses = s.responses ++ timeout_response s.head ∷ [] })
  refuse-Phase s g f (undecided a b c) = absurd (cc)
  refuse-Phase s g f (in_answer q a b c) = absurd (cc)
  refuse-Phase s g f (after_answer q a b c) = absurd (cc)
  refuse-Phase s g f (complete q a b c) = absurd (cc)
  refuse-Phase s g f (expired a b c n) =
      refused refl b
        (ap (λ l. l ++ timeout_response s.head ∷ []) c ∙ ap (λ t. timeout_response t ∷ []) g) n
  refuse-Phase s g f (refused a b c n) = absurd (cc)

  pub Step-IsValid : {s t : Handling} → Step s t → IsValid h timeout s → IsValid h timeout t
  Step-IsValid (return_step s r e) v = record {
    head = v.head;
    limit = v.limit;
    phase = return-Phase s r e v.phase;
  }
  Step-IsValid (called_step s r e f) v = record {
    head = v.head;
    limit = v.limit;
    phase = called-Phase s r e f v.phase;
  }
  Step-IsValid (answer_step s r e) v = record {
    head = v.head;
    limit = v.limit;
    phase = answer-Phase s r v.head e v.phase;
  }
  Step-IsValid (sent_step s r e f) v = record {
    head = v.head;
    limit = v.limit;
    phase = sent-Phase s r e f v.phase;
  }
  Step-IsValid (timeout_step s n f) v = record {
    head = v.head;
    limit = v.limit;
    phase = timeout-Phase s (λ e. n (v.limit ∙ e)) f v.phase;
  }
  Step-IsValid (refuse_step s f) v = record {
    head = v.head;
    limit = v.limit;
    phase = refuse-Phase s v.head f v.phase;
  }

  Steps-IsValid : {s : Handling} → Steps (begin h timeout) s → IsValid h timeout s
  unfolding begin
  Steps-IsValid start = record { head = refl; limit = refl; phase = undecided refl (inl refl) refl }
  Steps-IsValid (next r st) = Step-IsValid st (Steps-IsValid r)

  -- However the method and the timeout interleave, a request whose handling has ended was answered
  -- exactly once: with the method's result, and then the goroutine has ended too; or with the
  -- timeout's error, if there is a timeout.
  pub one_response :
      {s : Handling}
      → Steps (begin h timeout) s
      → s.waiter ≡ done
      → ((r : Result Text) × (s.worker ≡ finished) × (s.responses ≡ response_of h r ∷ []))
        ⊎ ((timeout ≢ 0) × (s.responses ≡ timeout_response h ∷ []))
  one_response {s} reach e = elim (Steps-IsValid reach).phase [
    | undecided a b c ↦ absurd (cc)
    | in_answer r a b c ↦ absurd (cc)
    | after_answer r a b c ↦ absurd (cc)
    | complete r a b c ↦ inl (r, b, c)
    | expired a b c n ↦ absurd (cc)
    | refused a b c n ↦ inr (n, c)
  ]

-- The timeout was taken, and the goroutine is before its send on `called`.
abbrev pub IsLate : Handling → Type 0
IsLate s = ((s.waiter ≡ timed_out) ⊎ (s.waiter ≡ done)) × IsBefore s.worker

not_selecting : (w : Waiter) → (w ≡ timed_out) ⊎ (w ≡ done) → w ≢ selecting × w ≢ awaiting_sent
not_selecting w (inl e) = (λ f. cc, λ f. cc)
not_selecting w (inr e) = (λ f. cc, λ f. cc)

Step-IsLate : {s t : Handling} → Step s t → IsLate s → IsLate t
Step-IsLate (return_step s r e) l = (l.0, inr (r, refl))
Step-IsLate (called_step s r e f) l = absurd ((not_selecting s.waiter l.0).0 f)
Step-IsLate (answer_step s r e) l = absurd ((not_before s.worker l.1 r).0 e)
Step-IsLate (sent_step s r e f) l = absurd ((not_selecting s.waiter l.0).1 f)
Step-IsLate (timeout_step s n f) l = (inl refl, l.1)
Step-IsLate (refuse_step s f) l = (inr refl, l.1)

Steps-IsLate : {s t : Handling} → Steps s t → IsLate s → IsLate t
Steps-IsLate start l = l
Steps-IsLate (next r st) l = Step-IsLate st (Steps-IsLate r l)

-- Once the timeout was taken, the goroutine never ends, whatever steps follow: its send on `called`
-- has no receiver.
pub timeout_leaks :
    (h : Header) (timeout : ℕ) {s t : Handling}
    → Steps (begin h timeout) s
    → s.waiter ≡ timed_out
    → Steps s t
    → t.worker ≢ finished
timeout_leaks h timeout {s} {t} reach late more e =
    let before : IsBefore s.worker = elim (Steps-IsValid h timeout reach).phase [
      | undecided a b c ↦ b
      | in_answer r a b c ↦ absurd (cc)
      | after_answer r a b c ↦ absurd (cc)
      | complete r a b c ↦ absurd (cc)
      | expired a b c n ↦ b
      | refused a b c n ↦ b
    ] in
    (not_before t.worker (Steps-IsLate more (inl late, before)).1 (ok [])).2 e
