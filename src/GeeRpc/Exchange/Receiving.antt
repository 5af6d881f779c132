-- ===== src/GeeRpc/Exchange/Receiving.antt =====
-- The calls that responses complete, in whatever order they arrive.
use days_project.Common.{
  ℕ, ◌≡◌, refl, sym, ap, subst, ◌∙◌, ◌≢◌, ◌⊎◌, inl, inr, List, [], ◌∷◌, some, true, Text, All, In,
  map, lookup, delete, lookup-delete, ℕ_discrete, arith, Option-cases,
}
use days_project.GeeRpc.Client.{Call, Client, Incoming, receive, receive_one}
use days_project.GeeRpc.Client.Completion.{IsValid, receive_one-IsValid, receive_one_completes}
use days_project.GeeRpc.Client.Termination.{receive_one-pending}
use days_project.GeeRpc.Server.{Response}
use days_project.GeeRpc.Exchange.{body_of, incoming_of}

-- The response has a body, and an error or a reply.
abbrev pub IsClear : Response → Type 0
IsClear r =
    (r.body_sent ≡ true)
    × ((r.head.error ≢ []) ⊎ ((v : Text) × (r.head.error ≡ []) × (r.reply ≡ some v)))

-- The call is completed, once, by the response.
abbrev pub Completed : Client → ℕ → Response → Type 0
Completed d p r =
    ((d.calls p).done ≡ 1)
    × (r.head.error ≡ [] → (d.calls p).reply ≡ r.reply)
    × (r.head.error ≢ [] → (d.calls p).error ≡ some r.head.error)

-- No two responses are to one request.
abbrev pub SeqsDistinct : List Response → Type 0
SeqsDistinct [] = Unit
SeqsDistinct (r ∷ rs) = All (λ (q : Response). q.head.seq ≢ r.head.seq) rs × SeqsDistinct rs

abbrev taken : Client → Response → Client
taken c r = (receive_one c r.head.seq r.head.error (body_of r)).0

-- A clear response does not end the loop.
receive-clear :
    (c : Client) (r : Response) (rest : List Incoming)
    → IsClear r
    → receive (incoming_of r ∷ rest) c ≡ receive rest (taken c r)
unfolding receive incoming_of body_of receive_one
receive-clear c r rest (whole, inl n) = ground (arith, whole, n)
receive-clear c r rest (whole, inr (v, e, f)) = ground (arith, whole, e, f)

taken-Completed :
    (c : Client) (r : Response) (p : ℕ)
    → IsValid c
    → IsClear r
    → lookup ℕ_discrete r.head.seq c.pending ≡ some p
    → Completed (taken c r) p r
unfolding receive_one body_of
taken-Completed c r p v (whole, inl n) e =
    let (done, gone, same) = receive_one_completes c r.head.seq p r.head.error (body_of r) v e in
    (done, λ q. absurd (n q), λ q. ground (arith, whole, n, e))
taken-Completed c r p v (whole, inr (x, e', f)) e =
    let (done, gone, same) = receive_one_completes c r.head.seq p r.head.error (body_of r) v e in
    (done, λ q. ground (arith, whole, e', f, e), λ q. absurd (q e'))

taken-pending :
    (c : Client) (r : Response) → (taken c r).pending ≡ delete ℕ_discrete r.head.seq c.pending
taken-pending c r = receive_one-pending c r.head.seq r.head.error (body_of r)

taken_other :
    (c : Client) (r : Response) (p : ℕ)
    → IsValid c
    → lookup ℕ_discrete r.head.seq c.pending ≢ some p
    → (taken c r).calls p ≡ c.calls p
unfolding receive_one
taken_other c r p v n = elim (Option-cases (lookup ℕ_discrete r.head.seq c.pending)) [
  | inl e ↦ rw (e, receive_one, taken) refl
  | inr (q, e) ↦
      let (done, gone, same) = receive_one_completes c r.head.seq q r.head.error (body_of r) v e in
      same p (λ s. n (e ∙ ap some s))
]

-- What is still pending, and what stays pending.
taken-lookup :
    (c : Client) (r : Response) (k p : ℕ)
    → lookup ℕ_discrete k (taken c r).pending ≡ some p
    → (k ≢ r.head.seq) × (lookup ℕ_discrete k c.pending ≡ some p)
taken-lookup c r k p e =
    let left : lookup ℕ_discrete k (delete ℕ_discrete r.head.seq c.pending) ≡ some p =
      ap (lookup ℕ_discrete k) (sym (taken-pending c r)) ∙ e in
    let known = lookup-delete ℕ_discrete k r.head.seq c.pending in
    (ground (arith, left, known), ground (arith, left, known))

lookup-taken :
    (c : Client) (r : Response) (k p : ℕ)
    → k ≢ r.head.seq
    → lookup ℕ_discrete k c.pending ≡ some p
    → lookup ℕ_discrete k (taken c r).pending ≡ some p
lookup-taken c r k p n e =
    ap (lookup ℕ_discrete k) (taken-pending c r)
    ∙ ground (arith, lookup-delete ℕ_discrete k r.head.seq c.pending, n, e)

-- A call that none of the responses is to stays as it is.
receive_others :
    (rs : List Response) (c : Client) (p : ℕ)
    → IsValid c
    → All IsClear rs
    → ((r : Response) → In r rs → lookup ℕ_discrete r.head.seq c.pending ≢ some p)
    → (receive (map incoming_of rs) c).calls p ≡ c.calls p
unfolding receive
receive_others [] c p v clear out = refl
receive_others (r ∷ rs) c p v clear out =
    let later : (q : Response)
        → In q rs
        → lookup ℕ_discrete q.head.seq (taken c r).pending ≢ some p =
      λ q i e. out q (inr i) (taken-lookup c r q.head.seq p e).1 in
    ap (λ (d : Client). d.calls p) (receive-clear c r (map incoming_of rs) clear.0)
    ∙ receive_others rs (taken c r) p (receive_one-IsValid r.head.seq r.head.error (body_of r) v)
        clear.1 later
    ∙ taken_other c r p v (out r (inl refl))

different :
    (rs : List Response) (q r : Response)
    → All (λ (x : Response). x.head.seq ≢ r.head.seq) rs
    → In q rs
    → q.head.seq ≢ r.head.seq
different [] q r h i = absurd i
different (x ∷ rs) q r h (inl e) = subst (λ (y : Response). y.head.seq ≢ r.head.seq) e h.0
different (x ∷ rs) q r h (inr i) = different rs q r h.1 i

carry :
    (c d : Client) (p : ℕ) (r : Response)
    → d.calls p ≡ c.calls p
    → Completed c p r
    → Completed d p r
carry c d p r e h =
    subst
      (λ (x : Call).
        (x.done ≡ 1)
        × (r.head.error ≡ [] → x.reply ≡ r.reply)
        × (r.head.error ≢ [] → x.error ≡ some r.head.error))
      (sym e) h

-- Responses to different requests, each with an error or a reply, in any order: each completes the
-- call that is pending under its number, once, with its own error or reply, and no other call
-- changes.
pub receive-Completed :
    (rs : List Response) (c : Client)
    → IsValid c
    → SeqsDistinct rs
    → All IsClear rs
    → ((r : Response) (p : ℕ)
        → In r rs
        → lookup ℕ_discrete r.head.seq c.pending ≡ some p
        → Completed (receive (map incoming_of rs) c) p r)
      × ((p : ℕ)
          → ((r : Response) → In r rs → lookup ℕ_discrete r.head.seq c.pending ≢ some p)
          → (receive (map incoming_of rs) c).calls p ≡ c.calls p)
receive-Completed [] c v d clear = (λ r p i. absurd i, λ p out. receive_others [] c p v clear out)
receive-Completed (r ∷ rs) c v d clear =
    let valid = receive_one-IsValid r.head.seq r.head.error (body_of r) v in
    let (each, others) = receive-Completed rs (taken c r) valid d.1 clear.1 in
    let same = receive-clear c r (map incoming_of rs) clear.0 in
    (
      λ q p. elim [
        | inl e ↦ λ f.
            let known : lookup ℕ_discrete r.head.seq c.pending ≡ some p =
              subst (λ (x : Response). lookup ℕ_discrete x.head.seq c.pending ≡ some p) (sym e) f in
            let untouched : (x : Response)
                → In x rs
                → lookup ℕ_discrete x.head.seq (taken c r).pending ≢ some p =
              λ x i g.
                let (apart, was) = taken-lookup c r x.head.seq p g in
                apart (sym (v.owned x.head.seq p was).1 ∙ (v.owned r.head.seq p known).1) in
            subst (Completed (receive (map incoming_of (r ∷ rs)) c) p) e (
              carry (taken c r) (receive (map incoming_of (r ∷ rs)) c) p r
                (ap (λ (d : Client). d.calls p) same ∙ others p untouched)
                (taken-Completed c r p v clear.0 known))
        | inr i ↦ λ f.
            let known = lookup-taken c r q.head.seq p (different rs q r d.0 i) f in
            carry (receive (map incoming_of rs) (taken c r)) (receive (map incoming_of (r ∷ rs)) c)
              p q (ap (λ (x : Client). x.calls p) same) (each q p i known)
      ],
      λ p out. receive_others (r ∷ rs) c p v clear out,
    )
