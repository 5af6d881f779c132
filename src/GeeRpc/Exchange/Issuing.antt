-- ===== src/GeeRpc/Exchange/Issuing.antt =====
-- What a new client has sent and waits for after a number of calls.
use days_project.Common.{
  ℕ, suc, ◌+◌, ◌^◌, ◌<◌, ◌≡◌, refl, sym, ap, subst, ◌∙◌, List, [], ◌∷◌, ◌++◌, none, some, false,
  Text, lookup, lookup-insert, ℕ_discrete, arith, length, ◌||◌,
}
use mathlib.Core.List.{append_assoc, append-nil}
use days_project.GeeRpc.Client
use days_project.GeeRpc.Client.{
  Call, Client, new_client, go, send, register_call, write_call, update,
}
use days_project.GeeRpc.Client.Completion.{IsValid}
use days_project.GeeRpc.Client.Histories.{go-IsValid}
use days_project.GeeRpc.Exchange.{issue}

-- `n` calls were made, and all of them are pending: the call `j` under the number `j + 1`.
pub record IsWaiting (n : ℕ) (c : Client) : Type 0 where
  pub fresh : c.fresh ≡ n
  pub seq : c.seq ≡ suc n
  pub running : (c.closing || c.shutdown) ≡ false
  pub pending : (j : ℕ) → j < n → lookup ℕ_discrete (suc j) c.pending ≡ some j

-- The requests that are written, with the number of the first.
abbrev pub requests_from : ℕ → List (Text × Text) → List Client.Request
requests_from i [] = []
requests_from i (q ∷ qs) =
    record { seq = i; service_method = q.0; args = q.1 } ∷ requests_from (suc i) qs

pub new_client-IsWaiting : (calls : ℕ → Call) → IsWaiting 0 (new_client calls)
unfolding new_client
new_client-IsWaiting calls = record {
  fresh = refl;
  seq = refl;
  running = refl;
  pending = λ j h. absurd (omega (arith, h));
}

go-IsWaiting :
    (n : ℕ) (c : Client) (service_method args : Text)
    → suc (suc n) < 2 ^ 64
    → IsWaiting n c
    → IsWaiting (suc n) (go none c service_method args).0
      × ((go none c service_method args).0.wire
          ≡ c.wire ++ record { seq = suc n; service_method = service_method; args = args } ∷ [])
unfolding go send register_call write_call
go-IsWaiting n c service_method args small v = (
  record {
    fresh = ground (arith, v.fresh, v.running);
    seq = ground (arith, v.seq, v.running, small);
    running = ground (arith, v.running);
    pending = λ j h. ground (
      arith,
      h,
      v.running,
      v.seq,
      v.fresh,
      v.pending j,
      lookup-insert ℕ_discrete (suc j) c.seq c.fresh c.pending,
    );
  },
  ground (arith, v.running, v.seq),
)

-- After its calls a client that waits for `n` waits for those too, and has written their requests.
pub issue-IsWaiting :
    (qs : List (Text × Text)) (n : ℕ) (c : Client)
    → n + length qs + 1 < 2 ^ 64
    → IsWaiting n c
    → IsValid c
    → IsWaiting (n + length qs) (issue qs c)
      × IsValid (issue qs c)
      × ((issue qs c).wire ≡ c.wire ++ requests_from (suc n) qs)
unfolding issue
issue-IsWaiting [] n c small v w =
    (subst (λ k. IsWaiting k c) (omega arith) v, w, sym (append-nil c.wire))
issue-IsWaiting (q ∷ qs) n c small v w =
    let (waits, wrote) = go-IsWaiting n c q.0 q.1 (omega (arith, small)) v in
    let c' = (go none c q.0 q.1).0 in
    let (waits', valid, wrote') =
      issue-IsWaiting qs (suc n) c' (omega (arith, small)) waits (go-IsValid none q.0 q.1 w) in
    (
      subst (λ k. IsWaiting k (issue qs c')) (omega arith) waits',
      valid,
      wrote'
          ∙ ap (λ l. l ++ requests_from (suc (suc n)) qs) wrote
          ∙ append_assoc c.wire _ (requests_from (suc (suc n)) qs),
    )
