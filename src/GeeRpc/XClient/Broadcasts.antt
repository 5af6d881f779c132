-- ===== src/GeeRpc/XClient/Broadcasts.antt =====
-- What `Broadcast` gives, whatever the order in which its goroutines finish.
use days_project.Common.{
  ◌≡◌, refl, ap, ◌∙◌, ◌↔◌, inl, inr, List, [], ◌∷◌, Option, none, some, Bool, true, false, Text,
  Result, ok, err, In, All, arith,
}
use days_project.GeeRpc.XClient.{Shared, record_result, gather, broadcast}

abbrev pub IsOk : Result Text → Type 0
IsOk (ok v) = Unit
IsOk (err e) = ⊥

-- An error that is set stays.
gather-error :
    (rs : List (Result Text)) (s : Shared) (e : Text) → s.e ≡ some e → (gather rs s).e ≡ some e
unfolding gather record_result
gather-error [] s e h = h
gather-error (ok v ∷ rest) s e h = gather-error rest (record_result (ok v) s) e (ground arith)
gather-error (err m ∷ rest) s e h = gather-error rest (record_result (err m) s) e (ground arith)

gather-IsOk :
    (rs : List (Result Text)) (s : Shared) → s.e ≡ none → ((gather rs s).e ≡ none) ↔ All IsOk rs
unfolding gather
gather-IsOk [] s h = (λ e. tt, λ a. h)
gather-IsOk (ok v ∷ rest) s h =
    let (to, from) =
      gather-IsOk rest (record_result (ok v) s) (unfold record_result in ground arith) in
    (λ e. (tt, to e), λ a. from a.1)
gather-IsOk (err m ∷ rest) s h =
    let stays =
      gather-error rest (record_result (err m) s) m (unfold record_result in ground arith) in
    (λ e. absurd (cc), λ a. absurd (a.0))

-- An error that is set by a list is one of its errors.
gather-error_In :
    (rs : List (Result Text)) (s : Shared) (e : Text)
    → s.e ≡ none
    → (gather rs s).e ≡ some e
    → In (err e) rs
unfolding gather
gather-error_In [] s e h g = absurd (cc)
gather-error_In (ok v ∷ rest) s e h g =
    inr (gather-error_In rest (record_result (ok v) s) e (unfold record_result in ground arith) g)
gather-error_In (err m ∷ rest) s e h g =
    let stays =
      gather-error rest (record_result (err m) s) m (unfold record_result in ground arith) in
    inl (ap err (cc (stays, g)))

gather-reply_kept :
    (rs : List (Result Text)) (s : Shared) → s.reply_done ≡ true → (gather rs s).reply ≡ s.reply
unfolding gather record_result
gather-reply_kept [] s h = refl
gather-reply_kept (ok v ∷ rest) s h =
    gather-reply_kept rest (record_result (ok v) s) (ground arith) ∙ ground arith
gather-reply_kept (err m ∷ rest) s h =
    gather-reply_kept rest (record_result (err m) s) (ground arith) ∙ ground arith

-- The first value in the order of the lock.
abbrev pub first_ok : List (Result Text) → Option Text
first_ok [] = none
first_ok (ok v ∷ rest) = some v
first_ok (err e ∷ rest) = first_ok rest

gather-reply :
    (rs : List (Result Text)) (s : Shared)
    → s.reply_done ≡ false
    → s.reply ≡ none
    → (gather rs s).reply ≡ first_ok rs
unfolding gather
gather-reply [] s h r = r
gather-reply (ok v ∷ rest) s h r =
    gather-reply_kept rest (record_result (ok v) s) (unfold record_result in ground arith)
    ∙ unfold record_result in ground arith
gather-reply (err m ∷ rest) s h r =
    gather-reply rest (record_result (err m) s) (unfold record_result in ground arith)
      (unfold record_result in ground arith)

-- In whatever order the calls finish, `Broadcast` gives no error exactly if none of them failed, and
-- else the error of one of them; the reply, if one is wanted, is that of the first call to succeed,
-- and no reply is written if none is wanted.
pub broadcast_lem :
    (servers : List Text) (results : List Text → List (Result Text)) (wants_reply : Bool)
    → (((broadcast wants_reply (ok servers) results).0 ≡ none) ↔ All IsOk (results servers))
      × ((e : Text)
          → (broadcast wants_reply (ok servers) results).0 ≡ some e
          → In (err e) (results servers))
      × ((broadcast true (ok servers) results).1 ≡ first_ok (results servers))
      × ((broadcast false (ok servers) results).1 ≡ none)
unfolding broadcast
broadcast_lem servers results wants_reply = (
  gather-IsOk (results servers) _ refl,
  λ e. gather-error_In (results servers) _ e refl,
  gather-reply (results servers) _ refl refl,
  gather-reply_kept (results servers) _ refl,
)
