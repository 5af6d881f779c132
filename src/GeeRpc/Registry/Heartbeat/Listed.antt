-- ===== src/GeeRpc/Registry/Heartbeat/Listed.antt =====
-- A server whose heartbeats are answered stays listed.
use days_project.Common.{
  ℕ, ◌+◌, ◌≤◌, ◌<◌, ◌≡◌, refl, sym, ap, subst, ◌∙◌, ◌≢◌, ◌⊎◌, inl, inr, [], some, true, Text,
  text_dec, In, lookup, lookup-insert_self, lookup-insert_ne, KeysDistinct, insert-KeysDistinct,
  arith,
}
use days_project.GeeRpc.Registry.{
  ServerItem, GeeRegistry, HttpMethod, get, post, other, put_server, is_alive, alive_servers,
  serve_http,
}
use days_project.GeeRpc.Registry.Alive.{alive_servers_iff}
use days_project.GeeRpc.Registry.Heartbeat.{
  Beating, interval_of, send_heartbeat, heartbeat, beat, Step, pass_step, beat_step, request_step,
  lost_step, unanswered_step, Steps, start, next,
}
use days_project.GeeRpc.Registry.Heartbeat.Sweeps.{
  AliveAt, lookup-AliveAt, sweep-keeps, IsListed-of_lookup, put_server-insert,
  serve_http-put_server, serve_http_unnamed,
}

module _ (addr : Text) (timeout : ℕ) where
  -- The registry has the timeout, and at the time `now` an entry of the address, written at `since` or
  -- later.
  record Held (r : GeeRegistry) (since now : ℕ) : Type 0 where
    limit : r.timeout ≡ timeout
    distinct : KeysDistinct text_dec r.servers
    item : ServerItem
    entry : lookup text_dec addr r.servers ≡ some item
    low : since ≤ item.start
    past : item.start ≤ now

  put_server-Held_own :
      (r : GeeRegistry) (now : ℕ)
      → r.timeout ≡ timeout
      → KeysDistinct text_dec r.servers
      → Held (put_server now addr r) now now
  put_server-Held_own r now same distinct =
      let (item, at_now, e) = put_server-insert now addr r in
      subst (λ t. Held t now now) (sym e)
        (record {
          limit = same;
          distinct = insert-KeysDistinct text_dec addr item r.servers distinct;
          item = item;
          entry = lookup-insert_self text_dec addr addr item r.servers refl;
          low = omega (arith, at_now);
          past = omega (arith, at_now);
        })

  put_server-Held :
      (r : GeeRegistry) (since now : ℕ) (a : Text)
      → Held r since now
      → Held (put_server now a r) since now
  put_server-Held r since now a h = elim (text_dec addr a) [
    | yes p ↦
        let own = put_server-Held_own r now h.limit h.distinct in
        subst (λ k. Held (put_server now k r) since now) p
          (record {
            limit = own.limit;
            distinct = own.distinct;
            item = own.item;
            entry = own.entry;
            low = omega (arith, own.low, h.low, h.past);
            past = own.past;
          })
    | no n ↦
        let (item, at_now, e) = put_server-insert now a r in
        subst (λ t. Held t since now) (sym e)
          (record {
            limit = h.limit;
            distinct = insert-KeysDistinct text_dec a item r.servers h.distinct;
            item = h.item;
            entry = lookup-insert_ne text_dec addr a item r.servers n ∙ h.entry;
            low = h.low;
            past = h.past;
          })
  ]

  module _ (r : GeeRegistry) (since now : ℕ)
      (recent : (timeout ≡ 0) ⊎ (now < since + timeout)) where
    Held-alive : (h : Held r since now) → is_alive now timeout h.item ≡ true
    unfolding is_alive
    Held-alive h = ground (arith, recent, h.low)

    alive_servers-Held : Held r since now → Held (alive_servers now r).0 since now
    unfolding alive_servers
    alive_servers-Held h =
        let alive =
          lookup-AliveAt now timeout addr h.item r.servers h.distinct h.entry (Held-alive h) in
        let (same, distinct) =
          sweep-keeps now r.timeout addr r.servers [] r.servers
            (subst (λ t. AliveAt now t addr r.servers) (sym h.limit) alive) h.distinct in
        record {
          limit = h.limit;
          distinct = distinct;
          item = h.item;
          entry = same ∙ h.entry;
          low = h.low;
          past = h.past;
        }

    serve_http-Held :
        (method : HttpMethod) (a : Text)
        → Held r since now
        → Held (serve_http now method a r).0 since now
    unfolding serve_http
    serve_http-Held get a h = alive_servers-Held h
    serve_http-Held post a h = elim (text_dec a []) [
      | yes e ↦ subst (λ t. Held t since now) (sym (serve_http_unnamed now a r e)) h
      | no n ↦
          subst (λ t. Held t since now) (sym (serve_http-put_server now a r n))
            (put_server-Held r since now a h)
    ]
    serve_http-Held (other m) a h = h

    Held-listed : Held r since now → In addr (alive_servers now r).1
    Held-listed h = (alive_servers_iff now addr r).1 (
        IsListed-of_lookup now r.timeout addr h.item r.servers h.entry
          (ap (λ t. is_alive now t h.item) h.limit ∙ Held-alive h))

module _ (addr : Text) (named : addr ≢ []) (duration slack timeout : ℕ)
    (in_time : (timeout ≡ 0) ⊎ (interval_of duration + slack < timeout)) where
  -- While the loop goes on, the entry was written less than an interval before the next tick.
  record Fresh (s : Beating) : Type 0 where
    since : ℕ
    held : Held addr timeout s.registry since s.now
    recent : s.next_tick ≤ since + interval_of duration
    due : s.now ≤ s.next_tick + slack

  Fresh-recent : (s : Beating) (f : Fresh s) → (timeout ≡ 0) ⊎ (s.now < f.since + timeout)
  Fresh-recent s f = elim in_time [
    | inl e ↦ inl e
    | inr lt ↦ inr (omega (arith, lt, f.recent, f.due))
  ]

  send_heartbeat-Held :
      (r : GeeRegistry) (now : ℕ)
      → r.timeout ≡ timeout
      → KeysDistinct text_dec r.servers
      → Held addr timeout (send_heartbeat addr now r) now now
  unfolding send_heartbeat
  send_heartbeat-Held r now same distinct =
      subst (λ t. Held addr timeout t now now) (sym (serve_http-put_server now addr r named))
        (put_server-Held_own addr timeout r now same distinct)

  Step-Fresh :
      {s u : Beating}
      → Step addr duration slack s u
      → (s.beating ≡ true → Fresh s)
      → u.beating ≡ true
      → Fresh u
  unfolding beat
  Step-Fresh {s} (pass_step d soon) v b =
      let f = v b in
      record {
        since = f.since;
        held = record {
          limit = f.held.limit;
          distinct = f.held.distinct;
          item = f.held.item;
          entry = f.held.entry;
          low = f.held.low;
          past = omega (arith, f.held.past);
        };
        recent = f.recent;
        due = soon b;
      }
  Step-Fresh {s} (beat_step on due) v b =
      let f = v on in
      record {
        since = s.now;
        held = send_heartbeat-Held s.registry s.now f.held.limit f.held.distinct;
        recent = omega (arith, due);
        due = omega (arith, f.due);
      }
  Step-Fresh {s} (request_step method a) v b =
      let f = v b in
      record {
        since = f.since;
        held =
            serve_http-Held addr timeout s.registry f.since s.now (Fresh-recent s f) method a
              f.held;
        recent = f.recent;
        due = f.due;
      }
  Step-Fresh {s} (lost_step on due) v b = absurd (cc)
  Step-Fresh {s} (unanswered_step on due) v b = absurd (cc)

  Steps-Fresh :
      {s u : Beating}
      → Steps addr duration slack s u
      → (s.beating ≡ true → Fresh s)
      → u.beating ≡ true
      → Fresh u
  Steps-Fresh start v = v
  Steps-Fresh (next l st) v = Step-Fresh st (Steps-Fresh l v)

  -- From the first heartbeat on, while the heartbeats are answered, the registry lists the server at
  -- every time, whatever other requests it gets in between: if it has no timeout, or one that is
  -- greater than the interval of the heartbeats and the delay of a tick together.
  pub heartbeat-listed :
      (r : GeeRegistry) (now : ℕ) (u : Beating)
      → r.timeout ≡ timeout
      → KeysDistinct text_dec r.servers
      → Steps addr duration slack (heartbeat addr duration now r) u
      → u.beating ≡ true
      → In addr (alive_servers u.now u.registry).1
  unfolding heartbeat
  heartbeat-listed r now u same distinct l b =
      let f =
        Steps-Fresh l
          (λ on. record {
            since = now;
            held = send_heartbeat-Held r now same distinct;
            recent = omega arith;
            due = omega arith;
          })
          b in
      Held-listed addr timeout u.registry f.since u.now (Fresh-recent u f) f.held
