-- ===== src/GeeRpc/Registry/Heartbeat.antt =====
-- geerpc/registry/registry.go: `Heartbeat`, whose goroutine sends a request to a registry at each tick,
-- while others send requests of their own. Times are in nanoseconds.
pub mod Sweeps
pub mod Listed
use days_project.Common.{ℕ, ◌+◌, ◌-◌, ◌*◌, ◌≤◌, ◌≡◌, Bool, true, false, Text, if◌then◌else◌, ◌==◌}
use days_project.GeeRpc.Registry.{GeeRegistry, HttpMethod, post, serve_http}

-- `time.Minute`
abbrev pub minute : ℕ
minute = 60000000000

abbrev pub default_timeout : ℕ
default_timeout = 5 * minute

-- The interval of the ticker
unfoldable pub interval_of : ℕ → ℕ
interval_of duration = if duration == 0 then default_timeout - 1 * minute else duration

-- The registry, the clock, when the ticker's next tick is due, and whether `err == nil`.
pub record Beating : Type 0 where
  pub registry : GeeRegistry
  pub now : ℕ
  pub next_tick : ℕ
  pub beating : Bool

-- `sendHeartbeat`, where the request arrives
unfoldable pub send_heartbeat : Text → ℕ → GeeRegistry → GeeRegistry
unfolding serve_http
send_heartbeat addr now r = (serve_http now post addr r).0

-- `Heartbeat`, where the first request is answered
unfoldable pub heartbeat : Text → ℕ → ℕ → GeeRegistry → Beating
unfolding interval_of send_heartbeat
heartbeat addr duration now r = record {
  registry = send_heartbeat addr now r;
  now = now;
  next_tick = now + interval_of duration;
  beating = true;
}

-- A tick whose request is answered; any status will do.
unfoldable pub beat : Text → ℕ → Beating → Beating
unfolding interval_of send_heartbeat
beat addr duration s = record s {
  registry = send_heartbeat addr s.now s.registry;
  next_tick = s.next_tick + interval_of duration;
}

-- Time passes; while the loop goes on, a tick is answered at most `slack` after it is due. Any request
-- reaches the registry between two ticks. A tick whose request fails ends the loop, whether or not
-- the registry has got it.
pub data Step (addr : Text) (duration slack : ℕ) (s : Beating) : Beating → Type 0 where
  pass_step :
      (d : ℕ)
      → (s.beating ≡ true → s.now + d ≤ s.next_tick + slack)
      → Step addr duration slack s (record s { now = s.now + d })
  beat_step :
      s.beating ≡ true → s.next_tick ≤ s.now → Step addr duration slack s (beat addr duration s)
  request_step :
      (method : HttpMethod) (other : Text)
      → Step addr duration slack s
          (record s { registry = (serve_http s.now method other s.registry).0 })
  lost_step :
      s.beating ≡ true
      → s.next_tick ≤ s.now
      → Step addr duration slack s (record s { beating = false })
  unanswered_step :
      s.beating ≡ true
      → s.next_tick ≤ s.now
      → Step addr duration slack s
          (record s { registry = send_heartbeat addr s.now s.registry; beating = false })

pub data Steps (addr : Text) (duration slack : ℕ) (s : Beating) : Beating → Type 0 where
  start : Steps addr duration slack s s
  next :
      {t u : Beating}
      → Steps addr duration slack s t
      → Step addr duration slack t u
      → Steps addr duration slack s u
