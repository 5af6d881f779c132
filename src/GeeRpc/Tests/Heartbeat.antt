-- ===== src/GeeRpc/Tests/Heartbeat.antt =====
-- A server that sends its heartbeats to a new registry.
use days_project.Common.{ℕ, ◌+◌, ◌*◌, ◌≡◌, refl, inr, [], Text, codes, In, arith}
use days_project.GeeRpc.Registry
use days_project.GeeRpc.Registry.{get, serve_http, alive_servers}
use days_project.GeeRpc.Registry.Heartbeat.{
  Beating, minute, default_timeout, interval_of, heartbeat, beat, Steps, start, next, pass_step,
  beat_step, request_step,
}
use days_project.GeeRpc.Registry.Heartbeat.Listed.{heartbeat-listed}

abbrev addr : Text
addr = codes "tcp@:9999"

abbrev second : ℕ
second = 1000000000

-- The interval of `Heartbeat(registry, addr, 0)`.
four_minutes : interval_of 0 ≡ 4 * minute
unfolding interval_of
four_minutes = omega arith

abbrev first_one : Beating
first_one = heartbeat addr 0 0 (Registry.new default_timeout)

abbrev waited : Beating
waited = record first_one { now = 0 + (4 * minute + second) }

abbrev again : Beating
again = beat addr 0 waited

abbrev asked : Beating
asked = record again { registry = (serve_http again.now get [] again.registry).0 }

abbrev later : Beating
later = record asked { now = 4 * minute + second + 4 * minute }

-- A tick that is a second late, a request for the servers, and four minutes more.
asked-Steps : Steps addr 0 second first_one later
unfolding heartbeat beat
asked-Steps =
    next
      (next
        (next (next start (pass_step (4 * minute + second) (λ on. omega arith)))
          (beat_step refl omega arith))
        (request_step get []))
      (pass_step (4 * minute) (λ on. omega arith))

heartbeat-listed_example : In addr (alive_servers later.now later.registry).1
unfolding heartbeat beat Registry.new
heartbeat-listed_example =
    heartbeat-listed addr (λ e. cc) 0 second default_timeout (inr (omega (arith, four_minutes)))
      (Registry.new default_timeout) 0 later refl tt asked-Steps refl
