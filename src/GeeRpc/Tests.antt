-- ===== src/GeeRpc/Tests.antt =====
-- The theorems about geerpc at concrete inputs.
mod Serving
mod Exchange
mod Heartbeat
mod Upgrade
use days_project.Common.{
  ℕ, ◌+◌, ◌%◌, ◌≡◌, refl, ◌≢◌, ◌↔◌, ◌⊎◌, inr, ◌<◌, false, All, List, join, [], ◌∷◌, Option, none,
  some, true, Text, codes, Result, ok, err, In, lookup, length, get_elem?, arith, ℕ_discrete,
  text_dec,
}
use days_project.GeeRpc.Discovery
use days_project.GeeRpc.Discovery.{MultiServersDiscovery, round_robin_select, random_select}
use days_project.GeeRpc.Discovery.RoundRobin.{turns, get-turns}
use days_project.GeeRpc.Discovery.Refreshing.{IsAddress, refresh-serve_http}
use days_project.GeeRpc.Registry
use days_project.GeeRpc.Registry.{GeeRegistry}
use days_project.GeeRpc.Registry.Alive.{IsListed, alive_servers_iff}
use days_project.GeeRpc.Client
use days_project.GeeRpc.Client.{Call}
use days_project.GeeRpc.Client.Completion.{IsValid}
use days_project.GeeRpc.Client.Histories.{
  Reach, start, begin_step, error_step, receive_step, remove_step, go-Reach, Reach-IsValid,
}
use days_project.GeeRpc.Client.Termination.{terminate_completes}
use days_project.GeeRpc.Client.Dialing.{Network, dial_at}
use days_project.GeeRpc.Client.Opening.{Opened, dial_at-Opened}
use days_project.GeeRpc.XClient.{XClient, new_x_client, reuse, connect, dial, broadcast}
use days_project.GeeRpc.XClient.Connections
use days_project.GeeRpc.XClient.Broadcasts.{IsOk, first_ok, broadcast_lem}
use days_project.GeeRpc.Handling.{
  Handling, calling, finished, timed_out, done, begin, response_of, timeout_response, Steps,
  start as start_of, next, timeout_step, refuse_step,
}
use days_project.GeeRpc.Handling.Responses.{one_response, timeout_leaks}
use days_project.GeeRpc.Server
use days_project.GeeRpc.Server.{
  TypeInfo, MethodInfo, MethodType, Header, Frame, body, Response, find_service, register,
  is_rpc_method, new_service, cut_last, find_method,
}
use days_project.GeeRpc.Server.Dispatch.{find_service-register}
use days_project.GeeRpc.Server.Connection.{Request, answer}

abbrev three : MultiServersDiscovery
three = record {
  draws = λ i. 5;
  drawn = 1;
  servers = codes "a" ∷ codes "b" ∷ codes "c" ∷ [];
  index = 4;
}

get-turns_example :
    (d' : MultiServersDiscovery) × (e : MultiServersDiscovery) × (s : Text) × (turns 2 three
      ≡ some d')
    × (Discovery.get round_robin_select d' ≡ some (e, ok s))
    × (get_elem? three.servers ((three.index + 2) % length three.servers) ≡ some s)
get-turns_example = get-turns 2 three (omega arith)

abbrev registry : GeeRegistry
registry = record {
  timeout = 5;
  servers = (codes "a", record { addr = codes "a"; start = 1 }) ∷ [];
}

abbrev blank : ℕ → Call
blank p = record { seq = 0; service_method = []; args = []; reply = none; error = none; done = 0 }

abbrev waiting : Client.Client
waiting = (Client.go none (Client.new_client blank) (codes "Foo.Sum") (codes "1")).0

waiting-Reach : Reach waiting Client.idle
waiting-Reach = go-Reach none (codes "Foo.Sum") (codes "1") (start blank (λ p. refl))

-- The connection answers a call whose request was written only in part: the error of the write
-- finds the call completed.
abbrev answered_early : Client.Client
answered_early =
    (Client.receive_one
      (Client.begin_send (Client.allocate (Client.new_client blank) (codes "Foo.Sum") (codes "1"))
        0).0
      1 [] (ok (codes "2"))).0

answered_early-Reach :
    Reach (Client.fail_write answered_early 0 1 (codes "broken pipe")) Client.idle
unfolding Client.begin_send Client.new_client Client.allocate
answered_early-Reach = remove_step 0 1 (codes "broken pipe") (
    receive_step 1 [] (ok (codes "2")) (
      error_step 0 1 (codes "broken pipe")
        (begin_step (codes "Foo.Sum") (codes "1") (start blank (λ p. refl)))))

Reach-IsValid_example : IsValid (Client.fail_write answered_early 0 1 (codes "broken pipe"))
Reach-IsValid_example = Reach-IsValid answered_early-Reach

abbrev plain : TypeInfo
plain = record { name = codes "int"; pkg_path = [] }

abbrev sum : MethodInfo
sum = record {
  name = codes "Sum";
  num_in = 3;
  num_out = 1;
  out_is_error = true;
  arg_type = plain;
  reply_type = plain;
}

abbrev sum_type : MethodType
sum_type = record { method = codes "Sum"; arg_type = plain; reply_type = plain }

abbrev foo : Server.Server
foo = (register [] (codes "Foo") (sum ∷ [])).0

foo_registered : register [] (codes "Foo") (sum ∷ []) ≡ (foo, none)
unfolding register lookup
foo_registered = refl

found_sum : find_service foo (codes "Foo.Sum") ≡ ok sum_type
unfolding is_rpc_method text_dec
found_sum =
    find_service-register [] foo (codes "Foo") [] [] sum foo_registered refl (omega arith) tt

find_service-register_example : find_service foo (codes "Foo.Sum") ≡ ok sum_type
unfolding is_rpc_method text_dec
find_service-register_example =
    find_service-register [] foo (codes "Foo") [] [] sum foo_registered refl (omega arith) tt

abbrev no_header : Text → Option Header
no_header bytes = none

abbrev decode : MethodType → Text → Result Text
decode m bytes = ok bytes

abbrev echo : MethodType → Text → Result Text × ℕ
echo m arg = (ok arg, 1)

abbrev one : Request
one = record {
  head = record { service_method = codes "Foo.Sum"; seq = 1; error = [] };
  method = sum_type;
  bytes = codes "7";
  arg = codes "7";
}

abbrev lost : Header
lost = record { service_method = codes "Bar.Sum"; seq = 1; error = [] }

terminate_completes_example :
    ((k p : ℕ)
      → lookup ℕ_discrete k waiting.pending ≡ some p
      → (((Client.terminate_calls waiting (codes "EOF")).calls p).done ≡ 1)
        × (((Client.terminate_calls waiting (codes "EOF")).calls p).error ≡ some (codes "EOF")))
    × ((q : ℕ)
        → ((k : ℕ) → lookup ℕ_discrete k waiting.pending ≢ some q)
        → (Client.terminate_calls waiting (codes "EOF")).calls q ≡ waiting.calls q)
    × (Client.is_available (Client.terminate_calls waiting (codes "EOF")) ≡ false)
    × ((failure : Option Text) (service_method args : Text)
        → let (d, q) =
            Client.go failure (Client.terminate_calls waiting (codes "EOF")) service_method args in
          ((d.calls q).done ≡ 1) × ((d.calls q).error ≡ some Client.err_shutdown))
terminate_completes_example = terminate_completes waiting (codes "EOF") waiting-Reach

abbrev network : Network
network = record {
  encode = λ o. codes "{}";
  encode_error = none;
  status = ok (codes "200 Connected to Gee RPC");
}

dial_at-Opened_example :
    Opened blank network (dial_at blank network none false (codes "http@:1") [])
dial_at-Opened_example = dial_at-Opened blank network none false (codes "http@:1") []

abbrev idle : XClient ℕ
idle = new_x_client 0 random_select (λ p. Client.new_client blank)

idle-IsValid : Connections.IsValid idle
unfolding new_x_client lookup
idle-IsValid = record { allocated = λ a p e. absurd (cc); apart = λ a b p e f. absurd (cc) }

abbrev dialled : Result Client.Client
dialled = ok (Client.new_client blank)

dialled_good : (c : Client.Client) → dialled ≡ ok c → Client.is_available c ≡ true
unfolding Client.is_available Client.new_client
dialled_good c e = ground arith

dial_keeps_example :
    Connections.IsKept (codes "a") 0 (dial dialled (codes "a") idle).0
    × Connections.KeepsOthers (codes "a") idle (dial dialled (codes "a") idle).0
    × ((q : ℕ) → Connections.IsKept (codes "a") q idle → 0 ≡ q)
    × Connections.IsValid (dial dialled (codes "a") idle).0
unfolding dial reuse connect lookup new_x_client
dial_keeps_example =
    Connections.dial_keeps idle dialled (codes "a") 0 idle-IsValid dialled_good refl

abbrev answers : List Text → List (Result Text)
answers servers = err (codes "down") ∷ ok (codes "7") ∷ []

broadcast_lem_example :
    (((broadcast true (ok (codes "a" ∷ codes "b" ∷ [])) answers).0 ≡ none)
      ↔ All IsOk (answers (codes "a" ∷ codes "b" ∷ [])))
    × ((e : Text)
        → (broadcast true (ok (codes "a" ∷ codes "b" ∷ [])) answers).0 ≡ some e
        → In (err e) (answers (codes "a" ∷ codes "b" ∷ [])))
    × ((broadcast true (ok (codes "a" ∷ codes "b" ∷ [])) answers).1
        ≡ first_ok (answers (codes "a" ∷ codes "b" ∷ [])))
    × ((broadcast false (ok (codes "a" ∷ codes "b" ∷ [])) answers).1 ≡ none)
broadcast_lem_example = broadcast_lem (codes "a" ∷ codes "b" ∷ []) answers true

abbrev stale : Discovery.GeeRegistryDiscovery
stale = record { multi = record three { servers = [] }; timeout = 10; last_update = 0 }

registry-answers :
    (Registry.serve_http 3 Registry.get [] registry).1 ≡ Registry.servers_header (codes "a")
unfolding Registry.serve_http join
registry-answers = refl

registry-addresses : All IsAddress (Registry.alive_servers 3 registry).1
unfolding Registry.alive_servers Discovery.trim_space Discovery.trim_left
registry-addresses = (((omega arith, tt), refl, λ e. cc), tt)

refresh-serve_http_example :
    let (d', failed) = Discovery.refresh 20 (ok (codes "a")) stale in
    (failed ≡ none)
    × (d'.multi.servers ≡ (Registry.alive_servers 3 registry).1)
    × ((later : ℕ) (answer : Result Text)
        → later < 30
        → Discovery.refresh later answer d' ≡ (d', none))
refresh-serve_http_example =
    refresh-serve_http 20 3 registry (codes "a") stale registry-answers registry-addresses
      (omega arith)

abbrev late : Handling
late = record { head = one.head; timeout = 3; worker = calling; waiter = timed_out; responses = [] }

late-Steps : Steps (begin one.head 3) late
unfolding begin
late-Steps = next start_of (timeout_step _ (omega arith) refl)

abbrev expired : Handling
expired = record {
  head = one.head;
  timeout = 3;
  worker = calling;
  waiter = done;
  responses = timeout_response one.head ∷ [];
}

expired-Steps : Steps (begin one.head 3) expired
unfolding begin
expired-Steps = next late-Steps (refuse_step late refl)

one_response_example :
    ((r : Result Text) × (expired.worker ≡ finished)
      × (expired.responses ≡ response_of one.head r ∷ []))
    ⊎ ((◌≢◌ {A = ℕ} 3 0) × (expired.responses ≡ timeout_response one.head ∷ []))
one_response_example = one_response one.head 3 expired-Steps refl

timeout_leaks_example : expired.worker ≢ finished
timeout_leaks_example =
    timeout_leaks one.head 3 late-Steps refl (next start_of (refuse_step late refl))
