-- ===== src/GeeRpc/Tests/Exchange.antt =====
-- Two calls from a client to a server and back.
use days_project.Common.{refl, List, [], ◌∷◌, Text, codes, map, arith}
use days_project.GeeRpc.Client.{Client, new_client, receive}
use days_project.GeeRpc.Server.{serve}
use days_project.GeeRpc.Codec.{new_gob_codec}
use days_project.GeeRpc.Exchange.{write_all, incoming_of, issue}
use days_project.GeeRpc.Exchange.Receiving.{Completed}
use days_project.GeeRpc.Exchange.RoundTrip.{Aimed, call_of, answer_to, round_trip}
use days_project.GeeRpc.Tests.{foo, blank, no_header, decode, echo, sum_type, found_sum}

abbrev aim : Text → Aimed
aim args = record { service_method = codes "Foo.Sum"; args = args; method = sum_type; arg = args }

abbrev aimed : List Aimed
aimed = aim (codes "7") ∷ aim (codes "8") ∷ []

abbrev client : Client
client = issue (map call_of aimed) (new_client blank)

round_trip_example :
    Completed
      (receive
        (map incoming_of
          (serve no_header decode echo foo (write_all client.wire new_gob_codec).conn))
        client)
      1
      (answer_to no_header decode echo foo 2 (aim (codes "8")))
round_trip_example =
    round_trip no_header decode echo foo aimed blank 1 (aim (codes "8")) (λ p. refl)
      ((found_sum, refl, λ e. cc), ((found_sum, refl, λ e. cc), tt)) (omega arith) refl
