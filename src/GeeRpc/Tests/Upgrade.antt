-- ===== src/GeeRpc/Tests/Upgrade.antt =====
-- A dial over HTTP to a server that has registered.
use days_project.Common.{ℕ, ◌≡◌, refl, [], none, some, codes, ok, false, text_dec, split}
use days_project.GeeRpc.Client.{Call, default_options, parse_options, x_dial, http_target}
use days_project.GeeRpc.Client.Dialing.{Network, connect_request, dial_at}
use days_project.GeeRpc.Server.{handshake, serving}
use days_project.GeeRpc.Upgrade.{receive_request, status_of}
use days_project.GeeRpc.Upgrade.Dials.{outcome, dial_at-receive_request}

abbrev blank : ℕ → Call
blank p = record { seq = 0; service_method = []; args = []; reply = none; error = none; done = 0 }

abbrev net : Network
net = record {
  encode = λ o. o.codec_type;
  encode_error = none;
  status = status_of (receive_request none connect_request);
}

aimed : x_dial (codes "http@:9999") ≡ some (http_target (codes ":9999"))
unfolding x_dial split text_dec
aimed = refl

parsed : parse_options [] ≡ ok default_options
unfolding parse_options
parsed = refl

dial_at-receive_request_example :
    (dial_at blank net none false (codes "http@:9999") [] ≡ outcome blank net default_options none)
    × (handshake (some (default_options.magic_number, default_options.codec_type)) ≡ serving)
dial_at-receive_request_example =
    dial_at-receive_request blank net none (codes "http@:9999") (codes ":9999") [] default_options
      aimed parsed refl refl refl
