-- ===== src/Hubble/Tests.antt =====
-- Witnesses and runs of Hubble's client.
use nightjar.Prelude.{◌≡◌, refl, true, none, some, List, [], ◌∷◌, string_eq}
use nightjar.Hubble.Flow.{FlowDrop}
use nightjar.Hubble.Converter.{
  Codes, Flow, convert_flow, parse_drop_reason, endpoint_of, l4_info, icmp_v4,
}
use nightjar.Hubble.Conversion.{Label}
use nightjar.Hubble.Client.{
  Client, looping, streaming, new_client, default_client_options, connect, connects, receives,
  receive, Reach, here, next,
}
use nightjar.Hubble.Connection.{IsSound, reach-new-IsSound}

abbrev codes : Codes
codes = record {
  policy_denied = 133;
  policy_deny = 181;
  auth_required = 189;
  invalid_identity = 171;
  ct_no_map_found = 190;
  fib_lookup_failed = 169;
  invalid_source_ip = 132;
  invalid_packet_dropped = 134;
  ttl_exceeded = 196;
  proxy_redirection_not_supported_for_protocol = 180;
}

abbrev flow : Flow
flow = record {
  dropped = true;
  uuid = "t";
  drop_reason_desc = 181;
  time = none;
  source = some (record {
    identity = 7;
    namespace = "team";
    pod_name = "web";
    labels = "k8s:app=web" ∷ "reserved:world" ∷ [];
    workloads = none ∷ [];
  });
  destination = none;
  ip = none;
  l4 = some icmp_v4;
}

abbrev drop : FlowDrop
drop = record {
  time = 5;
  trace_id = "t";
  policy_name = "";
  drop_reason = parse_drop_reason codes 181;
  source = endpoint_of flow.source;
  destination = endpoint_of none;
  ip = record { source = ""; destination = "" };
  l4 = l4_info (some icmp_v4);
}

converts : convert_flow codes 5 flow ≡ some drop
unfolding convert_flow
converts = refl

abbrev labels : List Label
labels =
    record { source = "k8s"; key = "app"; value = "web=1" }
    ∷ record { source = "k8s"; key = "app"; value = "db" }
    ∷ []

abbrev client : Client
client = new_client default_client_options

-- The client after a stream on which one drop arrived.
abbrev streamed : Client
streamed = receive codes 5 (some flow) (connect client)

at_head : (new_client default_client_options).phase ≡ looping
unfolding new_client
at_head = refl

at_stream : (connect (new_client default_client_options)).phase ≡ streaming
unfolding connect
at_stream = refl

run : Reach codes (new_client default_client_options) streamed
run = next (next here (connects at_head)) (receives 5 (some flow) at_stream)

reach-new-IsSound_example : IsSound streamed
reach-new-IsSound_example = reach-new-IsSound codes default_client_options _ run
