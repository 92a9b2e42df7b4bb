-- ===== src/Hubble/Converter.antt =====
-- internal/hubble/converter.go, and convertFlow of internal/hubble/client.go: a flow of the Cilium
-- API as a dropped flow. What the protobuf getters of the Cilium API give is the record `Flow`, a nil
-- message `none`; the numbers of its drop reasons are the parameter `Codes`.
use nightjar.Prelude.{
  ℕ, String, Bool, ◌||◌, Option, none, some, List, [], ◌∷◌, if◌then◌else◌, nat_eqb, ◌==◌, string_eq,
  not,
}
use nightjar.Prelude.Strings.{before_char, after_char}
use nightjar.Prelude.Dict.{Dict, insert}
use nightjar.Hubble.Flow.{
  FlowDrop, Endpoint, WorkloadRef, IpInfo, L4Info, TcpFlags, DropReason, Protocol, protocol_tcp,
  protocol_udp, protocol_icmp, protocol_unknown, drop_reason_policy, drop_reason_policy_auth,
  drop_reason_no_mapping, drop_reason_invalid_packet, drop_reason_ttl_exceeded,
  drop_reason_proxy_redirect, drop_reason_unknown,
}

-- flowpb.DropReason
pub record Codes : Type 0 where
  pub policy_denied : ℕ
  pub policy_deny : ℕ
  pub auth_required : ℕ
  pub invalid_identity : ℕ
  pub ct_no_map_found : ℕ
  pub fib_lookup_failed : ℕ
  pub invalid_source_ip : ℕ
  pub invalid_packet_dropped : ℕ
  pub ttl_exceeded : ℕ
  pub proxy_redirection_not_supported_for_protocol : ℕ

unfoldable pub parse_drop_reason : Codes → ℕ → DropReason
parse_drop_reason codes n =
    if nat_eqb n codes.policy_denied || nat_eqb n codes.policy_deny
    then drop_reason_policy
    else if nat_eqb n codes.auth_required || nat_eqb n codes.invalid_identity
    then drop_reason_policy_auth
    else if nat_eqb n codes.ct_no_map_found || nat_eqb n codes.fib_lookup_failed
    then drop_reason_no_mapping
    else if nat_eqb n codes.invalid_source_ip || nat_eqb n codes.invalid_packet_dropped
    then drop_reason_invalid_packet
    else if nat_eqb n codes.ttl_exceeded
    then drop_reason_ttl_exceeded
    else if nat_eqb n codes.proxy_redirection_not_supported_for_protocol
    then drop_reason_proxy_redirect
    else drop_reason_unknown

-- The label behind its first colon, or all of it where it has none.
unfoldable pub strip_source : String → String
strip_source l = elim (after_char 58 l) [ none ↦ l | some rest ↦ rest ]

-- One round of the loop over the labels, after the prefix: the two parts of `strings.SplitN(l, "=", 2)`
-- where there is a `=`, or else the whole as a key without a value.
unfoldable pub put_label : String → Dict String String → Dict String String
put_label l m = elim (after_char 61 l) [
  | some value ↦ insert (before_char 61 l) value m
  | none ↦ if not (l == "") then insert l "" m else m
]

unfoldable pub parse_labels_into : List String → Dict String String → Dict String String
parse_labels_into [] m = m
parse_labels_into (l ∷ ls) m = parse_labels_into ls (put_label (strip_source l) m)

unfoldable pub parse_labels : List String → Dict String String
parse_labels ls = parse_labels_into ls []

unfoldable pub parse_protocol : ℕ → Protocol
parse_protocol proto =
    if nat_eqb proto 6
    then protocol_tcp
    else if nat_eqb proto 17
    then protocol_udp
    else if nat_eqb proto 1
    then protocol_icmp
    else protocol_unknown

-- flowpb.Endpoint; a workload that is nil is `none`.
pub record FlowEndpoint : Type 0 where
  pub identity : ℕ
  pub namespace : String
  pub pod_name : String
  pub labels : List String
  pub workloads : List (Option WorkloadRef)

-- flowpb.Layer4
pub data Layer4 : Type 0 where
  tcp : ℕ → ℕ → Option TcpFlags → Layer4
  udp : ℕ → ℕ → Layer4
  icmp_v4 : Layer4
  icmp_v6 : Layer4
  other : Layer4

-- flowpb.Flow; `dropped` tells whether its verdict is DROPPED.
pub record Flow : Type 0 where
  pub dropped : Bool
  pub uuid : String
  pub drop_reason_desc : ℕ
  pub time : Option ℕ
  pub source : Option FlowEndpoint
  pub destination : Option FlowEndpoint
  pub ip : Option IpInfo
  pub l4 : Option Layer4

unfoldable pub workload_refs : List (Option WorkloadRef) → List WorkloadRef
workload_refs [] = []
workload_refs (none ∷ ws) = workload_refs ws
workload_refs (some w ∷ ws) = w ∷ workload_refs ws

-- `Endpoint{}` where the flow has none.
unfoldable pub endpoint_of : Option FlowEndpoint → Endpoint
endpoint_of none = record {
  identity = 0;
  namespace = "";
  pod_name = "";
  labels = [];
  workloads = [];
}
endpoint_of (some e) = record {
  identity = e.identity;
  namespace = e.namespace;
  pod_name = e.pod_name;
  labels = parse_labels e.labels;
  workloads = workload_refs e.workloads;
}

unfoldable pub l4_info : Option Layer4 → L4Info
l4_info none = record { protocol = ""; source_port = 0; destination_port = 0; tcp = none }
l4_info (some (tcp s d flags)) = record {
  protocol = protocol_tcp;
  source_port = s;
  destination_port = d;
  tcp = flags;
}
l4_info (some (udp s d)) = record {
  protocol = protocol_udp;
  source_port = s;
  destination_port = d;
  tcp = none;
}
l4_info (some icmp_v4) = record {
  protocol = protocol_icmp;
  source_port = 0;
  destination_port = 0;
  tcp = none;
}
l4_info (some icmp_v6) = record {
  protocol = protocol_icmp;
  source_port = 0;
  destination_port = 0;
  tcp = none;
}
l4_info (some other) = record {
  protocol = protocol_unknown;
  source_port = 0;
  destination_port = 0;
  tcp = none;
}

-- `now` is the clock, read where the flow has no time.
unfoldable pub convert_flow : Codes → ℕ → Flow → Option FlowDrop
convert_flow codes now f =
    if not f.dropped
    then none
    else some (record {
      time = elim f.time [ none ↦ now | some t ↦ t ];
      source = endpoint_of f.source;
      destination = endpoint_of f.destination;
      ip = elim f.ip [ none ↦ record { source = ""; destination = "" } | some i ↦ i ];
      l4 = l4_info f.l4;
      drop_reason = parse_drop_reason codes f.drop_reason_desc;
      policy_name = "";
      trace_id = f.uuid;
    })
