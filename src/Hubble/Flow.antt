-- ===== src/Hubble/Flow.antt =====
-- internal/hubble/types.go: a dropped flow, and why it was dropped. An IP protocol and a drop
-- reason are Go strings with constants.
use nightjar.Prelude.{ℕ, String, Bool, ◌||◌, Option, List, ◌==◌, string_eq}

pub record WorkloadRef : Type 0 where
  pub kind : String
  pub name : String

pub record Endpoint : Type 0 where
  pub identity : ℕ
  pub namespace : String
  pub pod_name : String
  pub labels : List (String × String)
  pub workloads : List WorkloadRef

pub record IpInfo : Type 0 where
  pub source : String
  pub destination : String

pub record TcpFlags : Type 0 where
  pub syn : Bool
  pub ack : Bool
  pub fin : Bool
  pub rst : Bool

abbrev pub Protocol : Type 0
Protocol = String

abbrev pub protocol_tcp : Protocol
protocol_tcp = "TCP"

abbrev pub protocol_udp : Protocol
protocol_udp = "UDP"

abbrev pub protocol_icmp : Protocol
protocol_icmp = "ICMP"

abbrev pub protocol_unknown : Protocol
protocol_unknown = "UNKNOWN"

pub record L4Info : Type 0 where
  pub protocol : Protocol
  pub source_port : ℕ
  pub destination_port : ℕ
  pub tcp : Option TcpFlags

abbrev pub DropReason : Type 0
DropReason = String

abbrev pub drop_reason_policy : DropReason
drop_reason_policy = "POLICY_DENIED"

abbrev pub drop_reason_policy_l3 : DropReason
drop_reason_policy_l3 = "POLICY_DENIED_L3"

abbrev pub drop_reason_policy_l4 : DropReason
drop_reason_policy_l4 = "POLICY_DENIED_L4"

abbrev pub drop_reason_policy_l7 : DropReason
drop_reason_policy_l7 = "POLICY_DENIED_L7"

abbrev pub drop_reason_policy_auth : DropReason
drop_reason_policy_auth = "POLICY_AUTH_REQUIRED"

abbrev pub drop_reason_no_network_policy : DropReason
drop_reason_no_network_policy = "NO_NETWORK_POLICY"

abbrev pub drop_reason_ingress_denied : DropReason
drop_reason_ingress_denied = "INGRESS_DENIED"

abbrev pub drop_reason_egress_denied : DropReason
drop_reason_egress_denied = "EGRESS_DENIED"

abbrev pub drop_reason_invalid_packet : DropReason
drop_reason_invalid_packet = "INVALID_PACKET"

abbrev pub drop_reason_ttl_exceeded : DropReason
drop_reason_ttl_exceeded = "TTL_EXCEEDED"

abbrev pub drop_reason_no_mapping : DropReason
drop_reason_no_mapping = "NO_MAPPING"

abbrev pub drop_reason_proxy_redirect : DropReason
drop_reason_proxy_redirect = "PROXY_REDIRECT_FAILED"

abbrev pub drop_reason_unknown : DropReason
drop_reason_unknown = "UNKNOWN"

-- `DropReason.IsPolicyDrop`
unfoldable pub is_policy_drop : DropReason → Bool
is_policy_drop r =
    r == drop_reason_policy
    || (r == drop_reason_policy_l3
        || (r == drop_reason_policy_l4
            || (r == drop_reason_policy_l7
                || (r == drop_reason_policy_auth
                    || (r == drop_reason_no_network_policy
                        || (r == drop_reason_ingress_denied || r == drop_reason_egress_denied))))))

pub record FlowDrop : Type 0 where
  pub time : ℕ
  pub source : Endpoint
  pub destination : Endpoint
  pub ip : IpInfo
  pub l4 : L4Info
  pub drop_reason : DropReason
  pub policy_name : String
  pub trace_id : String
