-- ===== src/Notifier/Tests.antt =====
-- Witnesses and runs of the notifier.
use nightjar.Prelude.{◌≡◌, ◌≢◌, eq_iff, refl, true, none, some, [], ◌∷◌, arith, string_eq, String}
use nightjar.Prelude.Strings.{to_kebab_case, capitalize, cut_suffix}
use nightjar.Types.{
  Constraint, RemediationStep, zero_constraint, detail_level_summary,
  constraint_type_network_egress,
}
use nightjar.Correlator.{CorrelatedNotification}
use nightjar.Notifier.Steps.{RemediationBuilder, manual_step, config_name}
use nightjar.Notifier.Remediation.{build}
use nightjar.Notifier.EventBuilder.{Outside, WorkloadRef, gvr_to_kind}
use nightjar.Notifier.BuildEvent.{build_structured_data}
use nightjar.Notifier.Privacy.{LooksLike, without_steps, build_structured_data-summary}
use nightjar.Notifier.Dispatching.{dispatch-private}
use nightjar.Notifier.Dispatcher.{
  RateLimiter, Dispatcher, Turn, default_dispatcher_options, dispatch,
}

abbrev ask : RemediationStep
ask = manual_step "Ask" "#platform" "developer"

abbrev policy : Constraint
policy = record zero_constraint {
  uid = "p";
  source = record { group = "networking.k8s.io"; version = "v1"; resource = "networkpolicies" };
  name = "deny-all";
  namespace = "infra";
  constraint_type = constraint_type_network_egress;
  remediation_hint = "Ask the platform team";
  remediation = ask ∷ [];
}

-- The same in what every developer may see.
abbrev twin : Constraint
twin = record policy {
  name = "isolate";
  namespace = "payments";
  summary = "Only payments may enter";
}

abbrev outside : Outside
outside = record {
  now = 7;
  observed_at = "2026-01-01T00:00:00Z";
  marshal = λ payload. some payload.constraint_name;
}

abbrev web : WorkloadRef
web = record {
  api_version = "apps/v1";
  kind = "Deployment";
  name = "web";
  namespace = "team-a";
  uid = "w";
}

abbrev rb : RemediationBuilder
rb = record { default_contact = "ops" }

alike : LooksLike policy twin
alike = record {
  uid = refl;
  source = refl;
  constraint_type = refl;
  severity = refl;
  effect = refl;
  tags = refl;
  remediation_hint = refl;
}

other : ◌≢◌ {A = String} "infra" "team-a"
other = ground (arith, eq_iff "infra" "team-a")

another : ◌≢◌ {A = String} "payments" "team-a"
another = ground (arith, eq_iff "payments" "team-a")

placed : ◌≢◌ {A = String} "infra" ""
placed = ground (arith, eq_iff "infra" "")

own_steps : policy.remediation ≢ []
own_steps = λ e. cc

-- Policies without steps of their own.
abbrev bare : Constraint → Constraint
bare c = record c { remediation = [] }

bare_alike : LooksLike (bare policy) (bare twin)
bare_alike = record {
  uid = refl;
  source = refl;
  constraint_type = refl;
  severity = refl;
  effect = refl;
  tags = refl;
  remediation_hint = refl;
}

build_structured_data-summary_example :
    without_steps (
      build_structured_data outside (bare policy) detail_level_summary web (build rb (bare policy)))
    ≡ without_steps
        (build_structured_data outside (bare twin) detail_level_summary web (build rb (bare twin)))
build_structured_data-summary_example =
    build_structured_data-summary outside web (bare policy) (bare twin) rb bare_alike other another

-- A limiter that refuses nothing.
abbrev open_rate : RateLimiter
open_rate = record { State = Unit {0}; start = λ _ _. tt; allow = λ _ s. (s, true) }

abbrev notification : CorrelatedNotification
notification = record {
  event = record {
    uid = "e";
    involved_namespace = "team-a";
    involved_name = "web";
    involved_kind = "Deployment";
  };
  constraint = policy;
  namespace = "team-a";
  workload_name = "web";
  workload_kind = "Deployment";
}

abbrev works : Turn
works = record { outside = outside; create_error = none }

abbrev idle : Dispatcher open_rate
idle = record {
  ns_limiter = record { limiters = []; last_access = []; per_minute = 100; burst = 10 };
  dedupe_cache = [];
  events = [];
}

dispatch-private_example :
    dispatch default_dispatcher_options works notification idle
    ≡ dispatch default_dispatcher_options works (record notification { constraint = twin }) idle
dispatch-private_example =
    dispatch-private default_dispatcher_options works notification twin idle alike own_steps refl
      other another

kebab : to_kebab_case "NetworkEgress" ≡ "network-egress"
unfolding to_kebab_case
kebab = refl

kind : gvr_to_kind policy.source ≡ "Networkpolicy"
unfolding gvr_to_kind capitalize cut_suffix
kind = refl

stripped : config_name "istio-validator-webhook" ≡ "istio-validator"
unfolding config_name
stripped = refl
