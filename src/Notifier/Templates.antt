-- ===== src/Notifier/Templates.antt =====
-- internal/notifier/remediation.go: the YAML templates of `getMissingResourceTemplate`.
use nightjar.Prelude.{String, if◌then◌else◌, ◌==◌, string_eq}
use Prim.Native.String.{◌++◌}

abbrev service_monitor : String
service_monitor =
    "apiVersion: monitoring.coreos.com/v1\n" ++ "kind: ServiceMonitor\n" ++ "metadata:\n"
    ++ "  name: {workload_name}\n" ++ "  namespace: {namespace}\n" ++ "spec:\n" ++ "  selector:\n"
    ++ "    matchLabels:\n" ++ "      app: {workload_name}\n" ++ "  endpoints:\n"
    ++ "  - port: metrics\n" ++ "    interval: 30s"

abbrev virtual_service : String
virtual_service =
    "apiVersion: networking.istio.io/v1beta1\n" ++ "kind: VirtualService\n" ++ "metadata:\n"
    ++ "  name: {workload_name}\n" ++ "  namespace: {namespace}\n" ++ "spec:\n" ++ "  hosts:\n"
    ++ "  - {workload_name}\n" ++ "  http:\n" ++ "  - route:\n" ++ "    - destination:\n"
    ++ "        host: {workload_name}\n" ++ "        port:\n" ++ "          number: 80"

abbrev destination_rule : String
destination_rule =
    "apiVersion: networking.istio.io/v1beta1\n" ++ "kind: DestinationRule\n" ++ "metadata:\n"
    ++ "  name: {workload_name}\n" ++ "  namespace: {namespace}\n" ++ "spec:\n"
    ++ "  host: {workload_name}\n" ++ "  trafficPolicy:\n" ++ "    tls:\n"
    ++ "      mode: ISTIO_MUTUAL"

abbrev pod_disruption_budget : String
pod_disruption_budget =
    "apiVersion: policy/v1\n" ++ "kind: PodDisruptionBudget\n" ++ "metadata:\n"
    ++ "  name: {workload_name}\n" ++ "  namespace: {namespace}\n" ++ "spec:\n"
    ++ "  minAvailable: 1\n" ++ "  selector:\n" ++ "    matchLabels:\n"
    ++ "      app: {workload_name}"

abbrev horizontal_pod_autoscaler : String
horizontal_pod_autoscaler =
    "apiVersion: autoscaling/v2\n" ++ "kind: HorizontalPodAutoscaler\n" ++ "metadata:\n"
    ++ "  name: {workload_name}\n" ++ "  namespace: {namespace}\n" ++ "spec:\n"
    ++ "  scaleTargetRef:\n" ++ "    apiVersion: apps/v1\n" ++ "    kind: Deployment\n"
    ++ "    name: {workload_name}\n" ++ "  minReplicas: 2\n" ++ "  maxReplicas: 10\n"
    ++ "  metrics:\n" ++ "  - type: Resource\n" ++ "    resource:\n" ++ "      name: cpu\n"
    ++ "      target:\n" ++ "        type: Utilization\n" ++ "        averageUtilization: 80"

unfoldable pub get_missing_resource_template : String → String
get_missing_resource_template kind =
    if kind == "ServiceMonitor"
    then service_monitor
    else if kind == "VirtualService"
    then virtual_service
    else if kind == "DestinationRule"
    then destination_rule
    else if kind == "PodDisruptionBudget"
    then pod_disruption_budget
    else if kind == "HorizontalPodAutoscaler"
    then horizontal_pod_autoscaler
    else ""
