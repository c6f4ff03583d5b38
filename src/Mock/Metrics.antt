-- ===== src/Mock/Metrics.antt =====
-- internal/provider/mock/monitor.go and mock.go: the metrics of the node, the pods and the containers.
-- A label pair and the values that
-- a metric points to are written once and stand for themselves.
pub mod Exposed
pub mod Typed
use virtual_kubelet_cmd.Base.{
  ℕ, String, Bool, true, false, Option, none, some, List, [], ◌∷◌, ◌++◌, ℤ, pos, ◌==◌, ◌||◌, ◌&&◌,
  int_equality, nat_equality, string_equality, if◌then◌else◌, ◌<>◌, codes, is_some,
}
use virtual_kubelet_cmd.Base.Dict.{Dict, find, insert, find_or}
use virtual_kubelet_cmd.Host.{Host}
use virtual_kubelet_cmd.Kube.{Container, ContainerStatus, Phase, Pod}
use virtual_kubelet_cmd.Mock.Meters.{
  Meters, pgid_file, get_pgids_from_pod, node_values, get_node_stats, sum_groups, container_values,
}
use virtual_kubelet_cmd.Mock.Monitor.{status_named, has_terminated}

-- dto.MetricType, as far as it is used
pub data MetricType : Type 0 where
  counter : MetricType
  gauge : MetricType

pub record Metric (F : Type 0) : Type 0 where
  pub labels : List (String × String)
  pub kind : MetricType
  pub value : F

pub record MetricFamily (F : Type 0) : Type 0 where
  pub name : String
  pub type : Option MetricType
  pub metrics : List (Metric F)

abbrev pub MetricsMap : Type 0 → Type 0
MetricsMap F = Dict String (List (Metric F))

-- getContainerStatus
unfoldable pub get_container_status : Pod → String → Option ContainerStatus
get_container_status p name = status_named name p.status.container_statuses

abbrev pub cpu_metric_suffix : String
cpu_metric_suffix = "_cpu_usage_seconds_total"

abbrev pub memory_metric_suffix : String
memory_metric_suffix = "_memory_working_set_bytes"

abbrev same_codes : List ℕ → List ℕ → Bool
same_codes [] [] = true
same_codes (c ∷ cs) (d ∷ ds) = c == d && same_codes cs ds
same_codes _ _ = false

-- strings.HasSuffix, on character codes
abbrev pub has_suffix : List ℕ → List ℕ → Bool
has_suffix [] suffix = same_codes [] suffix
has_suffix (c ∷ cs) suffix = same_codes (c ∷ cs) suffix || has_suffix cs suffix

-- getMetricType
unfoldable pub get_metric_type : String → Option MetricType
get_metric_type name =
    if has_suffix (codes name) (codes cpu_metric_suffix)
    then some counter
    else if has_suffix (codes name) (codes memory_metric_suffix)
    then some gauge
    else none

module _ {F : Type 0} where
  -- addMetricToMap
  unfoldable pub add_metric_to_map : String → Metric F → MetricsMap F → MetricsMap F
  add_metric_to_map name new m = elim (find name m) [
    | none ↦ insert name (new ∷ []) m
    | some metrics ↦ insert name (metrics ++ new ∷ []) m
  ]

  -- The end of each of the three generators: the CPU metric, then the memory metric.
  unfoldable pub add_cpu_and_memory :
      String → List (String × String) → F × F → MetricsMap F → MetricsMap F
  unfolding add_metric_to_map
  add_cpu_and_memory resource_type labels (cpu, memory) m =
      add_metric_to_map (resource_type <> memory_metric_suffix)
        (record { labels = labels; kind = gauge; value = memory })
        (add_metric_to_map (resource_type <> cpu_metric_suffix)
          (record { labels = labels; kind = counter; value = cpu }) m)

  -- generateNodeMetrics, on the map that is nil.
  unfoldable pub generate_node_metrics : Meters F → String → List (String × String) → MetricsMap F
  unfolding get_node_stats add_cpu_and_memory
  generate_node_metrics mt resource_type labels =
      add_cpu_and_memory resource_type labels (node_values mt (get_node_stats mt)) []

  -- generatePodMetrics, on a map that was made: none is the pair of nil maps.
  unfoldable pub generate_pod_metrics :
      Host
      → Meters F
      → Pod
      → MetricsMap F
      → String
      → List (String × String)
      → Option (MetricsMap F × Dict String ℤ)
  unfolding get_pgids_from_pod sum_groups add_cpu_and_memory
  generate_pod_metrics h mt p m resource_type labels = elim (get_pgids_from_pod h p) [
    | none ↦ none
    | some (pgids, pgid_map) ↦ some (
      add_cpu_and_memory resource_type labels (sum_groups h mt pgids (mt.zero_float, mt.zero_float))
          m,
      pgid_map,
    )
  ]

abbrev pub skips : Pod → Container → Bool
skips p c = elim (get_container_status p c.name) [ none ↦ false | some st ↦ has_terminated st ]

abbrev pub container_labels :
    Host → String → Pod → Dict String ℤ → Container → List (String × String)
container_labels h node p pgid_map c =
    ("node", node)
    ∷ ("container", c.name)
    ∷ ("namespace", p.namespace)
    ∷ ("pod", p.name)
    ∷ ("pgid", h.itoa (find_or (pos 0) c.name pgid_map))
    ∷ []

abbrev pub is_running : Phase → Bool
is_running Phase.running = true
is_running _ = false

abbrev pub pod_labels : String → Pod → List (String × String)
pod_labels node p = ("node", node) ∷ ("namespace", p.namespace) ∷ ("pod", p.name) ∷ []

-- What the `metricsMap` that is declared in the loop over the pods holds: the map of the whole call,
-- which it shares, nil, or a map of its own.
pub data Inner (F : Type 0) : Type 0 where
  shared : Inner F
  nil_map : Inner F
  own : MetricsMap F → Inner F

-- The `metricsMap` of the whole call, and that of the loop.
pub record Maps (F : Type 0) : Type 0 where
  pub outer : MetricsMap F
  pub inner : Inner F

module _ {F : Type 0} where
  -- A write to the map of the loop, which is made first where it is nil.
  abbrev pub write_inner : (MetricsMap F → MetricsMap F) → MetricsMap F → Inner F → Maps F
  write_inner f m shared = record { outer = f m; inner = shared }
  write_inner f m nil_map = record { outer = m; inner = own (f []) }
  write_inner f m (own n) = record { outer = m; inner = own (f n) }

  -- generateContainerMetrics
  unfoldable pub generate_container_metrics :
      Host → Meters F → Maps F → String → List (String × String) → String → Maps F
  unfolding container_values add_cpu_and_memory
  generate_container_metrics h mt maps resource_type labels file =
      elim (container_values h mt file) [
        | none ↦ record maps { inner = nil_map }
        | some v ↦ write_inner (add_cpu_and_memory resource_type labels v) maps.outer maps.inner
      ]

  -- The loop over the containers of a pod.
  unfoldable pub containers_metrics :
      Host → Meters F → String → Pod → Dict String ℤ → List Container → Maps F → Maps F
  unfolding get_container_status generate_container_metrics
  containers_metrics h mt node p pgid_map [] maps = maps
  containers_metrics h mt node p pgid_map (c ∷ cs) maps =
      containers_metrics h mt node p pgid_map cs (
        if skips p c
        then maps
        else generate_container_metrics h mt maps "container" (container_labels h node p pgid_map c)
            (pgid_file h p c))

  -- One round of the loop over the pods: only what it leaves in the map of the whole call is kept.
  unfoldable pub pod_metrics : Host → Meters F → String → Pod → MetricsMap F → MetricsMap F
  unfolding generate_pod_metrics containers_metrics
  pod_metrics h mt node p m =
      if is_running p.status.phase
      then (elim (generate_pod_metrics h mt p m "pod" (pod_labels node p)) [
        | none ↦
            (containers_metrics h mt node p [] p.containers
              (record { outer = m; inner = nil_map })).outer
        | some (m', pgid_map) ↦
            (containers_metrics h mt node p pgid_map p.containers
              (record { outer = m'; inner = shared })).outer
      ])
      else m

  unfoldable pub pods_metrics :
      Host → Meters F → String → Dict String Pod → MetricsMap F → MetricsMap F
  unfolding pod_metrics
  pods_metrics h mt node [] m = m
  pods_metrics h mt node ((k, p) ∷ ps) m = pods_metrics h mt node ps (pod_metrics h mt node p m)

  -- The map at the end of the loops of GetMetricsResource.
  unfoldable pub metrics_of : Host → Meters F → String → Dict String Pod → MetricsMap F
  unfolding generate_node_metrics pods_metrics
  metrics_of h mt node pods =
      pods_metrics h mt node pods (generate_node_metrics mt "node" (("node", node) ∷ []))

  -- The loop that turns the map into families.
  unfoldable pub families : MetricsMap F → List (MetricFamily F)
  unfolding get_metric_type
  families [] = []
  families ((name, metrics) ∷ m) =
      record { name = name; type = get_metric_type name; metrics = metrics } ∷ families m

  -- GetMetricsResource, which returns no error.
  unfoldable pub get_metrics_resource :
      Host → Meters F → String → Dict String Pod → List (MetricFamily F)
  unfolding metrics_of families
  get_metrics_resource h mt node pods = families (metrics_of h mt node pods)
