-- ===== src/Node/Filter.antt =====
-- internal/node/nodeutil/filter.go: the filters of pod events; a filter is a test of a pod.
use virtual_kubelet_cmd.Base.{
  String, Bool, true, false, List, [], ◌∷◌, ◌==◌, ◌||◌, ◌≡◌, refl, string_equality, if◌then◌else◌,
  ◌++◌, arith,
}
use virtual_kubelet_cmd.Kube.{Pod}

abbrev pub PodEventFilter : Type 0
PodEventFilter = Pod → Bool

-- FilterPodsForNodeName
unfoldable pub filter_pods_for_node_name : String → PodEventFilter
filter_pods_for_node_name name p = p.node_name == name

-- PodFilters: the first filter that passes ends the loop.
unfoldable pub pod_filters : List PodEventFilter → PodEventFilter
pod_filters [] p = false
pod_filters (f ∷ fs) p = if f p then true else pod_filters fs p

-- The filters of two lists pass a pod exactly when those of one of them do.
pub pod_filters-append :
    (fs gs : List PodEventFilter) (p : Pod)
    → pod_filters (fs ++ gs) p ≡ (pod_filters fs p || pod_filters gs p)
unfolding pod_filters
pod_filters-append [] gs p = refl
pod_filters-append (f ∷ fs) gs p = ground (arith, pod_filters-append fs gs p)
