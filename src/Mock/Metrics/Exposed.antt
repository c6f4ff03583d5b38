-- ===== src/Mock/Metrics/Exposed.antt =====
-- What the metrics show: the samples, one after the other.
use virtual_kubelet_cmd.Base.{
  String, none, some, List, [], ◌∷◌, ◌++◌, ℤ, ◌==◌, ◌≡◌, refl, inl, inr, Bool-cases, Option-cases,
  int_equality, string_equality, if◌then◌else◌, ◌<>◌, sym, ap, ◌∙◌, arith, subst,
}
use mathlib.Core.List.{append-nil, append_assoc}
use virtual_kubelet_cmd.Base.Dict.{Dict, find, find_or, find-insert}
use virtual_kubelet_cmd.Host.{Host}
use virtual_kubelet_cmd.Kube.{Container, Pod}
use virtual_kubelet_cmd.Mock.Meters.{
  Meters, pgid_file, get_pgids_from_pod, node_values, get_node_stats, sum_groups, container_values,
}
use virtual_kubelet_cmd.Mock.Metrics.{
  Metric, MetricsMap, counter, gauge, cpu_metric_suffix, memory_metric_suffix, add_metric_to_map,
  add_cpu_and_memory, generate_node_metrics, generate_pod_metrics, shared, nil_map, own,
  generate_container_metrics, skips, container_labels, containers_metrics, is_running, pod_labels,
  pod_metrics, pods_metrics, metrics_of, MetricFamily, families, get_metrics_resource,
}

abbrev pub Samples : Type 0 → Type 0
Samples F = List (String × Metric F)

module _ {F : Type 0} where
  -- The two samples of a resource.
  abbrev pub pair_of : String → List (String × String) → F × F → Samples F
  pair_of resource_type labels (cpu, memory) =
      (resource_type <> cpu_metric_suffix, record { labels = labels; kind = counter; value = cpu })
      ∷ (
        resource_type <> memory_metric_suffix,
        record { labels = labels; kind = gauge; value = memory },
      )
      ∷ []

  -- The samples of the containers that have not terminated, up to the first one that cannot be measured.
  abbrev pub container_samples :
      Host → Meters F → String → Pod → Dict String ℤ → List Container → Samples F
  container_samples h mt node p pgid_map [] = []
  container_samples h mt node p pgid_map (c ∷ cs) =
      if skips p c
      then container_samples h mt node p pgid_map cs
      else (elim (container_values h mt (pgid_file h p c)) [
        | none ↦ []
        | some v ↦
            pair_of "container" (container_labels h node p pgid_map c) v
            ++ container_samples h mt node p pgid_map cs
      ])

  -- The samples of a pod: none of it where a group cannot be read.
  abbrev pub pod_samples : Host → Meters F → String → Pod → Samples F
  pod_samples h mt node p = elim (get_pgids_from_pod h p) [
    | none ↦ []
    | some (pgids, pgid_map) ↦
        pair_of "pod" (pod_labels node p) (sum_groups h mt pgids (mt.zero_float, mt.zero_float))
        ++ container_samples h mt node p pgid_map p.containers
  ]

  abbrev pub pods_samples : Host → Meters F → String → Dict String Pod → Samples F
  pods_samples h mt node [] = []
  pods_samples h mt node ((k, p) ∷ ps) =
      (if is_running p.status.phase then pod_samples h mt node p else [])
      ++ pods_samples h mt node ps

  abbrev pub samples : Host → Meters F → String → Dict String Pod → Samples F
  samples h mt node pods =
      pair_of "node" (("node", node) ∷ []) (node_values mt (get_node_stats mt))
      ++ pods_samples h mt node pods

  -- The samples of one family, in order.
  abbrev pub of_family : String → Samples F → List (Metric F)
  of_family name [] = []
  of_family name ((n, s) ∷ rest) =
      if n == name then s ∷ of_family name rest else of_family name rest

  unfoldable pub add_all : Samples F → MetricsMap F → MetricsMap F
  add_all [] m = m
  add_all ((name, s) ∷ rest) m = add_all rest (add_metric_to_map name s m)

  add_all-append :
      (xs ys : Samples F) (m : MetricsMap F) → add_all (xs ++ ys) m ≡ add_all ys (add_all xs m)
  unfolding add_all
  add_all-append [] ys m = refl
  add_all-append ((name, s) ∷ rest) ys m = add_all-append rest ys (add_metric_to_map name s m)

  add_pair :
      (r : String) (labels : List (String × String)) (v : F × F) (m : MetricsMap F)
      → add_cpu_and_memory r labels v m ≡ add_all (pair_of r labels v) m
  unfolding add_cpu_and_memory add_all
  add_pair r labels (cpu, memory) m = refl

  -- A map that is not that of the whole call leaves that one alone.
  containers_outside :
      (h : Host) (mt : Meters F) (node : String) (p : Pod) (g : Dict String ℤ) (cs : List Container)
      (m : MetricsMap F)
      → ((containers_metrics h mt node p g cs (record { outer = m; inner = nil_map })).outer ≡ m)
        × ((o : MetricsMap F)
            → (containers_metrics h mt node p g cs (record { outer = m; inner = own o })).outer ≡ m)
  unfolding containers_metrics generate_container_metrics
  containers_outside h mt node p g [] m = (refl, λ o. refl)
  containers_outside h mt node p g (c ∷ cs) m =
      let r = containers_outside h mt node p g cs m in
      elim (Bool-cases (skips p c)) [
        | inl e ↦ rw (containers_metrics, e) r
        | inr e ↦ elim (Option-cases (container_values h mt (pgid_file h p c))) [
          | inl f ↦ rw (containers_metrics, generate_container_metrics, e, f) (r.0, λ o. r.0)
          | inr (v, f) ↦
              rw (containers_metrics, generate_container_metrics, e, f) (r.1 _, λ o. r.1 _)
        ]
      ]

  containers_shared :
      (h : Host) (mt : Meters F) (node : String) (p : Pod) (g : Dict String ℤ) (cs : List Container)
      (m : MetricsMap F)
      → (containers_metrics h mt node p g cs (record { outer = m; inner = shared })).outer
        ≡ add_all (container_samples h mt node p g cs) m
  unfolding containers_metrics generate_container_metrics add_all
  containers_shared h mt node p g [] m = refl
  containers_shared h mt node p g (c ∷ cs) m = elim (Bool-cases (skips p c)) [
    | inl e ↦ rw (containers_metrics, e) (containers_shared h mt node p g cs m)
    | inr e ↦ elim (Option-cases (container_values h mt (pgid_file h p c))) [
      | inl f ↦
          rw (containers_metrics, generate_container_metrics, e, f)
            (containers_outside h mt node p g cs m).0
      | inr (v, f) ↦
          let new = pair_of "container" (container_labels h node p g c) v in
          rw
            (
              containers_metrics,
              generate_container_metrics,
              e,
              f,
              add_all-append new (container_samples h mt node p g cs) m,
            )
            (containers_shared h mt node p g cs (add_all new m))
    ]
  ]

  pod_metrics_samples :
      (h : Host) (mt : Meters F) (node : String) (p : Pod) (m : MetricsMap F)
      → pod_metrics h mt node p m
        ≡ add_all (if is_running p.status.phase then pod_samples h mt node p else []) m
  unfolding pod_metrics generate_pod_metrics add_all
  pod_metrics_samples h mt node p m = elim (Bool-cases (is_running p.status.phase)) [
    | inr e ↦ rw e refl
    | inl e ↦ elim (Option-cases (get_pgids_from_pod h p)) [
      | inl f ↦
          rw (e, generate_pod_metrics, pod_samples, f)
            (containers_outside h mt node p [] p.containers m).0
      | inr ((pgids, g), f) ↦
          let new =
            pair_of "pod" (pod_labels node p)
              (sum_groups h mt pgids (mt.zero_float, mt.zero_float)) in
          rw
            (
              e,
              generate_pod_metrics,
              pod_samples,
              f,
              add_all-append new (container_samples h mt node p g p.containers) m,
            )
            (containers_shared h mt node p g p.containers (add_all new m))
    ]
  ]

  pods_metrics_samples :
      (h : Host) (mt : Meters F) (node : String) (ps : Dict String Pod) (m : MetricsMap F)
      → pods_metrics h mt node ps m ≡ add_all (pods_samples h mt node ps) m
  unfolding pods_metrics add_all
  pods_metrics_samples h mt node [] m = refl
  pods_metrics_samples h mt node ((k, p) ∷ ps) m =
      let new = if is_running p.status.phase then pod_samples h mt node p else [] in
      rw (add_all-append new (pods_samples h mt node ps) m, pod_metrics_samples h mt node p m)
        (pods_metrics_samples h mt node ps (add_all new m))

  -- A family after a sample is added.
  find-add :
      (n name : String) (s : Metric F) (m : MetricsMap F)
      → find_or [] name (add_metric_to_map n s m)
        ≡ (if n == name then find_or [] name m ++ s ∷ [] else find_or [] name m)
  unfolding add_metric_to_map
  find-add n name s m = elim (Option-cases (find n m)) [
    | inl e ↦ elim (Bool-cases (n == name)) [
      | inl q ↦
          let e' = subst (λ x. find x m ≡ none) ((string_equality.same_iff n name).0 q) e in
          rw (add_metric_to_map, e, find-insert n name (s ∷ []) m, q, e') refl
      | inr q ↦ rw (add_metric_to_map, e, find-insert n name (s ∷ []) m, q) refl
    ]
    | inr (ms, e) ↦ elim (Bool-cases (n == name)) [
      | inl q ↦
          let e' = subst (λ x. find x m ≡ some ms) ((string_equality.same_iff n name).0 q) e in
          rw (add_metric_to_map, e, find-insert n name (ms ++ s ∷ []) m, q, e') refl
      | inr q ↦ rw (add_metric_to_map, e, find-insert n name (ms ++ s ∷ []) m, q) refl
    ]
  ]

  family-add_all :
      (name : String) (ss : Samples F) (m : MetricsMap F)
      → find_or [] name (add_all ss m) ≡ find_or [] name m ++ of_family name ss
  unfolding add_all
  family-add_all name [] m = sym (append-nil (find_or [] name m))
  family-add_all name ((n, s) ∷ ss) m = elim (Bool-cases (n == name)) [
    | inl q ↦
        rw (family-add_all name ss (add_metric_to_map n s m), find-add n name s m, q)
          (append_assoc (find_or [] name m) (s ∷ []) (of_family name ss))
    | inr q ↦ rw (family-add_all name ss (add_metric_to_map n s m), find-add n name s m, q) refl
  ]

  -- The metrics of the family with the name; none of them without such a family.
  abbrev pub family_named : String → List (MetricFamily F) → List (Metric F)
  family_named name [] = []
  family_named name (f ∷ fs) = if f.name == name then f.metrics else family_named name fs

  family_named-families :
      (name : String) (m : MetricsMap F) → family_named name (families m) ≡ find_or [] name m
  unfolding families find
  family_named-families name [] = refl
  family_named-families name ((n, ms) ∷ m) = ground (arith, family_named-families name m)

  pub metrics_of-samples :
      (h : Host) (mt : Meters F) (node : String) (pods : Dict String Pod)
      → metrics_of h mt node pods ≡ add_all (samples h mt node pods) []
  unfolding metrics_of generate_node_metrics add_all
  metrics_of-samples h mt node pods =
      let first = pair_of "node" (("node", node) ∷ []) (node_values mt (get_node_stats mt)) in
      let rest = pods_samples h mt node pods in
      pods_metrics_samples h mt node pods (add_all first []) ∙ sym (add_all-append first rest [])

  -- The family of any name holds the samples of that name in order: the node's, then, for each pod
  -- that is Running and whose groups can all be read, the pod's and those of its containers that
  -- have not terminated, up to the first container that cannot be measured.
  pub get_metrics_resource-samples :
      (h : Host) (mt : Meters F) (node : String) (pods : Dict String Pod) (name : String)
      → family_named name (get_metrics_resource h mt node pods)
        ≡ of_family name (samples h mt node pods)
  unfolding get_metrics_resource find
  get_metrics_resource-samples h mt node pods name =
      family_named-families name (metrics_of h mt node pods)
      ∙ ap (find_or [] name) (metrics_of-samples h mt node pods)
      ∙ family-add_all name (samples h mt node pods) []
