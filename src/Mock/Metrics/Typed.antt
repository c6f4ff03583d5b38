-- ===== src/Mock/Metrics/Typed.antt =====
-- The types of the families.
use virtual_kubelet_cmd.Base.{
  some_injective, String, Bool, true, false, Option, some, List, [], ◌∷◌, ◌++◌, ℤ, ◌≡◌, refl, inl,
  inr, Bool-cases, Option-cases, All, All-append, subst, sym, string_equality, nat_equality,
  if◌then◌else◌, ◌==◌,
}
use virtual_kubelet_cmd.Base.Dict.{Dict, find, insert}
use virtual_kubelet_cmd.Host.{Host}
use virtual_kubelet_cmd.Kube.{Container, Pod}
use virtual_kubelet_cmd.Mock.Meters.{Meters, pgid_file, get_pgids_from_pod, container_values}
use virtual_kubelet_cmd.Mock.Metrics.{
  Metric, MetricsMap, MetricFamily, get_metric_type, add_metric_to_map, skips, is_running, families,
  metrics_of, get_metrics_resource,
}
use virtual_kubelet_cmd.Mock.Metrics.Exposed.{
  Samples, samples, container_samples, pod_samples, pods_samples, add_all, metrics_of-samples,
}

module _ {F : Type 0} where
  -- The sample has the type that getMetricType gives for its name.
  abbrev IsTyped : String → Metric F → Type 0
  IsTyped name s = get_metric_type name ≡ some s.kind

  abbrev AreTyped : Samples F → Type 0
  AreTyped ss = All (λ x. IsTyped x.0 x.1) ss

  abbrev MapIsTyped : MetricsMap F → Type 0
  MapIsTyped m = All (λ x. All (IsTyped x.0) x.1) m

  -- Every metric of a family has the type of the family.
  abbrev pub FamilyIsTyped : MetricFamily F → Type 0
  FamilyIsTyped f = All (λ (s : Metric F). f.type ≡ some s.kind) f.metrics

  containers-AreTyped :
      (h : Host) (mt : Meters F) (node : String) (p : Pod) (g : Dict String ℤ) (cs : List Container)
      → AreTyped (container_samples h mt node p g cs)
  unfolding get_metric_type
  containers-AreTyped h mt node p g [] = tt
  containers-AreTyped h mt node p g (c ∷ cs) = elim (Bool-cases (skips p c)) [
    | inl e ↦ rw (container_samples, e) (containers-AreTyped h mt node p g cs)
    | inr e ↦ elim (Option-cases (container_values h mt (pgid_file h p c))) [
      | inl f ↦ rw (container_samples, e, f) tt
      | inr (v, f) ↦
          rw (container_samples, e, f) (refl, (refl, containers-AreTyped h mt node p g cs))
    ]
  ]

  pod-AreTyped :
      (h : Host) (mt : Meters F) (node : String) (p : Pod) → AreTyped (pod_samples h mt node p)
  unfolding get_metric_type
  pod-AreTyped h mt node p = elim (Option-cases (get_pgids_from_pod h p)) [
    | inl f ↦ rw (pod_samples, f) tt
    | inr ((pgids, g), f) ↦
        rw (pod_samples, f) (refl, (refl, containers-AreTyped h mt node p g p.containers))
  ]

  pods-AreTyped :
      (h : Host) (mt : Meters F) (node : String) (ps : Dict String Pod)
      → AreTyped (pods_samples h mt node ps)
  pods-AreTyped h mt node [] = tt
  pods-AreTyped h mt node ((k, p) ∷ ps) = elim (Bool-cases (is_running p.status.phase)) [
    | inl e ↦ rw e (
        All-append (λ x. IsTyped x.0 x.1) (pod_samples h mt node p) (pods_samples h mt node ps)
          (pod-AreTyped h mt node p) (pods-AreTyped h mt node ps))
    | inr e ↦ rw e (pods-AreTyped h mt node ps)
  ]

  insert-MapIsTyped :
      (name : String) (ms : List (Metric F)) (m : MetricsMap F)
      → All (IsTyped name) ms
      → MapIsTyped m
      → MapIsTyped (insert name ms m)
  unfolding insert
  insert-MapIsTyped name ms [] a h = (a, tt)
  insert-MapIsTyped name ms ((n, ns) ∷ m) a (b, h) = elim (Bool-cases (n == name)) [
    | inl e ↦ rw (insert, e) (a, h)
    | inr e ↦ rw (insert, e) (b, insert-MapIsTyped name ms m a h)
  ]

  here :
      (n : String) (ns : List (Metric F)) (name : String) (q : Bool)
      {rest : Option (List (Metric F))} {ms : List (Metric F)}
      → ((q ≡ true) → n ≡ name)
      → (if q then some ns else rest) ≡ some ms
      → All (IsTyped n) ns
      → ((rest ≡ some ms) → All (IsTyped name) ms)
      → All (IsTyped name) ms
  here n ns name true {ms = ms} e f b k =
      subst (λ x. All (IsTyped x) ms) (e refl) (subst (All (IsTyped n)) (some_injective f) b)
  here n ns name false e f b k = k f

  find-MapIsTyped :
      (name : String) (ms : List (Metric F)) (m : MetricsMap F)
      → find name m ≡ some ms
      → MapIsTyped m
      → All (IsTyped name) ms
  unfolding find
  find-MapIsTyped name ms [] f h = cc
  find-MapIsTyped name ms ((n, ns) ∷ m) f (b, h) =
      here n ns name (n == name) (λ q. (string_equality.same_iff n name).0 q) f b
        (λ g. find-MapIsTyped name ms m g h)

  add-MapIsTyped :
      (name : String) (s : Metric F) (m : MetricsMap F)
      → IsTyped name s
      → MapIsTyped m
      → MapIsTyped (add_metric_to_map name s m)
  unfolding add_metric_to_map
  add-MapIsTyped name s m t h = elim (Option-cases (find name m)) [
    | inl e ↦ rw (add_metric_to_map, e) (insert-MapIsTyped name (s ∷ []) m (t, tt) h)
    | inr (ms, e) ↦
        let old = find-MapIsTyped name ms m e h in
        rw (add_metric_to_map, e)
          (insert-MapIsTyped name (ms ++ s ∷ []) m
            (All-append (IsTyped name) ms (s ∷ []) old (t, tt)) h)
  ]

  add_all-MapIsTyped :
      (ss : Samples F) (m : MetricsMap F) → AreTyped ss → MapIsTyped m → MapIsTyped (add_all ss m)
  unfolding add_all
  add_all-MapIsTyped [] m t h = h
  add_all-MapIsTyped ((name, s) ∷ ss) m (t, ts) h =
      add_all-MapIsTyped ss (add_metric_to_map name s m) ts (add-MapIsTyped name s m t h)

  families-AreTyped : (m : MetricsMap F) → MapIsTyped m → All FamilyIsTyped (families m)
  unfolding families
  families-AreTyped [] h = tt
  families-AreTyped ((name, ms) ∷ m) (t, h) = (t, families-AreTyped m h)

  -- Every metric that GetMetricsResource gives has the type of its family, which is not nil.
  pub get_metrics_resource-IsTyped :
      (h : Host) (mt : Meters F) (node : String) (pods : Dict String Pod)
      → All FamilyIsTyped (get_metrics_resource h mt node pods)
  unfolding get_metrics_resource get_metric_type
  get_metrics_resource-IsTyped h mt node pods = families-AreTyped (metrics_of h mt node pods) (
      subst MapIsTyped (sym (metrics_of-samples h mt node pods)) (
        add_all-MapIsTyped (samples h mt node pods) [] (refl, (refl, pods-AreTyped h mt node pods))
          tt))
