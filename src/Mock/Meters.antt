-- ===== src/Mock/Meters.antt =====
-- internal/provider/mock/monitor.go: what the metrics measure: the node, the processes of a group and
-- the groups of a pod. `F` is the type of float64 with the operations that the code uses.
pub mod Groups
pub mod Recorded
use virtual_kubelet_cmd.Base.{
  ℕ, String, Option, none, some, List, [], ◌∷◌, ℤ, ◌==◌, int_equality, if◌then◌else◌,
  string_equality,
}
use virtual_kubelet_cmd.Base.Dict.{Dict, insert}
use virtual_kubelet_cmd.Host.{Host}
use virtual_kubelet_cmd.Kube.{Container, Pod}
use virtual_kubelet_cmd.Mock.Process.{groups_of, belongs, checked}

-- The floats, and what gopsutil measures: cpu.Times(false) with the user and the system time of each
-- entry, mem.VirtualMemory().Used, and of a process Times() and MemoryInfo().RSS. none is an error.
pub record Meters (F : Type 0) : Type 0 where
  pub zero_float : F
  -- 0.0000001
  pub tiny : F
  pub add : F → F → F
  pub of_uint64 : ℕ → F
  pub cpu_times : Option (List (F × F))
  pub used_memory : Option ℕ
  pub process_times : ℤ → Option (F × F)
  pub process_rss : ℤ → Option ℕ

-- readPgidFromFile
unfoldable pub read_pgid_from_file : Host → String → Option ℤ
read_pgid_from_file h path = elim (h.first_line path) [
  | none ↦ none
  | some text ↦ checked (h.atoi text)
]

-- getPgidFromPgidFile
unfoldable pub get_pgid_from_pgid_file : Host → String → Option ℤ
get_pgid_from_pgid_file h path = elim (h.first_line path) [
  | none ↦ none
  | some text ↦ checked (h.atoi text)
]

-- appendUnique
unfoldable pub append_unique : List ℤ → ℤ → List ℤ
append_unique [] value = value ∷ []
append_unique (v ∷ vs) value = if v == value then v ∷ vs else v ∷ append_unique vs value

abbrev pub pgid_file : Host → Pod → Container → String
pgid_file h p c =
    h.path_join (h.getenv "HOME" ∷ p.namespace ∷ p.name ∷ "containers" ∷ c.name ∷ "pgid" ∷ [])

-- The loop of getPgidsFromPod over the containers, with the list and the map so far.
unfoldable pub pgids_from :
    Host → Pod → List Container → List ℤ → Dict String ℤ → Option (List ℤ × Dict String ℤ)
unfolding read_pgid_from_file append_unique
pgids_from h p [] pgids pgid_map = some (pgids, pgid_map)
pgids_from h p (c ∷ cs) pgids pgid_map = elim (read_pgid_from_file h (pgid_file h p c)) [
  | none ↦ none
  | some pgid ↦ pgids_from h p cs (append_unique pgids pgid) (insert c.name pgid pgid_map)
]

unfoldable pub get_pgids_from_pod : Host → Pod → Option (List ℤ × Dict String ℤ)
unfolding pgids_from
get_pgids_from_pod h p = pgids_from h p p.containers [] []

module _ {F : Type 0} where
  -- The sums over the CPU times.
  abbrev pub sum_cpu_times : Meters F → List (F × F) → F × F → F × F
  sum_cpu_times mt [] acc = acc
  sum_cpu_times mt ((user, system) ∷ ts) (u, s) =
      sum_cpu_times mt ts (mt.add u user, mt.add s system)

  -- getNodeStats: the user time, the system time and the used memory. On an error its caller reads
  -- nothing else.
  unfoldable pub get_node_stats : Meters F → Option (F × F × ℕ)
  get_node_stats mt = elim mt.cpu_times [
    | none ↦ none
    | some ts ↦ elim mt.used_memory [
      | none ↦ none
      | some used ↦
          let r = sum_cpu_times mt ts (mt.zero_float, mt.zero_float) in some (r.0, r.1, used)
    ]
  ]

  abbrev pub node_values : Meters F → Option (F × F × ℕ) → F × F
  node_values mt none = (mt.zero_float, mt.zero_float)
  node_values mt (some (user, system, used)) = (mt.add user system, mt.of_uint64 used)

  abbrev pub add_times : Meters F → Option (F × F) → F × F × F → F × F × F
  add_times mt none acc = acc
  add_times mt (some (user, system)) (u, s, rss) = (mt.add u user, mt.add s system, rss)

  abbrev pub add_rss : Meters F → Option ℕ → F × F × F → F × F × F
  add_rss mt none acc = acc
  add_rss mt (some n) (u, s, rss) = (u, s, mt.add rss (mt.of_uint64 n))

  -- One round of the loop over the processes: a process that is in the group, or whose parent is.
  unfoldable pub measure : Host → Meters F → ℤ → ℤ → F × F × F → F × F × F
  measure h mt pgid pid acc =
      if h.has_process pid
      then (elim (groups_of h pid) [
        | none ↦ acc
        | some g ↦
            if belongs pgid g
            then add_rss mt (mt.process_rss pid) (add_times mt (mt.process_times pid) acc)
            else acc
      ])
      else acc

  unfoldable pub measure_all : Host → Meters F → ℤ → List ℤ → F × F × F → F × F × F
  unfolding measure
  measure_all h mt pgid [] acc = acc
  measure_all h mt pgid (pid ∷ pids) acc = measure_all h mt pgid pids (measure h mt pgid pid acc)

  -- getProcessesMetrics: the user time, the system time and the RSS; the VMS is not read.
  unfoldable pub get_processes_metrics : Host → Meters F → ℤ → Option (F × F × F)
  unfolding measure_all
  get_processes_metrics h mt pgid = elim h.pids [
    | none ↦ none
    | some pids ↦ some (measure_all h mt pgid pids (mt.zero_float, mt.zero_float, mt.zero_float))
  ]

  abbrev pub add_group : Meters F → Option (F × F × F) → F × F → F × F
  add_group mt none acc = acc
  add_group mt (some (user, system, rss)) (cpu, memory) =
      (mt.add cpu (mt.add user system), mt.add memory rss)

  -- The loop of generatePodMetrics over the groups.
  unfoldable pub sum_groups : Host → Meters F → List ℤ → F × F → F × F
  unfolding get_processes_metrics
  sum_groups h mt [] acc = acc
  sum_groups h mt (g ∷ gs) acc =
      sum_groups h mt gs (add_group mt (get_processes_metrics h mt g) acc)

  -- The values of generateContainerMetrics; none where it returns a nil map.
  unfoldable pub container_values : Host → Meters F → String → Option (F × F)
  unfolding get_pgid_from_pgid_file get_processes_metrics
  container_values h mt file = elim (get_pgid_from_pgid_file h file) [
    | none ↦ none
    | some pgid ↦ elim (get_processes_metrics h mt pgid) [
      | none ↦ none
      | some (user, system, rss) ↦ some (mt.add (mt.add user system) mt.tiny, mt.add rss mt.tiny)
    ]
  ]
