-- ===== src/Mock/Stats.antt =====
-- internal/provider/mock/mock.go: GetStatsSummary, which draws the usage of each container at random.
-- `random` gives the draws of rand.Uint32 by their number.
pub mod Totals
use virtual_kubelet_cmd.Base.{ℕ, String, List, [], ◌∷◌, ◌++◌, ◌+◌, ◌%◌, ◌^◌}
use virtual_kubelet_cmd.Base.Dict.{Dict}
use virtual_kubelet_cmd.Kube.{Time, Container, Pod}

-- stats.ContainerStats, with the usage of the CPU and of the memory
pub record ContainerStats : Type 0 where
  pub name : String
  pub time : Time
  pub usage_nano_cores : ℕ
  pub usage_bytes : ℕ

pub record PodStats : Type 0 where
  pub name : String
  pub namespace : String
  pub uid : String
  pub containers : List ContainerStats
  pub time : Time
  pub usage_nano_cores : ℕ
  pub usage_bytes : ℕ

pub record Summary : Type 0 where
  pub node_name : String
  pub node_start_time : Time
  pub pods : List PodStats

-- The loop over the containers: the next draw, the stats and the two totals so far, as uint64.
unfoldable pub container_stats :
    (ℕ → ℕ)
    → Time
    → List Container
    → ℕ × List ContainerStats × ℕ × ℕ
    → ℕ × List ContainerStats × ℕ × ℕ
container_stats random now [] acc = acc
container_stats random now (c ∷ cs) (next, done, cores, bytes) = container_stats random now cs (
  next + 2,
  done
      ++ record {
        name = c.name;
        time = now;
        usage_nano_cores = random next;
        usage_bytes = random (next + 1);
      }
        ∷ [],
  (cores + random next) % 2 ^ 64,
  (bytes + random (next + 1)) % 2 ^ 64,
)

abbrev pub stats_of : Time → Pod → ℕ × List ContainerStats × ℕ × ℕ → PodStats
stats_of now p (next, done, cores, bytes) = record {
  name = p.name;
  namespace = p.namespace;
  uid = p.uid;
  containers = done;
  time = now;
  usage_nano_cores = cores;
  usage_bytes = bytes;
}

-- The loop over the pods.
unfoldable pub pod_stats : (ℕ → ℕ) → Time → Dict String Pod → ℕ → List PodStats
unfolding container_stats
pod_stats random now [] next = []
pod_stats random now ((k, p) ∷ ps) next =
    let r = container_stats random now p.containers (next, [], 0, 0) in
    stats_of now p r ∷ pod_stats random now ps r.0

-- GetStatsSummary, which returns no error.
unfoldable pub get_stats_summary : (ℕ → ℕ) → Time → String → Time → Dict String Pod → Summary
unfolding pod_stats
get_stats_summary random now node_name start_time pods = record {
  node_name = node_name;
  node_start_time = start_time;
  pods = pod_stats random now pods 0;
}
