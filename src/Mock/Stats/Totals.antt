-- ===== src/Mock/Stats/Totals.antt =====
-- The totals of a pod.
use virtual_kubelet_cmd.Base.{
  ℕ, suc, String, List, [], ◌∷◌, ◌++◌, ◌+◌, ◌*◌, ◌^◌, ◌%◌, ◌<◌, ◌≤◌, ◌≡◌, refl, All, length, ◌∙◌,
  sym, arith,
}
use virtual_kubelet_cmd.Base.Dict.{Dict}
use virtual_kubelet_cmd.Kube.{Time, Container, Pod}
use virtual_kubelet_cmd.Mock.Stats.{
  ContainerStats, PodStats, container_stats, pod_stats, get_stats_summary,
}

abbrev total : (ContainerStats → ℕ) → List ContainerStats → ℕ
total f [] = 0
total f (c ∷ cs) = f c + total f cs

total-append :
    (f : ContainerStats → ℕ) (xs : List ContainerStats) (x : ContainerStats)
    → total f (xs ++ x ∷ []) ≡ total f xs + f x
total-append f [] x = omega arith
total-append f (y ∷ ys) x = omega (arith, total-append f ys x)

abbrev cores_of : ContainerStats → ℕ
cores_of c = c.usage_nano_cores

abbrev bytes_of : ContainerStats → ℕ
bytes_of c = c.usage_bytes

-- The totals of the pod are the sums over its containers.
abbrev pub IsTotal : PodStats → Type 0
IsTotal p =
    (p.usage_nano_cores ≡ total cores_of p.containers)
    × (p.usage_bytes ≡ total bytes_of p.containers)

abbrev AreTotals : ℕ × List ContainerStats × ℕ × ℕ → Type 0
AreTotals (next, done, cores, bytes) = (cores ≡ total cores_of done) × (bytes ≡ total bytes_of done)

-- The number of containers of a pod.
abbrev pub FitsPod : String × Pod → Type 0
FitsPod (k, p) = length p.containers ≤ 4294967296

adds :
    (u t r k l : ℕ)
    → u ≡ t
    → u ≤ 4294967295 * k
    → r < 4294967296
    → k + suc l ≤ 4294967296
    → ((u + r) % 2 ^ 64 ≡ t + r) × ((u + r) % 2 ^ 64 ≤ 4294967295 * (k + 1))
adds u t r k l e b c d = (omega (arith, e, b, c, d), omega (arith, e, b, c, d))

module _ (random : ℕ → ℕ) (small : (n : ℕ) → random n < 4294967296) (now : Time) where
  container_stats-AreTotals :
      (cs : List Container) (next : ℕ) (done : List ContainerStats) (cores bytes k : ℕ)
      → (cores ≡ total cores_of done) × (bytes ≡ total bytes_of done)
      → (cores ≤ 4294967295 * k) × (bytes ≤ 4294967295 * k)
      → k + length cs ≤ 4294967296
      → AreTotals (container_stats random now cs (next, done, cores, bytes))
  unfolding container_stats
  container_stats-AreTotals [] next done cores bytes k (a, b) (c, d) l = (a, b)
  container_stats-AreTotals (x ∷ cs) next done cores bytes k (a, b) (c, d) l =
      let st : ContainerStats = record {
        name = x.name;
        time = now;
        usage_nano_cores = random next;
        usage_bytes = random (next + 1);
      } in
      let r = adds cores (total cores_of done) (random next) k (length cs) a c (small next) l in
      let s =
        adds bytes (total bytes_of done) (random (next + 1)) k (length cs) b d (small (next + 1))
          l in
      container_stats-AreTotals cs (next + 2) (done ++ st ∷ []) ((cores + random next) % 2 ^ 64)
        ((bytes + random (next + 1)) % 2 ^ 64) (k + 1)
        (r.0 ∙ sym (total-append cores_of done st), s.0 ∙ sym (total-append bytes_of done st))
        (r.1, s.1) (omega (arith, l))

  pod_stats-AreTotals :
      (pods : Dict String Pod) (next : ℕ)
      → All FitsPod pods
      → All IsTotal (pod_stats random now pods next)
  unfolding pod_stats
  pod_stats-AreTotals [] next h = tt
  pod_stats-AreTotals ((k, p) ∷ ps) next (l, h) = (
    container_stats-AreTotals p.containers next [] 0 0 0 (refl, refl) (omega arith, omega arith)
        (omega (arith, l)),
    pod_stats-AreTotals ps (container_stats random now p.containers (next, [], 0, 0)).0 h,
  )

-- When every draw is below 2^32 and no pod has more than 2^32 containers, the totals of each pod in
-- the summary are the sums of the usages of its containers: no addition of uint64 wraps around.
pub get_stats_summary-AreTotals :
    (random : ℕ → ℕ) (now : Time) (node : String) (start : Time) (pods : Dict String Pod)
    → ((n : ℕ) → random n < 4294967296)
    → All FitsPod pods
    → All IsTotal (get_stats_summary random now node start pods).pods
unfolding get_stats_summary
get_stats_summary-AreTotals random now node start pods small h =
    pod_stats-AreTotals random small now pods 0 h
