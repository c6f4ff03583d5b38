-- ===== src/Mock/Kill/Channel/Blocked.antt =====
-- What is never sent when the goroutines of deletePod have more errors than its channel and its loop
-- take.
use virtual_kubelet_cmd.Base.{
  ℕ, ◌+◌, ◌*◌, ◌≤◌, ◌<◌, List, [], ◌∷◌, ◌≡◌, refl, arith, length, length-append,
}
use virtual_kubelet_cmd.Disk.{Disk}
use virtual_kubelet_cmd.Host.{Host}
use virtual_kubelet_cmd.Kube.{ContainerStatus, Pod}
use virtual_kubelet_cmd.Mock.Kill.{Signals, delete_container, delete_containers, reports}
use virtual_kubelet_cmd.Mock.Kill.Reads.{length-reports}
use virtual_kubelet_cmd.Mock.Kill.Sends.{Sequence}
use virtual_kubelet_cmd.Mock.Kill.Channel.{
  Reader, reading, returned, State, Step, sends, takes_nil, takes_error, closes, Reach, here, next,
  started, AreOrders,
}
use virtual_kubelet_cmd.Mock.Kill.Channel.Returns.{total, Sends-total, length-perm}

abbrev reads_left : Reader → ℕ
reads_left (reading k) = k
reads_left (returned r) = 0

-- Of `all` sends at most `n` are read, and at most `n` are in the channel.
abbrev IsBounded : ℕ → ℕ → State → Type 0
IsBounded n all s =
    (all + reads_left s.reader ≤ total s.left + length s.buffer + n) × (length s.buffer ≤ n)

Step-IsBounded :
    {n : ℕ} {s u : State} (all : ℕ) → Step n s u → IsBounded n all s → IsBounded n all u
Step-IsBounded all (sends s x gs a f) (b, c) =
    let e = Sends-total s.left gs x a in
    let m = length-append s.buffer (x ∷ []) in (omega (arith, e, m, b), omega (arith, m, f))
Step-IsBounded all (takes_nil s rest k b r) i =
    let (more, fits) = rw (b, r) at i in (omega (arith, more), omega (arith, fits))
Step-IsBounded all (takes_error s rest k e b r) i =
    let (more, fits) = rw (b, r) at i in (omega (arith, more), omega (arith, fits))
Step-IsBounded all (closes s r) i = let (more, fits) = rw r at i in (omega (arith, more), fits)

module _ (h : Host) (os : Signals) (d : Disk) (p : Pod) where
  total-orders :
      (sts : List ContainerStatus) (gs : List Sequence)
      → AreOrders h os d p sts gs
      → total gs ≡ length (reports (delete_containers h os d p sts))
  unfolding delete_containers
  total-orders [] [] o = refl
  total-orders [] (g ∷ gs) o = absurd o
  total-orders (st ∷ sts) [] o = absurd o
  total-orders (st ∷ sts) (g ∷ gs) (o, os') =
      let acts = delete_container h os d p st in
      let same = length-perm o.0 in
      let rest = total-orders sts gs os' in
      let both = length-reports acts (delete_containers h os d p sts) in
      omega (arith, same, rest, both)

  Reach-IsBounded :
      (sts : List ContainerStatus) (gs : List Sequence) {s : State}
      → Reach (length sts) (started sts gs) s
      → IsBounded (length sts) (total gs) s
  unfolding started
  Reach-IsBounded sts gs here = (omega arith, omega arith)
  Reach-IsBounded sts gs (next run step) =
      Step-IsBounded (total gs) step (Reach-IsBounded sts gs run)

  -- When the goroutines of deletePod have more to send than twice the number of container statuses,
  -- some goroutine has something left to send in every state of every run, whatever the order of the
  -- steps and in whatever order the goroutines of a container send: it waits for ever, and what comes
  -- behind its send is never done.
  pub sends_left_for_ever :
      (sts : List ContainerStatus) (gs : List Sequence) (s : State)
      → AreOrders h os d p sts gs
      → 2 * length sts < length (reports (delete_containers h os d p sts))
      → Reach (length sts) (started sts gs) s
      → 0 < total s.left
  sends_left_for_ever sts gs s o more run =
      let same = total-orders sts gs o in
      let (b, c) = Reach-IsBounded sts gs run in omega (arith, same, b, c, more)
