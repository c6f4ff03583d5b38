-- ===== src/Mock/Kill/Channel/Returns.antt =====
-- The loop of deletePod comes to its end.
use mathlib.Core.List.{Permᴰ}
use virtual_kubelet_cmd.Base.{
  ℕ, zero, suc, ◌+◌, ◌<◌, ◌≤◌, Option, none, some, List, [], ◌∷◌, ◌++◌, ◌≡◌, refl, sym, subst, inl,
  inr, arith, length, length-append, All, ap, ◌∙◌,
}
use virtual_kubelet_cmd.Disk.{Disk}
use virtual_kubelet_cmd.Errors.{Error}
use virtual_kubelet_cmd.Host.{Host}
use virtual_kubelet_cmd.Kube.{ContainerStatus, Pod}
use virtual_kubelet_cmd.Mock.Kill.{Signals}
use virtual_kubelet_cmd.Mock.Kill.Sequences.{pending_more}
use virtual_kubelet_cmd.Mock.Kill.Reads.{reports_once}
use virtual_kubelet_cmd.Mock.Kill.Sends.{
  Sequence, Sends, EndsAtNil, pending, pending_zero, nil_sent,
}
use virtual_kubelet_cmd.Mock.Kill.Channel.{
  Reader, reading, returned, State, Step, sends, takes_nil, takes_error, closes, Reach, here, next,
  started, AreOrders, AlwaysReturns, has_returned, goes_on,
}

-- The goroutines have sent all of these, in this order.
abbrev HaveSent : List Sequence → Sequence → List Sequence → Type 0
HaveSent gs [] gs' = gs ≡ gs'
HaveSent gs (x ∷ xs) gs' = (hs : List Sequence) × Sends gs x hs × HaveSent hs xs gs'

HaveSent-append :
    (gs gs' hs : List Sequence) (xs : Sequence) (x : Option Error)
    → HaveSent gs xs gs'
    → Sends gs' x hs
    → HaveSent gs (xs ++ x ∷ []) hs
HaveSent-append gs gs' hs [] x a s = (hs, subst (λ g. Sends g x hs) (sym a) s, refl)
HaveSent-append gs gs' hs (y ∷ ys) x (gs1, b, a) s = (gs1, b, HaveSent-append gs1 gs' hs ys x a s)

-- With `k` reads left, `k` goroutines had something to send before what is in the channel.
abbrev IsFed : ℕ → List Sequence → Sequence → Type 0
IsFed k left buffer =
    (gs : List Sequence) × All EndsAtNil gs × (pending gs ≡ k) × HaveSent gs buffer left

abbrev InvOf : ℕ → List Sequence → Sequence → Reader → Type 0
InvOf capacity left buffer (reading k) = (k ≤ capacity) × IsFed k left buffer
InvOf capacity left buffer (returned none) = (pending left ≡ 0) × (buffer ≡ [])
InvOf capacity left buffer (returned (some e)) = Unit

abbrev Inv : ℕ → State → Type 0
Inv capacity s = InvOf capacity s.left s.buffer s.reader

send-Inv :
    (capacity : ℕ) (left gs : List Sequence) (buffer : Sequence) (r : Reader) (x : Option Error)
    → Sends left x gs
    → InvOf capacity left buffer r
    → InvOf capacity gs (buffer ++ x ∷ []) r
send-Inv capacity left gs buffer (reading k) x s (le, (hs, q, n, a)) =
    (le, (hs, q, n, HaveSent-append hs left gs buffer x a s))
send-Inv capacity left gs buffer (returned none) x s (n, b) = absurd (pending_zero left gs x s n)
send-Inv capacity left gs buffer (returned (some e)) x s i = tt

takes_nil-Inv :
    (capacity : ℕ) (left : List Sequence) (rest : Sequence) (k : ℕ)
    → InvOf capacity left (none ∷ rest) (reading (suc k))
    → InvOf capacity left rest (reading k)
takes_nil-Inv capacity left rest k (le, (gs, q, n, (hs, s, a))) =
    let sent = nil_sent gs hs q s in
    let m = sent.one_less in (omega arith, (hs, sent.all_end, omega (arith, n, m), a))

closes-Inv :
    (capacity : ℕ) (left : List Sequence) (buffer : Sequence)
    → InvOf capacity left buffer (reading 0)
    → InvOf capacity left buffer (returned none)
closes-Inv capacity left [] (le, (gs, q, n, a)) = (subst (λ g. pending g ≡ 0) a n, refl)
closes-Inv capacity left (x ∷ rest) (le, (gs, q, n, (hs, s, a))) = absurd (pending_zero gs hs x s n)

Step-Inv : {capacity : ℕ} {s u : State} → Step capacity s u → Inv capacity s → Inv capacity u
Step-Inv {capacity} (sends s x gs a f) i = send-Inv capacity s.left gs s.buffer s.reader x a i
Step-Inv {capacity} (takes_nil s rest k b r) i = takes_nil-Inv capacity s.left rest k (
    subst (InvOf capacity s.left (none ∷ rest)) r
      (subst (λ b. InvOf capacity s.left b s.reader) b i))
Step-Inv (takes_error s rest k e b r) i = tt
Step-Inv {capacity} (closes s r) i =
    closes-Inv capacity s.left s.buffer (subst (InvOf capacity s.left s.buffer) r i)

some_send :
    (gs : List Sequence) (k : ℕ)
    → pending gs ≡ suc k
    → (x : Option Error) × (hs : List Sequence) × Sends gs x hs
some_send [] k e = absurd (omega (arith, e))
some_send ([] ∷ gs) k e = let (x, hs, s) = some_send gs k e in (x, [] ∷ hs, inr (refl, s))
some_send ((x ∷ g) ∷ gs) k e = (x, g ∷ gs, inl (refl, refl))

-- While there are reads left, some step is possible.
progress :
    (capacity : ℕ) (left : List Sequence) (buffer : Sequence) (k : ℕ)
    → InvOf capacity left buffer (reading k)
    → (u : State) × Step capacity (record { left = left; buffer = buffer; reader = reading k }) u
progress capacity left buffer zero i = (_, closes _ refl)
progress capacity left (none ∷ rest) (suc k) i = (_, takes_nil _ rest k refl refl)
progress capacity left (some e ∷ rest) (suc k) i = (_, takes_error _ rest k e refl refl)
progress capacity left [] (suc k) (le, (gs, q, n, a)) =
    let (x, hs, s) = some_send left k (subst (λ g. pending g ≡ suc k) a n) in
    (_, sends _ x hs s (omega arith))

-- What is still to be sent.
abbrev pub total : List Sequence → ℕ
total [] = 0
total (g ∷ gs) = length g + total gs

pub Sends-total :
    (gs hs : List Sequence) (x : Option Error) → Sends gs x hs → total gs ≡ suc (total hs)
Sends-total [] hs x s = absurd s
Sends-total (g ∷ gs) [] x s = absurd s
Sends-total (g ∷ gs) (h ∷ hs) x (inl (e, f)) = rw (e, f) (omega arith)
Sends-total (g ∷ gs) (h ∷ hs) x (inr (e, s)) = rw e (omega (arith, Sends-total gs hs x s))

abbrev reader_weight : Reader → ℕ
reader_weight (reading k) = 1
reader_weight (returned r) = 0

abbrev weight : State → ℕ
weight s = total s.left + total s.left + length s.buffer + reader_weight s.reader

Step-weight : {capacity : ℕ} {s u : State} → Step capacity s u → weight u < weight s
Step-weight (sends s x gs a f) =
    omega (arith, Sends-total s.left gs x a, length-append s.buffer (x ∷ []))
Step-weight (takes_nil s rest k b r) = rw (b, r) (omega arith)
Step-weight (takes_error s rest k e b r) = rw (b, r) (omega arith)
Step-weight (closes s r) = rw r (omega arith)

goes_from :
    (capacity : ℕ) (s : State) (r : Reader)
    → s.reader ≡ r
    → Inv capacity s
    → ((v : State) → Step capacity s v → AlwaysReturns capacity v)
    → AlwaysReturns capacity s
goes_from capacity s (returned r) e i all = has_returned s r e
goes_from capacity s (reading k) e i all =
    let (u, step) =
      subst
        (λ r.
          (u : State) × Step capacity (record { left = s.left; buffer = s.buffer; reader = r }) u)
        (sym e)
        (progress capacity s.left s.buffer k (subst (InvOf capacity s.left s.buffer) e i)) in
    goes_on s u step all

always_from :
    (n capacity : ℕ) (s : State) → weight s < n → Inv capacity s → AlwaysReturns capacity s
always_from zero capacity s w i = absurd (omega arith)
always_from (suc n) capacity s w i = goes_from capacity s s.reader refl i (λ v step.
    let lighter = Step-weight step in
    always_from n capacity v (omega (arith, lighter, w)) (Step-Inv step i))

pub length-perm : {g g' : Sequence} → Permᴰ g g' → length g ≡ length g'
length-perm Permᴰ.nil = refl
length-perm (Permᴰ.cons e r) = ap suc (length-perm r)
length-perm (Permᴰ.swap e d) = refl
length-perm (Permᴰ.trans r s) = length-perm r ∙ length-perm s

module _ (h : Host) (os : Signals) (d : Disk) (p : Pod) where
  pub orders-EndAtNil :
      (sts : List ContainerStatus) (gs : List Sequence)
      → AreOrders h os d p sts gs
      → All EndsAtNil gs
  orders-EndAtNil [] [] o = tt
  orders-EndAtNil [] (g ∷ gs) o = absurd o
  orders-EndAtNil (st ∷ sts) [] o = absurd o
  orders-EndAtNil (st ∷ sts) (g ∷ gs) (o, os) = (o.1, orders-EndAtNil sts gs os)

  pub orders_pending :
      (sts : List ContainerStatus) (gs : List Sequence)
      → AreOrders h os d p sts gs
      → pending gs ≡ length sts
  orders_pending [] [] o = refl
  orders_pending [] (g ∷ gs) o = absurd o
  orders_pending (st ∷ sts) [] o = absurd o
  orders_pending (st ∷ sts) (g ∷ gs) (o, os') =
      let once = reports_once h os d p st in
      let same = length-perm (o.0) in
      pending_more h os d p g gs sts (omega (arith, once, same)) (orders_pending sts gs os')

  started-Inv :
      (sts : List ContainerStatus) (gs : List Sequence)
      → AreOrders h os d p sts gs
      → Inv (length sts) (started sts gs)
  unfolding started
  started-Inv sts gs o =
      (omega arith, (gs, orders-EndAtNil sts gs o, orders_pending sts gs o, refl))

  Reach-Inv :
      (sts : List ContainerStatus) (gs : List Sequence) {s : State}
      → AreOrders h os d p sts gs
      → Reach (length sts) (started sts gs) s
      → Inv (length sts) s
  Reach-Inv sts gs o here = started-Inv sts gs o
  Reach-Inv sts gs o (next r step) = Step-Inv step (Reach-Inv sts gs o r)

  -- The loop of deletePod ends in every run, whatever the order of the steps and in whatever order
  -- the goroutines of a container send their errors, a nil last: with one place in the channel for
  -- each container status, no run stops before.
  pub delete_pod-AlwaysReturns :
      (sts : List ContainerStatus) (gs : List Sequence)
      → AreOrders h os d p sts gs
      → AlwaysReturns (length sts) (started sts gs)
  delete_pod-AlwaysReturns sts gs o =
      always_from (suc (weight (started sts gs))) (length sts) (started sts gs) (omega arith)
        (started-Inv sts gs o)

  -- When the loop of deletePod has ended without an error, whatever the order of the steps and in
  -- whatever order the goroutines of a container send their errors, a nil last, no goroutine has
  -- anything left to send, and nothing is in the channel: no goroutine sends on the closed channel.
  pub closed_silent :
      (sts : List ContainerStatus) (gs : List Sequence) (s : State)
      → AreOrders h os d p sts gs
      → Reach (length sts) (started sts gs) s
      → s.reader ≡ returned none
      → (pending s.left ≡ 0) × (s.buffer ≡ [])
  closed_silent sts gs s o r e = subst (InvOf (length sts) s.left s.buffer) e (Reach-Inv sts gs o r)
