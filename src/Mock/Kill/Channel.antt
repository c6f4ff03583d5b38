-- ===== src/Mock/Kill/Channel.antt =====
-- The error channel of deletePod as a step relation: its buffer has one place for each container
-- status, a goroutine that sends waits for a free place, and the loop of deletePod reads the channel
-- once for each container status, up to the first error.
pub mod Returns
pub mod Blocked
use mathlib.Core.List.{Permᴰ}
use virtual_kubelet_cmd.Base.{
  ℕ, suc, ◌<◌, Option, none, some, List, [], ◌∷◌, ◌++◌, ◌≡◌, length, map,
}
use virtual_kubelet_cmd.Disk.{Disk}
use virtual_kubelet_cmd.Errors.{Error}
use virtual_kubelet_cmd.Host.{Host}
use virtual_kubelet_cmd.Kube.{ContainerStatus, Pod}
use virtual_kubelet_cmd.Mock.Kill.{Signals}
use virtual_kubelet_cmd.Mock.Kill.Sequences.{sequence_of}
use virtual_kubelet_cmd.Mock.Kill.Sends.{Sequence, Sends, EndsAtNil}

-- Where deletePod is: in the loop with reads left, or behind it.
pub data Reader : Type 0 where
  reading : ℕ → Reader
  returned : Option Error → Reader

-- What the goroutines have left to send, what is in the channel, and the loop.
pub record State : Type 0 where
  pub left : List Sequence
  pub buffer : Sequence
  pub reader : Reader

-- One step of a goroutine or of deletePod. It closes the channel when it has no reads left.
pub data Step (capacity : ℕ) : State → State → Type 0 where
  sends :
      (s : State) (x : Option Error) (gs : List Sequence)
      → Sends s.left x gs
      → length s.buffer < capacity
      → Step capacity s (record s { left = gs; buffer = s.buffer ++ x ∷ [] })
  takes_nil :
      (s : State) (rest : Sequence) (k : ℕ)
      → s.buffer ≡ none ∷ rest
      → s.reader ≡ reading (suc k)
      → Step capacity s (record s { buffer = rest; reader = reading k })
  takes_error :
      (s : State) (rest : Sequence) (k : ℕ) (e : Error)
      → s.buffer ≡ some e ∷ rest
      → s.reader ≡ reading (suc k)
      → Step capacity s (record s { buffer = rest; reader = returned (some e) })
  closes :
      (s : State) → s.reader ≡ reading 0 → Step capacity s (record s { reader = returned none })

pub data Reach (capacity : ℕ) (s : State) : State → Type 0 where
  here : Reach capacity s s
  next : {t u : State} → Reach capacity s t → Step capacity t u → Reach capacity s u

-- Every run from the state comes to the end of the loop of deletePod: it has returned, or some step
-- is possible, and every run comes there from each state that a step leads to.
pub data AlwaysReturns (capacity : ℕ) : State → Type 0 where
  has_returned : (s : State) (r : Option Error) → s.reader ≡ returned r → AlwaysReturns capacity s
  goes_on :
      (s u : State)
      → Step capacity s u
      → ((v : State) → Step capacity s v → AlwaysReturns capacity v)
      → AlwaysReturns capacity s

-- The goroutines have been started, each with what it will send, and deletePod enters its loop.
unfoldable pub started : List ContainerStatus → List Sequence → State
started sts gs = record { left = gs; buffer = []; reader = reading (length sts) }

-- What the goroutine of a container may send: its goroutines for the processes send their errors in
-- any order, and a nil comes last.
abbrev pub IsOrder : Sequence → Sequence → Type 0
IsOrder g g' = Permᴰ g g' × EndsAtNil g'

module _ (h : Host) (os : Signals) (d : Disk) (p : Pod) where
  abbrev pub AreOrders : List ContainerStatus → List Sequence → Type 0
  AreOrders [] [] = Unit
  AreOrders (st ∷ sts) (g ∷ gs) = IsOrder (sequence_of h os d p st) g × AreOrders sts gs
  AreOrders _ _ = ⊥
