-- ===== src/Mock/Kill/Sends.antt =====
-- The sends of the goroutines of deletePod on the error channel, in any order between the goroutines.
use virtual_kubelet_cmd.Base.{
  ℕ, suc, Option, none, some, List, [], ◌∷◌, ◌≡◌, refl, ap, ◌⊎◌, inl, inr, arith, length, All,
}
use virtual_kubelet_cmd.Errors.{Error}
use virtual_kubelet_cmd.Kube.{ContainerStatus}
use virtual_kubelet_cmd.Mock.Kill.{read_errors}

abbrev pub Sequence : Type 0
Sequence = List (Option Error)

-- One goroutine sends `x`, the first of what it has left.
abbrev pub Sends : List Sequence → Option Error → List Sequence → Type 0
Sends [] x gs' = ⊥
Sends (g ∷ gs) x [] = ⊥
Sends (g ∷ gs) x (g' ∷ gs') = ((g ≡ x ∷ g') × (gs' ≡ gs)) ⊎ ((g' ≡ g) × Sends gs x gs')

-- The channel gets all that the goroutines send, each goroutine in its own order.
abbrev pub Interleaves : List Sequence → Sequence → Type 0
Interleaves gs [] = All (λ g. g ≡ []) gs
Interleaves gs (x ∷ rs) = (gs' : List Sequence) × Sends gs x gs' × Interleaves gs' rs

-- A goroutine that sends nil sends nothing after it.
abbrev pub EndsAtNil : Sequence → Type 0
EndsAtNil [] = Unit
EndsAtNil (none ∷ rest) = rest ≡ []
EndsAtNil (some e ∷ rest) = Unit

-- The goroutines that still have something to send.
abbrev pub pending : List Sequence → ℕ
pending [] = 0
pending ([] ∷ gs) = pending gs
pending ((x ∷ g) ∷ gs) = suc (pending gs)

-- The goroutine has nothing to send but one nil.
abbrev pub IsDone : Sequence → Type 0
IsDone g = (g ≡ []) ⊎ (g ≡ none ∷ [])

pub pending_zero : (gs gs' : List Sequence) (x : Option Error) → Sends gs x gs' → pending gs ≡ 0 → ⊥
pending_zero [] gs' x s e = s
pending_zero (g ∷ gs) [] x s e = s
pending_zero ([] ∷ gs) (g' ∷ gs') x (inl (q, r)) e = cc
pending_zero ((y ∷ g) ∷ gs) (g' ∷ gs') x (inl (q, r)) e = omega (arith, e)
pending_zero ([] ∷ gs) (g' ∷ gs') x (inr (q, s)) e = pending_zero gs gs' x s e
pending_zero ((y ∷ g) ∷ gs) (g' ∷ gs') x (inr (q, s)) e = omega (arith, e)

-- A nil is sent: its goroutine has ended.
pub record NilSent (gs gs' : List Sequence) : Type 0 where
  pub all_end : All EndsAtNil gs'
  pub one_less : pending gs ≡ suc (pending gs')
  pub were_done : All IsDone gs' → All IsDone gs

first_sent :
    (x : Option Error) (g g' : Sequence) (gs : List Sequence)
    → EndsAtNil (x ∷ g)
    → All EndsAtNil gs
    → ◌≡◌ {A = Sequence} (x ∷ g) (none ∷ g')
    → NilSent ((x ∷ g) ∷ gs) (g' ∷ gs)
first_sent (some y) g g' gs q qs e = cc
first_sent none g g' gs q qs e =
    let ended : g' ≡ [] = cc in
    rw ended
      (rw q (record { all_end = (tt, qs); one_less = refl; were_done = λ a. (inr refl, a.1) }))

pending_more :
    (g : Sequence) (gs gs' : List Sequence)
    → pending gs ≡ suc (pending gs')
    → pending (g ∷ gs) ≡ suc (pending (g ∷ gs'))
pending_more [] gs gs' e = e
pending_more (x ∷ g) gs gs' e = ap suc e

later_sent :
    (g : Sequence) (gs gs' : List Sequence)
    → EndsAtNil g
    → NilSent gs gs'
    → NilSent (g ∷ gs) (g ∷ gs')
later_sent g gs gs' q n = record {
  all_end = (q, n.all_end);
  one_less = pending_more g gs gs' n.one_less;
  were_done = λ a. (a.0, n.were_done a.1);
}

pub nil_sent : (gs gs' : List Sequence) → All EndsAtNil gs → Sends gs none gs' → NilSent gs gs'
nil_sent [] gs' q s = absurd s
nil_sent (g ∷ gs) [] q s = absurd s
nil_sent ((x ∷ g) ∷ gs) (g' ∷ gs') (q, qs) (inl (e, r)) = rw r (first_sent x g g' gs q qs e)
nil_sent ([] ∷ gs) (g' ∷ gs') (q, qs) (inl (e, r)) = cc
nil_sent (g ∷ gs) (g' ∷ gs') (q, qs) (inr (e, s)) =
    rw e (later_sent g gs gs' q (nil_sent gs gs' qs s))

empty-IsDone : (gs : List Sequence) → All (λ g. g ≡ []) gs → All IsDone gs
empty-IsDone [] a = tt
empty-IsDone (g ∷ gs) (e, a) = (inl e, empty-IsDone gs a)

pub read_errors_interleaved :
    (sts : List ContainerStatus) (gs : List Sequence) (rs : Sequence)
    → All EndsAtNil gs
    → pending gs ≡ length sts
    → Interleaves gs rs
    → read_errors sts rs ≡ some none
    → All IsDone gs × (length rs ≡ length sts)
unfolding read_errors
read_errors_interleaved [] gs [] q n i e = (empty-IsDone gs i, refl)
read_errors_interleaved [] gs (x ∷ rs) q n (gs', s, i) e = absurd (pending_zero gs gs' x s n)
read_errors_interleaved (st ∷ sts) gs [] q n i e = cc
read_errors_interleaved (st ∷ sts) gs (some x ∷ rs) q n i e = cc
read_errors_interleaved (st ∷ sts) gs (none ∷ rs) q n (gs', s, i) e =
    let sent = nil_sent gs gs' q s in
    let m = sent.one_less in
    let (done, len) = read_errors_interleaved sts gs' rs sent.all_end (omega (arith, m, n)) i e in
    (sent.were_done done, omega (arith, len))
