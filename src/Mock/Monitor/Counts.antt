-- ===== src/Mock/Monitor/Counts.antt =====
-- The counts of container statuses, and what they say of all of them.
use virtual_kubelet_cmd.Base.{
  string_equality, Bool, true, false, none, some, List, [], ◌∷◌, pos, int_equality, nat_equality,
  ◌≡◌, refl, ◌↔◌, Option-cases, inl, inr, arith, is_some, length, count, count-le-length, All, ◌⊎◌,
}
use virtual_kubelet_cmd.Kube.{ContainerStatus, StateTerminated}
use virtual_kubelet_cmd.Mock.Monitor.{has_failed}

abbrev pub EndedWell : ContainerStatus → Type 0
EndedWell st = (t : StateTerminated) × (st.state.terminated ≡ some t) × (t.exit_code ≡ pos 0)

abbrev pub HasEnded : ContainerStatus → Type 0
HasEnded st = is_some st.state.terminated ≡ true

pub count-All :
    (p : ContainerStatus → Bool) (sts : List ContainerStatus)
    → count p sts ≡ length sts
    → All (λ st. p st ≡ true) sts
count-All p [] h = tt
count-All p (st ∷ sts) h = ground (arith, count-All p sts, count-le-length p sts)

pub All-count :
    (p : ContainerStatus → Bool) (sts : List ContainerStatus)
    → All (λ st. p st ≡ true) sts
    → count p sts ≡ length sts
All-count p [] h = refl
All-count p (st ∷ sts) (e, h) = ground (arith, All-count p sts h)

pub count_none :
    (p : ContainerStatus → Bool) (sts : List ContainerStatus)
    → (count p sts ≡ 0) ↔ All (λ st. p st ≡ false) sts
count_none p [] = (λ h. tt, λ h. refl)
count_none p (st ∷ sts) = ground (arith, (count_none p sts).0, (count_none p sts).1)

pub EndedWell-of :
    (sts : List ContainerStatus)
    → All HasEnded sts
    → All (λ st. has_failed st ≡ false) sts
    → All EndedWell sts
EndedWell-of [] h k = tt
EndedWell-of (st ∷ sts) (e, h) (d, k) =
    (well (Option-cases st.state.terminated), EndedWell-of sts h k)
  where
    well :
        ((st.state.terminated ≡ none) ⊎ ((t : StateTerminated) × (st.state.terminated ≡ some t)))
        → EndedWell st
    well (inl p) = ground arith
    well (inr (t, p)) = (t, p, ground (arith, int_equality.same_iff t.exit_code (pos 0)))

pub of_EndedWell :
    (sts : List ContainerStatus)
    → All EndedWell sts
    → All HasEnded sts × All (λ st. has_failed st ≡ false) sts
of_EndedWell [] h = (tt, tt)
of_EndedWell (st ∷ sts) ((t, e, z), h) =
    let (a, b) = of_EndedWell sts h in
    ((ground arith, a), (ground (arith, int_equality.same_iff t.exit_code (pos 0)), b))
