-- ===== src/Mock/Lifecycle/Abstract.antt =====
-- The abstract store: a map from keys to pods, the statuses and the deletion timestamps forgotten.
use virtual_kubelet_cmd.Base.{
  String, string_equality, none, some, List, [], ◌∷◌, ◌≡◌, refl, ap, ◌==◌, Bool-cases, inl, inr,
  nat_equality,
}
use virtual_kubelet_cmd.Base.Dict.{Dict, find, insert, erase}
use virtual_kubelet_cmd.Base.Outcome.{Outcome, ok, err, panic}
use virtual_kubelet_cmd.Errors.{Error}
use virtual_kubelet_cmd.Kube.{Phase, Pod, PodStatus}
use virtual_kubelet_cmd.Mock.Lifecycle.{Event, creates, updates, deletes, polls}
use virtual_kubelet_cmd.Mock.Provider.{build_key}

abbrev pub no_status : PodStatus
no_status = record {
  phase = Phase.unset;
  reason = "";
  message = "";
  start_time = none;
  pod_ip = "";
  conditions = [];
  container_statuses = [];
}

-- A pod without its status and its deletion timestamp, both of which a poll writes.
abbrev pub spec_of : Pod → Pod
spec_of p = record p { status = no_status; deletion_timestamp = none }

abbrev pub specs : Dict String Pod → Dict String Pod
specs [] = []
specs ((key, p) ∷ m) = (key, spec_of p) ∷ specs m

-- The abstract store: the calls with a key write and erase, and the polls change nothing that is kept here.
abbrev pub keyed :
    Outcome Error String
    → (String → Dict String Pod → Dict String Pod)
    → Dict String Pod
    → Dict String Pod
keyed (ok key) f m = f key m
keyed (err e) f m = m
keyed panic f m = m

abbrev pub replay_event : Event → Dict String Pod → Dict String Pod
replay_event (creates h d sh rm order p) m = keyed (build_key p) (λ k. insert k (spec_of p)) m
replay_event (updates p) m = keyed (build_key p) (λ k. insert k (spec_of p)) m
replay_event (deletes h d os p) m = keyed (build_key p) erase m
replay_event (polls h) m = m

abbrev pub replay_events : List Event → Dict String Pod → Dict String Pod
replay_events [] m = m
replay_events (e ∷ es) m = replay_events es (replay_event e m)

pub specs-insert :
    (k : String) (p : Pod) (m : Dict String Pod)
    → specs (insert k p m) ≡ insert k (spec_of p) (specs m)
unfolding insert
specs-insert k p [] = refl
specs-insert k p ((j, q) ∷ m) = elim (Bool-cases (j == k)) [
  | inl e ↦ rw e refl
  | inr e ↦ rw e (ap (λ l. (j, spec_of q) ∷ l) (specs-insert k p m))
]

pub specs-erase : (k : String) (m : Dict String Pod) → specs (erase k m) ≡ erase k (specs m)
unfolding erase
specs-erase k [] = refl
specs-erase k ((j, q) ∷ m) = elim (Bool-cases (j == k)) [
  | inl e ↦ rw e (specs-erase k m)
  | inr e ↦ rw e (ap (λ l. (j, spec_of q) ∷ l) (specs-erase k m))
]

-- An erase of a key that is not there changes nothing.
pub erase_absent : (k : String) (m : Dict String Pod) → find k m ≡ none → erase k m ≡ m
unfolding find erase
erase_absent k [] e = refl
erase_absent k ((j, q) ∷ m) e = elim (Bool-cases (j == k)) [
  | inl h ↦ let x : some q ≡ none = rw h at e in cc
  | inr h ↦ rw h (ap (λ l. (j, q) ∷ l) (erase_absent k m (rw h at e)))
]
