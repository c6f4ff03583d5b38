-- ===== src/Mock/Provider/Refined.antt =====
-- What the pod store promises: a map from a namespace and a name to a pod.
use virtual_kubelet_cmd.Base.{
  String, string_equality, true, ◌&&◌, ◌≡◌, refl, ◌==◌, Option, none, some, List, [], ◌∷◌, inl, inr,
  arith, if◌then◌else◌, Bool-cases, Option-cases, All, ◌∙◌,
}
use virtual_kubelet_cmd.Base.Dict.{Dict, find, insert, erase, find-insert, find-erase}
use virtual_kubelet_cmd.Base.Outcome.{Outcome, ok, err}
use virtual_kubelet_cmd.Disk.{Disk}
use virtual_kubelet_cmd.Errors.{Error, not_found, plain}
use virtual_kubelet_cmd.Host.{Host}
use virtual_kubelet_cmd.Kube.{Pod}
use virtual_kubelet_cmd.Mock.Kill.{Signals}
use virtual_kubelet_cmd.Mock.Provider.{
  Provider, build_key_from_names, build_key, update_pod, delete_pod, get_pod,
}
use virtual_kubelet_cmd.Mock.Provider.Keys.{dash_free, key_inj}

-- The calls of the pod controller, without the creation of a pod.
pub data Call : Type 0 where
  update : Pod → Call
  delete : Host → Disk → Signals → Pod → Call
  get : String → String → Call

pub data Answer : Type 0 where
  changed : Outcome Error (Unit {0}) → Answer
  got : Outcome Error Pod → Answer

-- The calls one after the other on the provider, with their answers.
abbrev pub run_call : Call → Provider → Answer × Provider
run_call (update p) pr = let r = update_pod p pr in (changed r.0, r.1)
run_call (delete h d os p) pr = let r = delete_pod h d os p pr in (changed r.0, r.1)
run_call (get ns name) pr = (got (get_pod ns name pr), pr)

abbrev pub run_calls : List Call → Provider → List Answer
run_calls [] pr = []
run_calls (c ∷ cs) pr = let r = run_call c pr in r.0 ∷ run_calls cs r.1

-- The abstract store.
abbrev pub Pods : Type 0
Pods = String → String → Option Pod

abbrev put : Pod → Option Pod → Pods → Pods
put p v m ns name = if p.namespace == ns && p.name == name then v else m ns name

-- The part of a name that is missing.
abbrev missing_name : Pod → Option String
missing_name p =
    if p.namespace == ""
    then some "pod namespace not found"
    else if p.name == ""
    then some "pod name not found"
    else none

abbrev answer_of : Option Pod → Outcome Error Pod
answer_of none = err (not_found "pod is not known to the provider")
answer_of (some p) = ok p

abbrev replay_delete : Pod → Option Pod → Pods → Answer × Pods
replay_delete p none m = (changed (err (not_found "Pod not found")), m)
replay_delete p (some old) m = (changed (ok tt), put p none m)

abbrev replay_named : (Pods → Answer × Pods) → Option String → Pods → Answer × Pods
replay_named f none m = f m
replay_named f (some e) m = (changed (err (plain e)), m)

abbrev pub replay_call : Call → Pods → Answer × Pods
replay_call (update p) m =
    replay_named (λ m'. (changed (ok tt), put p (some p) m')) (missing_name p) m
replay_call (delete h d os p) m =
    replay_named (replay_delete p (m p.namespace p.name)) (missing_name p) m
replay_call (get ns name) m = (got (answer_of (m ns name)), m)

abbrev pub replay_calls : List Call → Pods → List Answer
replay_calls [] m = []
replay_calls (c ∷ cs) m = let r = replay_call c m in r.0 ∷ replay_calls cs r.1

-- The namespace of the call holds no dash.
abbrev pub IsDashFree : Call → Type 0
IsDashFree (update p) = dash_free p.namespace ≡ true
IsDashFree (delete h d os p) = dash_free p.namespace ≡ true
IsDashFree (get ns name) = dash_free ns ≡ true

-- The provider's store is the abstract one at the namespaces without a dash.
abbrev pub Represents : Dict String Pod → Pods → Type 0
Represents pods m =
    (ns name : String) → dash_free ns ≡ true → find (build_key_from_names ns name) pods ≡ m ns name

same_key_iff :
    (a b c d : String)
    → dash_free a ≡ true
    → dash_free c ≡ true
    → (build_key_from_names a b == build_key_from_names c d) ≡ (a == c && b == d)
unfolding build_key_from_names
same_key_iff a b c d f g =
    elim (Bool-cases (build_key_from_names a b == build_key_from_names c d)) [
      | inl e ↦
          let r = key_inj a c b d f g ((string_equality.same_iff _ _).0 e) in
          ground (arith, e, r.0, r.1, string_equality.same_iff a c, string_equality.same_iff b d)
      | inr e ↦ elim (Bool-cases (a == c)) [
        | inl q ↦ elim (Bool-cases (b == d)) [
          | inl q' ↦
              let same : build_key_from_names a b ≡ build_key_from_names c d =
                rw ((string_equality.same_iff a c).0 q, (string_equality.same_iff b d).0 q') refl in
              ground (arith, e, (string_equality.same_iff _ _).1 same)
          | inr q' ↦ rw (e, q, q') refl
        ]
        | inr q ↦ rw (e, q) refl
      ]
    ]

insert-Represents :
    (p : Pod) (pods : Dict String Pod) (m : Pods)
    → dash_free p.namespace ≡ true
    → Represents pods m
    → Represents (insert (build_key_from_names p.namespace p.name) p pods) (put p (some p) m)
insert-Represents p pods m f r ns name g =
    find-insert (build_key_from_names p.namespace p.name) (build_key_from_names ns name) p pods
    ∙ rw (same_key_iff p.namespace p.name ns name f g, r ns name g) refl

erase-Represents :
    (p : Pod) (pods : Dict String Pod) (m : Pods)
    → dash_free p.namespace ≡ true
    → Represents pods m
    → Represents (erase (build_key_from_names p.namespace p.name) pods) (put p none m)
erase-Represents p pods m f r ns name g =
    find-erase (build_key_from_names p.namespace p.name) (build_key_from_names ns name) pods
    ∙ rw (same_key_iff p.namespace p.name ns name f g, r ns name g) refl

-- A call answers as the abstract store does, and leaves a store that represents what it leaves.
IsSimulated : Call → Provider → Pods → Type 0
IsSimulated c pr m =
    ((run_call c pr).0 ≡ (replay_call c m).0)
    × Represents (run_call c pr).1.pods (replay_call c m).1

update-IsSimulated :
    (p : Pod) (pr : Provider) (m : Pods)
    → dash_free p.namespace ≡ true
    → Represents pr.pods m
    → IsSimulated (update p) pr m
unfolding update_pod build_key IsSimulated
update-IsSimulated p pr m f r = elim (Bool-cases (p.namespace == "")) [
  | inl e ↦ rw (missing_name, update_pod, build_key, e) (refl, r)
  | inr e ↦ elim (Bool-cases (p.name == "")) [
    | inl q ↦ rw (missing_name, update_pod, build_key, e, q) (refl, r)
    | inr q ↦
        rw (missing_name, update_pod, build_key, e, q) (refl, insert-Represents p pr.pods m f r)
  ]
]

delete-IsSimulated :
    (h : Host) (d : Disk) (os : Signals) (p : Pod) (pr : Provider) (m : Pods)
    → dash_free p.namespace ≡ true
    → Represents pr.pods m
    → IsSimulated (delete h d os p) pr m
unfolding delete_pod build_key IsSimulated
delete-IsSimulated h d os p pr m f r = elim (Bool-cases (p.namespace == "")) [
  | inl e ↦ rw (missing_name, delete_pod, build_key, e) (refl, r)
  | inr e ↦ elim (Bool-cases (p.name == "")) [
    | inl q ↦ rw (missing_name, delete_pod, build_key, e, q) (refl, r)
    | inr q ↦
        let found = r p.namespace p.name f in
        elim (Option-cases (m p.namespace p.name)) [
          | inl n ↦ rw (missing_name, delete_pod, build_key, e, q, found, n) (refl, r)
          | inr (old, n) ↦
              rw (missing_name, delete_pod, build_key, e, q, found, n)
                (refl, erase-Represents p pr.pods m f r)
        ]
  ]
]

call-IsSimulated :
    (c : Call) (pr : Provider) (m : Pods) → IsDashFree c → Represents pr.pods m → IsSimulated c pr m
unfolding get_pod IsSimulated
call-IsSimulated (update p) pr m f r = update-IsSimulated p pr m f r
call-IsSimulated (delete h d os p) pr m f r = delete-IsSimulated h d os p pr m f r
call-IsSimulated (get ns name) pr m f r = (
  elim (Option-cases (m ns name)) [
    | inl n ↦ rw (get_pod, r ns name f, n) refl
    | inr (p, n) ↦ rw (get_pod, r ns name f, n) refl
  ],
  r,
)

-- When the namespaces of the calls hold no dash, the provider answers any sequence of UpdatePod,
-- DeletePod and GetPod as a map from namespaces and names to pods does, starting where its store
-- represents the map.
pub run_calls-replay_calls :
    (cs : List Call) (pr : Provider) (m : Pods)
    → All IsDashFree cs
    → Represents pr.pods m
    → run_calls cs pr ≡ replay_calls cs m
unfolding IsSimulated
run_calls-replay_calls [] pr m f r = refl
run_calls-replay_calls (c ∷ cs) pr m (f, fs) r =
    let s = call-IsSimulated c pr m f r in
    rw (s.0, run_calls-replay_calls cs (run_call c pr).1 (replay_call c m).1 fs s.1) refl
