-- ===== src/Mock/Provider/Keys.antt =====
-- The keys of the pod store, and what GetPod reads after the calls that write.
use Prim.Native.Char.{Char, code}
use mathlib.Core.Path.{ap, ap₂}
use text.Mathlib.TextLemmas.{
  append_assoc, append_cancel_left, head-eq_of_cons-eq, tail-eq_of_cons-eq,
}
use virtual_kubelet_cmd.Base.{
  String, string_equality, Bool, true, ◌&&◌, not, ◌≡◌, refl, ◌∙◌, ◌==◌, ◌≢◌, ◌<>◌, Option-cases,
  ◌⊎◌, sym, inl, inr, arith, if◌then◌else◌, nat_equality, nil-append, cons-append,
}
use virtual_kubelet_cmd.Base.Dict.{find, find-insert, find-erase}
use virtual_kubelet_cmd.Base.Outcome.{ok, err}
use virtual_kubelet_cmd.Errors.{not_found}
use virtual_kubelet_cmd.Disk.{Disk}
use virtual_kubelet_cmd.Host.{Host}
use virtual_kubelet_cmd.Kube.{Pod}
use virtual_kubelet_cmd.Mock.Kill.{Signals}
use virtual_kubelet_cmd.Mock.Provider.{
  Provider, build_key_from_names, build_key, update_pod, delete_pod, get_pod,
}

pub build_key_ok :
    (p : Pod)
    → p.namespace ≢ ""
    → p.name ≢ ""
    → build_key p ≡ ok (build_key_from_names p.namespace p.name)
unfolding build_key
build_key_ok p n m =
    ground (arith, string_equality.same_iff p.namespace "", string_equality.same_iff p.name "")

-- After UpdatePod of a pod whose namespace and name are not empty, GetPod gives that pod for
-- every pair of names with the key of the pod, and what it gave before for any other pair.
pub get-update :
    (p : Pod) (ns name : String) (pr : Provider)
    → p.namespace ≢ ""
    → p.name ≢ ""
    → get_pod ns name (update_pod p pr).1 ≡ (
        if build_key_from_names p.namespace p.name == build_key_from_names ns name
        then ok p
        else get_pod ns name pr)
unfolding get_pod update_pod
get-update p ns name pr n m = ground (
  arith,
  build_key_ok p n m,
  find-insert (build_key_from_names p.namespace p.name) (build_key_from_names ns name) p pr.pods,
)

-- For a pod whose namespace and name are not empty, either GetPod does not find its names, and
-- DeletePod gives a NotFound error and changes nothing; or DeletePod gives no error, and after it
-- GetPod finds no pair of names with the key of the pod and gives what it gave before for any
-- other.
pub get-delete :
    (h : Host) (d : Disk) (os : Signals) (p : Pod) (ns name : String) (pr : Provider)
    → p.namespace ≢ ""
    → p.name ≢ ""
    → ((get_pod p.namespace p.name pr ≡ err (not_found "pod is not known to the provider"))
        × (delete_pod h d os p pr ≡ (err (not_found "Pod not found"), pr)))
      ⊎ (((delete_pod h d os p pr).0 ≡ ok tt)
          × (get_pod ns name (delete_pod h d os p pr).1 ≡ (
              if build_key_from_names p.namespace p.name == build_key_from_names ns name
              then err (not_found "pod is not known to the provider")
              else get_pod ns name pr)))
unfolding get_pod delete_pod
get-delete h d os p ns name pr n m =
    let key = build_key_from_names p.namespace p.name in
    elim (Option-cases (find key pr.pods)) [
      | inl e ↦ inl (rw (e, get_pod), ground (arith, build_key_ok p n m))
      | inr (q, e) ↦ inr (
        ground (arith, build_key_ok p n m),
        ground (arith, build_key_ok p n m, find-erase key (build_key_from_names ns name) pr.pods),
      )
    ]

-- The key forgets where the namespace ends.
build_key_regroup :
    (a b c : String)
    → build_key_from_names (a <> "-" <> b) c ≡ build_key_from_names a (b <> "-" <> c)
unfolding build_key_from_names
build_key_regroup a b c = simp append_assoc

-- A pod with namespace <a> and name <b>-<c>, neither of them empty, that is stored after a pod
-- with namespace <a>-<b> and name <c> takes its place: GetPod of the first pod gives the second.
pub colliding_pod_replaces :
    (p q : Pod) (a b c : String) (pr : Provider)
    → q.namespace ≡ a
    → q.name ≡ b <> "-" <> c
    → q.namespace ≢ ""
    → q.name ≢ ""
    → p.namespace ≡ a <> "-" <> b
    → p.name ≡ c
    → get_pod p.namespace p.name (update_pod q (update_pod p pr).1).1 ≡ ok q
colliding_pod_replaces p q a b c pr qa qn n m pa pn =
    get-update q p.namespace p.name (update_pod p pr).1 n m ∙ if_same
  where
    same_key : build_key_from_names q.namespace q.name ≡ build_key_from_names p.namespace p.name
    same_key = rw (qa, qn, pa, pn) (sym (build_key_regroup a b c))

    if_same :
        (if build_key_from_names q.namespace q.name == build_key_from_names p.namespace p.name
          then ok q
          else get_pod p.namespace p.name (update_pod p pr).1)
        ≡ ok q
    if_same = rw ((string_equality.same_iff _ _).1 same_key) refl

-- A text without "-".
abbrev pub dash_free : String → Bool
dash_free String.[] = true
dash_free (String.◌∷◌ c s) = not (code c == 45) && dash_free s

abbrev hyphen : Char
hyphen = "-"

hyphen_cons : (n : String) → "-" <> n ≡ String.◌∷◌ hyphen n
hyphen_cons n = cons-append hyphen "" n ∙ ap (String.◌∷◌ hyphen) (nil-append n)

-- A dash-free text does not begin where the other's dash stands.
head_clash :
    (c : Char) (t n m : String)
    → dash_free (String.◌∷◌ c t) ≡ true
    → "" <> "-" <> n ≡ (String.◌∷◌ c t) <> "-" <> m
    → ⊥
head_clash c t n m f e =
    let cons_path : String.◌∷◌ hyphen n ≡ String.◌∷◌ c (t <> "-" <> m) =
      sym (hyphen_cons n) ∙ sym (nil-append ("-" <> n)) ∙ e ∙ cons-append c t ("-" <> m) in
    let same_code : code c ≡ 45 = sym (ap code (head-eq_of_cons-eq cons_path)) in
    ground (arith, same_code)

pub key_inj :
    (s t n m : String)
    → dash_free s ≡ true
    → dash_free t ≡ true
    → s <> "-" <> n ≡ t <> "-" <> m
    → (s ≡ t) × (n ≡ m)
key_inj String.[] String.[] n m f g e =
    (refl, append_cancel_left "-" n m (sym (nil-append ("-" <> n)) ∙ e ∙ nil-append ("-" <> m)))
key_inj String.[] (String.◌∷◌ c t) n m f g e = absurd (head_clash c t n m g e)
key_inj (String.◌∷◌ c s) String.[] n m f g e = absurd (head_clash c s m n f (sym e))
key_inj (String.◌∷◌ c s) (String.◌∷◌ c' t) n m f g e =
    let cons_path : String.◌∷◌ c (s <> "-" <> n) ≡ String.◌∷◌ c' (t <> "-" <> m) =
      sym (cons-append c s ("-" <> n)) ∙ e ∙ cons-append c' t ("-" <> m) in
    let (same, rest) =
      key_inj s t n m (ground arith) (ground arith) (tail-eq_of_cons-eq cons_path) in
    (ap₂ String.◌∷◌ (head-eq_of_cons-eq cons_path) same, rest)

-- Two pods that have the same key, and whose namespaces hold no dash, have the same namespace and
-- the same name.
pub build_key_injective :
    (p q : Pod) (key : String)
    → dash_free p.namespace ≡ true
    → dash_free q.namespace ≡ true
    → build_key p ≡ ok key
    → build_key q ≡ ok key
    → (p.namespace ≡ q.namespace) × (p.name ≡ q.name)
unfolding build_key build_key_from_names
build_key_injective p q key f g e d =
    key_inj p.namespace q.namespace p.name q.name f g (ground arith)
