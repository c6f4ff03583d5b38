-- ===== src/Mock/Volumes/Confined.antt =====
-- Where the volumes of a pod write: a rule for each step of an action, and the actions by these rules.
use virtual_kubelet_cmd.Base.{
  String, Bool, true, false, Option, none, some, List, [], ◌∷◌, ◌≡◌, refl, All, Any, inl, inr,
  string_equality, arith, ◌⊎◌, subst, sym,
}
use virtual_kubelet_cmd.Base.Dict.{Dict}
use virtual_kubelet_cmd.Base.Outcome.{Outcome, ok, err, panic}
use virtual_kubelet_cmd.Disk.{Disk}
use virtual_kubelet_cmd.Errors.{Error}
use virtual_kubelet_cmd.Host.{Host}
use virtual_kubelet_cmd.Kube.{Pod}
use virtual_kubelet_cmd.Mock.Volumes.Files.{
  Write, Action, pure, ◌>>=◌, require, or_fail, chown, mkdir_all_chown, write_file, setup_paths,
  write_all, uid_gid_from_security_context,
}

abbrev pub Anything : {A : Type 0} → A → Type 0
Anything a = Unit

-- The three kinds of directories, and the names of the volumes of a pod.
abbrev pub IsKind : String → Type 0
IsKind kind = (kind ≡ "secrets") ⊎ ((kind ≡ "configmaps") ⊎ (kind ≡ "emptydirs"))

abbrev pub IsVolume : Pod → String → Type 0
IsVolume p v = Any (λ vol. vol.name ≡ v) p.volumes

module _ (h : Host) (p : Pod) where
  -- HOME/<namespace>/<pod>/<kind>/<volume>
  abbrev pub pod_dir : String → String → String
  pod_dir kind v =
      h.path_join (h.path_join (h.getenv "HOME" ∷ p.namespace ∷ p.name ∷ kind ∷ []) ∷ v ∷ [])

  -- The directory of a kind for a volume of the pod.
  abbrev pub IsDir : String → Type 0
  IsDir dir = (kind : String) × (v : String) × IsKind kind × IsVolume p v × (dir ≡ pod_dir kind v)

  -- The file stands in the directory of a volume of the pod.
  abbrev pub IsInside : Write → Type 0
  IsInside w =
      (kind : String) × (v : String) × (file : String) × IsKind kind
      × IsVolume p v
      × (w.path ≡ h.path_join (pod_dir kind v ∷ file ∷ []))

  abbrev pub Gives : {A : Type 0} → (A → Type 0) → Outcome Error A → Type 0
  Gives Q (ok a) = Q a
  Gives Q (err e) = Unit
  Gives Q panic = Unit

  -- What an action leaves when the files before it stand inside.
  abbrev pub Leaves : {A : Type 0} → (A → Type 0) → Outcome Error A × List Write → Type 0
  Leaves Q r = All IsInside r.1 × Gives Q r.0

  -- The action only writes inside, and its result has the property.
  abbrev pub Confined : {A : Type 0} → (A → Type 0) → Action A → Type 0
  Confined Q m = (ws : List Write) → All IsInside ws → Leaves Q (m ws)

  abbrev continue_with :
      {A B : Type 0} → (A → Action B) → Outcome Error A × List Write → Outcome Error B × List Write
  continue_with f r = elim r.0 [ ok a ↦ f a r.1 | err e ↦ (err e, r.1) | panic ↦ (panic, r.1) ]

  continue-Leaves :
      {A B : Type 0} (Q : A → Type 0) (R : B → Type 0) (f : A → Action B)
      (r : Outcome Error A × List Write)
      → Leaves Q r
      → ((a : A) → Q a → Confined R (f a))
      → Leaves R (continue_with f r)
  continue-Leaves Q R f (ok a, ws) (i, q) k = k a q ws i
  continue-Leaves Q R f (err e, ws) (i, q) k = (i, tt)
  continue-Leaves Q R f (panic, ws) (i, q) k = (i, tt)

  pub bind-Confined :
      {A B : Type 0} (Q : A → Type 0) (R : B → Type 0) (m : Action A) (f : A → Action B)
      → Confined Q m
      → ((a : A) → Q a → Confined R (f a))
      → Confined R (m >>= f)
  bind-Confined Q R m f c k ws i = continue-Leaves Q R f (m ws) (c ws i) k

  pub require-Confined : (b : Bool) (what : String) → Confined Anything (require b what)
  require-Confined true what ws i = (i, tt)
  require-Confined false what ws i = (i, tt)

  pub or_fail-Confined :
      {A : Type 0} (o : Option A) (what : String) → Confined Anything (or_fail o what)
  or_fail-Confined none what ws i = (i, tt)
  or_fail-Confined (some a) what ws i = (i, tt)

  pub pure-Confined : {A : Type 0} (a : A) → Confined Anything (pure a)
  pure-Confined a ws i = (i, tt)

  -- The last step of a write.
  abbrev put : Write → Action (Unit {0})
  put w ws = (ok tt, w ∷ ws)

  put-Confined : (w : Write) → IsInside w → Confined Anything (put w)
  put-Confined w inside ws i = ((inside, i), tt)

module _ (h : Host) (d : Disk) (p : Pod) where
  -- setupPaths leaves the files alone.
  made_files : (kind v : String) (ws : List Write) → (setup_paths h d p kind v ws).1 ≡ ws
  unfolding setup_paths mkdir_all_chown chown
  made_files kind v ws = ground arith

  made_dir :
      (kind v dir : String) (ws : List Write)
      → (setup_paths h d p kind v ws).0 ≡ ok dir
      → dir ≡ pod_dir h p kind v
  unfolding setup_paths mkdir_all_chown chown
  made_dir kind v dir ws e = ground arith

  Gives-IsDir :
      (kind v : String) (ws : List Write) (o : Outcome Error String)
      → IsKind kind
      → IsVolume p v
      → (setup_paths h d p kind v ws).0 ≡ o
      → Gives h p (IsDir h p) o
  Gives-IsDir kind v ws (ok dir) k n e = (kind, v, k, n, made_dir kind v dir ws e)
  Gives-IsDir kind v ws (err x) k n e = tt
  Gives-IsDir kind v ws panic k n e = tt

  pub setup_paths-IsDir :
      (kind v : String)
      → IsKind kind
      → IsVolume p v
      → Confined h p (IsDir h p) (setup_paths h d p kind v)
  setup_paths-IsDir kind v k n ws i =
      (subst (All (IsInside h p)) (sym (made_files kind v ws)) i, Gives-IsDir kind v ws _ k n refl)

  written :
      (dir file uid gid contents : String) (ws : List Write)
      → ((write_file h d dir file uid gid contents ws).1 ≡ ws)
        ⊎ ((write_file h d dir file uid gid contents ws).1
            ≡ record { path = h.path_join (dir ∷ file ∷ []); contents = contents } ∷ ws)
  unfolding write_file chown
  written dir file uid gid contents ws = ground arith

  write_ends :
      (dir file uid gid contents : String) (ws : List Write)
      → Gives h p Anything (write_file h d dir file uid gid contents ws).0
  unfolding write_file chown
  write_ends dir file uid gid contents ws = anything (write_file h d dir file uid gid contents ws).0
    where
      anything : (o : Outcome Error (Unit {0})) → Gives h p Anything o
      anything (ok a) = tt
      anything (err e) = tt
      anything panic = tt

  pub write_file-Confined :
      (dir file uid gid contents : String)
      → IsDir h p dir
      → Confined h p Anything (write_file h d dir file uid gid contents)
  write_file-Confined dir file uid gid contents (kind, v, k, n, e) ws i =
      elim (written dir file uid gid contents ws) [
        | inl f ↦ (subst (All (IsInside h p)) (sym f) i, write_ends dir file uid gid contents ws)
        | inr f ↦ (
          subst (All (IsInside h p)) (sym f) ((kind, v, file, k, n, rw e refl), i),
          write_ends dir file uid gid contents ws,
        )
      ]

  pub write_all-Confined :
      (dir : String) (m : Dict String String)
      → IsDir h p dir
      → Confined h p Anything (write_all h d p dir m)
  unfolding write_all
  write_all-Confined dir [] e = pure-Confined h p tt
  write_all-Confined dir ((k, v) ∷ m) e =
      bind-Confined h p Anything Anything
        (write_file h d dir k (uid_gid_from_security_context p).0
          (uid_gid_from_security_context p).1 v)
        (λ u. write_all h d p dir m) (write_file-Confined dir k _ _ v e)
        (λ u q. write_all-Confined dir m e)
