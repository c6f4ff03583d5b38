-- ===== src/Mock/Volumes/Unusable.antt =====
-- Volumes that cannot be set up: a required object that is missing, a projected secret, and a volume
-- of no known type.
use virtual_kubelet_cmd.Base.{
  String, Bool, false, Option, none, some, List, [], ◌∷◌, ◌≡◌, refl, ◌⊎◌, inl, inr, Any,
}
use virtual_kubelet_cmd.Base.Dict.{Dict}
use virtual_kubelet_cmd.Base.Outcome.{Outcome, ok, err, panic}
use virtual_kubelet_cmd.Disk.{Disk}
use virtual_kubelet_cmd.Errors.{Error}
use virtual_kubelet_cmd.Host.{Host}
use virtual_kubelet_cmd.Kube.{
  SecretSource, ConfigMapSource, SecretProjection, ConfigMapProjection, ProjectionSource, PodVolume,
  Pod, SecretObject,
}
use virtual_kubelet_cmd.Manager.{
  ResourceManager, Fetched, found, missing, get_secret, get_config_map,
}
use virtual_kubelet_cmd.Mock.Volumes.Files.{Action, Write, pure, ◌>>=◌}
use virtual_kubelet_cmd.Mock.Volumes.Projected.{project_secret_unusable}
use virtual_kubelet_cmd.Mock.Volumes.Sources.{
  use_fetched, project_secret, project_config_map, project_source, project_sources, set_up_secret,
  set_up_config_map,
}
use virtual_kubelet_cmd.Mock.Volumes.Switch.{
  Kind, host_path, empty_dir, unsupported, secret, config_map, projected, first_source, kind_of,
  volume_all, is_wanted, set_up, volumes_from, volumes,
}

-- An action that gives no value from any writes.
abbrev Never : {A : Type 0} → Action A → Type 0
Never {A} m = (ws : List Write) (a : A) → ¬ ((m ws).0 ≡ ok a)

-- What follows a run, by its outcome.
abbrev continue :
    {A B : Type 0} → (A → Action B) → Outcome Error A × List Write → Outcome Error B × List Write
continue f r = elim r.0 [ ok a ↦ f a r.1 | err e ↦ (err e, r.1) | panic ↦ (panic, r.1) ]

continue-never_ok :
    {A B : Type 0} (f : A → Action B) (r : Outcome Error A × List Write) (b : B)
    → ((a : A) → (r.0 ≡ ok a) → ¬ ((f a r.1).0 ≡ ok b))
    → ¬ ((continue f r).0 ≡ ok b)
continue-never_ok f (ok a, ws) b n = n a refl
continue-never_ok f (err e, ws) b n = λ q. cc
continue-never_ok f (panic, ws) b n = λ q. cc

bind-Never_first : {A B : Type 0} (m : Action A) (f : A → Action B) → Never m → Never (m >>= f)
bind-Never_first m f n ws b = continue-never_ok f (m ws) b (λ a e. absurd (n ws a e))

bind-Never_then :
    {A B : Type 0} (m : Action A) (f : A → Action B) → ((a : A) → Never (f a)) → Never (m >>= f)
bind-Never_then m f n ws b = continue-never_ok f (m ws) b (λ a e. n a (m ws).1 b)

-- A required object that is not there.
abbrev pub IsAbsent : {A : Type 0} → Option Bool → Fetched A → Type 0
IsAbsent optional fetched = (optional ≡ some false) × (fetched ≡ missing)

absent-Never :
    {A : Type 0} (optional : Option Bool) (what : String) (fetched : Fetched A)
    (vol : Dict String String) (fill : A → Action (Dict String String))
    → IsAbsent optional fetched
    → Never (use_fetched optional what fetched vol fill)
absent-Never optional what fetched vol fill (o, m) ws v = rw m (rw o λ e. cc)

module _ (p : Pod) (rm : ResourceManager) where
  -- A projected secret: it is required and not there, or it is there and no ConfigMap stands beside it.
  abbrev pub IsUnusableSecret : SecretProjection → Option ConfigMapProjection → Type 0
  IsUnusableSecret sp beside =
      IsAbsent sp.optional (get_secret rm sp.name p.namespace)
      ⊎ ((beside ≡ none) × (s : SecretObject) × (get_secret rm sp.name p.namespace ≡ found s))

  abbrev pub IsUnusableMap : Option ConfigMapProjection → Type 0
  IsUnusableMap none = ⊥
  IsUnusableMap (some c) = IsAbsent c.optional (get_config_map rm c.name p.namespace)

  abbrev pub IsUnusableOf : Option SecretProjection → Option ConfigMapProjection → Type 0
  IsUnusableOf (some sp) beside = IsUnusableSecret sp beside
  IsUnusableOf none beside = IsUnusableMap beside

  abbrev pub IsUnusableSource : ProjectionSource → Type 0
  IsUnusableSource source =
      (source.service_account_token ≡ false) × IsUnusableOf source.secret source.config_map

  abbrev pub IsUnusable : Kind → Type 0
  IsUnusable (secret s) = IsAbsent s.optional (get_secret rm s.secret_name p.namespace)
  IsUnusable (config_map c) = IsAbsent c.optional (get_config_map rm c.name p.namespace)
  IsUnusable (projected sources) = Any IsUnusableSource sources
  IsUnusable unsupported = Unit
  IsUnusable _ = ⊥

  -- By the sources of a volume, the first that is there.
  abbrev pub IsUnusableBy :
      Option SecretSource → Option ConfigMapSource → Option (List ProjectionSource) → Type 0
  IsUnusableBy (some s) c j = IsAbsent s.optional (get_secret rm s.secret_name p.namespace)
  IsUnusableBy none (some c) j = IsAbsent c.optional (get_config_map rm c.name p.namespace)
  IsUnusableBy none none (some sources) = Any IsUnusableSource sources
  IsUnusableBy none none none = Unit

  -- A volume that is neither a path of the host nor an empty directory, and whose source is unusable.
  abbrev pub IsUnusableVolume : PodVolume → Type 0
  IsUnusableVolume v =
      (v.host_path ≡ false) × (v.empty_dir ≡ false) × IsUnusableBy v.secret v.config_map v.projected

  first_source-IsUnusable :
      (s : Option SecretSource) (c : Option ConfigMapSource) (j : Option (List ProjectionSource))
      → IsUnusableBy s c j
      → IsUnusable (first_source s c j)
  unfolding first_source
  first_source-IsUnusable (some s) c j u = u
  first_source-IsUnusable none (some c) j u = u
  first_source-IsUnusable none none (some j) u = u
  first_source-IsUnusable none none none u = u

  kind_of-IsUnusable : (v : PodVolume) → IsUnusableVolume v → IsUnusable (kind_of v)
  unfolding kind_of
  kind_of-IsUnusable v (a, b, u) =
      rw (a, b) (first_source-IsUnusable v.secret v.config_map v.projected u)

module _ (h : Host) (d : Disk) (p : Pod) (rm : ResourceManager) where
  project_secret-Never :
      (name : String) (beside : Option ConfigMapProjection) (sp : SecretProjection)
      (vol : Dict String String)
      → IsUnusableSecret p rm sp beside
      → Never (project_secret h d p rm name beside sp vol)
  unfolding project_secret
  project_secret-Never name beside sp vol (inl a) =
      absent-Never sp.optional _ (get_secret rm sp.name p.namespace) vol _ a
  project_secret-Never name beside sp vol (inr (n, s, e)) =
      rw n (λ ws v. project_secret_unusable h d p rm name sp vol v ws s e)

  project_map-Never :
      (name : String) (c : ConfigMapProjection) (vol : Dict String String)
      → IsAbsent c.optional (get_config_map rm c.name p.namespace)
      → Never (project_config_map h d p rm name c vol)
  unfolding project_config_map
  project_map-Never name c vol a =
      absent-Never c.optional _ (get_config_map rm c.name p.namespace) vol _ a

  -- The inner switch behind the token.
  of_source-Never :
      (name : String) (s : Option SecretProjection) (c : Option ConfigMapProjection)
      (vol : Dict String String)
      → IsUnusableOf p rm s c
      → Never (elim s [
        | some sp ↦ project_secret h d p rm name c sp vol
        | none ↦ elim c [ some c' ↦ project_config_map h d p rm name c' vol | none ↦ pure vol ]
      ])
  of_source-Never name (some sp) c vol u = project_secret-Never name c sp vol u
  of_source-Never name none (some c) vol u = project_map-Never name c vol u
  of_source-Never name none none vol u = absurd u

  project_source-Never :
      (name : String) (source : ProjectionSource) (vol : Dict String String)
      → IsUnusableSource p rm source
      → Never (project_source h d p rm name source vol)
  unfolding project_source
  project_source-Never name source vol (t, u) =
      rw t (of_source-Never name source.secret source.config_map vol u)

  project_sources-Never :
      (name : String) (sources : List ProjectionSource) (vol : Dict String String)
      → Any (IsUnusableSource p rm) sources
      → Never (project_sources h d p rm name sources vol)
  unfolding project_sources
  project_sources-Never name [] vol u = absurd u
  project_sources-Never name (source ∷ rest) vol (inl u) =
      bind-Never_first (project_source h d p rm name source vol)
        (project_sources h d p rm name rest) (project_source-Never name source vol u)
  project_sources-Never name (source ∷ rest) vol (inr u) =
      bind-Never_then (project_source h d p rm name source vol) (project_sources h d p rm name rest)
        (λ vol'. project_sources-Never name rest vol' u)

  set_up-Never :
      (name : String) (k : Kind) (vol : Dict String String)
      → IsUnusable p rm k
      → Never (set_up h d p rm name k vol)
  unfolding set_up set_up_secret set_up_config_map
  set_up-Never name (secret s) vol u =
      absent-Never s.optional _ (get_secret rm s.secret_name p.namespace) vol _ u
  set_up-Never name (config_map c) vol u =
      absent-Never c.optional _ (get_config_map rm c.name p.namespace) vol _ u
  set_up-Never name (projected sources) vol u = project_sources-Never name sources vol u
  set_up-Never name unsupported vol u = λ ws v e. cc
  set_up-Never name host_path vol u = absurd u
  set_up-Never name empty_dir vol u = absurd u

  volumes_from-Never :
      (vs : List PodVolume) (vol : Dict String String)
      → Any (IsUnusableVolume p rm) vs
      → Never (volumes_from h d p rm volume_all vs vol)
  unfolding volumes_from is_wanted
  volumes_from-Never [] vol u = absurd u
  volumes_from-Never (v ∷ rest) vol (inl u) =
      bind-Never_first (set_up h d p rm v.name (kind_of v) vol)
        (volumes_from h d p rm volume_all rest)
        (set_up-Never v.name (kind_of v) vol (kind_of-IsUnusable p rm v u))
  volumes_from-Never (v ∷ rest) vol (inr u) =
      bind-Never_then (set_up h d p rm v.name (kind_of v) vol)
        (volumes_from h d p rm volume_all rest) (λ vol'. volumes_from-Never rest vol' u)

  -- A pod with a volume that cannot be set up gets no volumes, whatever was written before.
  pub volumes-Never :
      (ws : List Write) (vol : Dict String String)
      → Any (IsUnusableVolume p rm) p.volumes
      → ¬ ((volumes h d p rm volume_all ws).0 ≡ ok vol)
  unfolding volumes
  volumes-Never ws vol u = volumes_from-Never p.volumes [] u ws vol
