-- ===== src/Mock/Volumes/PodDir.antt =====
-- The volumes of a pod write inside its directory: the switches over the volumes and their sources.
use virtual_kubelet_cmd.Base.{
  String, Bool, true, false, Option, none, some, List, [], ◌∷◌, ◌≡◌, refl, inl, inr, All, Any,
  string_equality, if◌then◌else◌,
}
use virtual_kubelet_cmd.Base.Dict.{Dict, insert}
use virtual_kubelet_cmd.Disk.{Disk}
use virtual_kubelet_cmd.Errors.{plain}
use virtual_kubelet_cmd.Host.{Host}
use virtual_kubelet_cmd.Kube.{
  KeyToPath, Pod, PodVolume, SecretObject, SecretSource, ConfigMapSource, SecretProjection,
  ConfigMapProjection, ProjectionSource,
}
use virtual_kubelet_cmd.Manager.{
  ResourceManager, Fetched, found, missing, failed, get_secret, get_config_map, list_secrets,
}
use virtual_kubelet_cmd.Mock.Volumes.Confined.{
  IsVolume, IsDir, IsInside, Confined, Anything, bind-Confined, or_fail-Confined, pure-Confined,
  setup_paths-IsDir,
}
use virtual_kubelet_cmd.Mock.Volumes.Files.{
  Action, pure, fail, crash, ◌>>=◌, ◌>>◌, or_fail, setup_paths, write_secret, write_config_map,
  write_items, write_secret_items,
}
use virtual_kubelet_cmd.Mock.Volumes.Inside.{
  write_items-Confined, write_secret_items-Confined, write_secret-Confined,
  write_config_map-Confined, fill_dir, fill_dir-Confined,
}
use virtual_kubelet_cmd.Mock.Volumes.Sources.{
  is_required, use_fetched, items_of, account_secret, project_secret, project_config_map,
  project_token, project_source, project_sources, set_up_secret, set_up_config_map,
}
use virtual_kubelet_cmd.Mock.Volumes.Switch.{
  Which, Kind, host_path, empty_dir, unsupported, secret, config_map, projected, kind_of, is_wanted,
  set_up, volumes_from, volumes,
}

-- Each volume of a list is named in it.
each_named :
    {P : String → Type 0} (vs : List PodVolume)
    → ((v : String) → Any (λ (vol : PodVolume). vol.name ≡ v) vs → P v)
    → All (λ v. P v.name) vs
each_named [] k = tt
each_named (v ∷ vs) k = (k v.name (inl refl), each_named vs (λ w n. k w (inr n)))

module _ (h : Host) (d : Disk) (p : Pod) (rm : ResourceManager) where
  use_fetched-Confined :
      {A : Type 0} (optional : Option Bool) (what : String) (o : Fetched A)
      (vol : Dict String String) (fill : A → Action (Dict String String))
      → ((a : A) → Confined h p Anything (fill a))
      → Confined h p Anything (use_fetched optional what o vol fill)
  use_fetched-Confined optional what (found a) vol fill k = k a
  use_fetched-Confined optional what missing vol fill k = refused (is_required optional)
    where
      refused : (b : Bool) → Confined h p Anything (if b then fail (plain what) else pure vol)
      refused true ws i = (i, tt)
      refused false ws i = (i, tt)
  use_fetched-Confined optional what failed vol fill k = pure-Confined h p vol

  set_up_secret-Confined :
      (name : String) (source : SecretSource) (vol : Dict String String)
      → IsVolume p name
      → Confined h p Anything (set_up_secret h d p rm name source vol)
  unfolding set_up_secret
  set_up_secret-Confined name source vol n =
      use_fetched-Confined source.optional "secret is required and does not exist"
        (get_secret rm source.secret_name p.namespace) vol
        (λ s. fill_dir h d p "secrets" name vol (λ dir. write_secret h d p dir s))
        (λ s.
          fill_dir-Confined h d p "secrets" name vol (λ dir. write_secret h d p dir s) (inl refl) n
            (λ dir e. write_secret-Confined h d p dir s e))

  set_up_config_map-Confined :
      (name : String) (source : ConfigMapSource) (vol : Dict String String)
      → IsVolume p name
      → Confined h p Anything (set_up_config_map h d p rm name source vol)
  unfolding set_up_config_map
  set_up_config_map-Confined name source vol n =
      use_fetched-Confined source.optional "configMap is required and does not exist"
        (get_config_map rm source.name p.namespace) vol
        (λ cm. fill_dir h d p "configmaps" name vol (λ dir. write_config_map h d p dir cm))
        (λ cm.
          fill_dir-Confined h d p "configmaps" name vol (λ dir. write_config_map h d p dir cm)
            (inr (inl refl)) n (λ dir e. write_config_map-Confined h d p dir cm e))

  project_config_map-Confined :
      (name : String) (c : ConfigMapProjection) (vol : Dict String String)
      → IsVolume p name
      → Confined h p Anything (project_config_map h d p rm name c vol)
  unfolding project_config_map
  project_config_map-Confined name c vol n =
      use_fetched-Confined c.optional "projected configMap is required and does not exist"
        (get_config_map rm c.name p.namespace) vol
        (λ cm. fill_dir h d p "configmaps" name vol (λ dir. write_items h d p dir c.items cm))
        (λ cm.
          fill_dir-Confined h d p "configmaps" name vol (λ dir. write_items h d p dir c.items cm)
            (inr (inl refl)) n (λ dir e. write_items-Confined h d p dir c.items cm e))

  -- What a projected secret does once its directory is there.
  abbrev with_items :
      Option (List KeyToPath)
      → SecretObject
      → String
      → Dict String String
      → String
      → Action (Dict String String)
  with_items items s name vol dir = elim items [
    | none ↦ crash
    | some l ↦ write_secret_items h d p dir l s >> pure (insert name dir vol)
  ]

  with_items-Confined :
      (items : Option (List KeyToPath)) (s : SecretObject) (name : String)
      (vol : Dict String String) (dir : String)
      → IsDir h p dir
      → Confined h p Anything (with_items items s name vol dir)
  with_items-Confined none s name vol dir e = λ ws i. (i, tt)
  with_items-Confined (some l) s name vol dir e =
      bind-Confined h p Anything Anything (write_secret_items h d p dir l s)
        (λ u. pure (insert name dir vol)) (write_secret_items-Confined h d p dir l s e)
        (λ u q. pure-Confined h p (insert name dir vol))

  project_secret-Confined :
      (name : String) (c : Option ConfigMapProjection) (sp : SecretProjection)
      (vol : Dict String String)
      → IsVolume p name
      → Confined h p Anything (project_secret h d p rm name c sp vol)
  unfolding project_secret
  project_secret-Confined name c sp vol n =
      use_fetched-Confined sp.optional "projected secret is required and does not exist"
        (get_secret rm sp.name p.namespace) vol
        (λ s. setup_paths h d p "secrets" name >>= with_items (items_of c) s name vol)
        (λ s.
          bind-Confined h p (IsDir h p) Anything (setup_paths h d p "secrets" name)
            (with_items (items_of c) s name vol)
            (setup_paths-IsDir h d p "secrets" name (inl refl) n)
            (with_items-Confined (items_of c) s name vol))

  project_token-Confined :
      (name : String) (vol : Dict String String)
      → IsVolume p name
      → Confined h p Anything (project_token h d p rm name vol)
  unfolding project_token
  project_token-Confined name vol n =
      bind-Confined h p Anything Anything (or_fail (list_secrets rm p.namespace) "list secrets")
        (λ l. with_account (account_secret h d p rm l))
        (or_fail-Confined h p (list_secrets rm p.namespace) "list secrets")
        (λ l q. with_account-Confined (account_secret h d p rm l))
    where
      with_account : Option SecretObject → Action (Dict String String)
      with_account o = elim o [
        | none ↦ pure vol
        | some s ↦ fill_dir h d p "secrets" name vol (λ dir. write_secret h d p dir s)
      ]

      with_account-Confined : (o : Option SecretObject) → Confined h p Anything (with_account o)
      with_account-Confined none = pure-Confined h p vol
      with_account-Confined (some s) =
          fill_dir-Confined h d p "secrets" name vol (λ dir. write_secret h d p dir s) (inl refl) n
            (λ dir e. write_secret-Confined h d p dir s e)

  project_by :
      (name : String) (token : Bool) (sp : Option SecretProjection) (c : Option ConfigMapProjection)
      (vol : Dict String String)
      → IsVolume p name
      → Confined h p Anything (
          if token then project_token h d p rm name vol else elim sp [
            | some x ↦ project_secret h d p rm name c x vol
            | none ↦ elim c [ some x ↦ project_config_map h d p rm name x vol | none ↦ pure vol ]
          ])
  project_by name true sp c vol n = project_token-Confined name vol n
  project_by name false (some x) c vol n = project_secret-Confined name c x vol n
  project_by name false none (some x) vol n = project_config_map-Confined name x vol n
  project_by name false none none vol n = pure-Confined h p vol

  project_sources-Confined :
      (name : String) (sources : List ProjectionSource) (vol : Dict String String)
      → IsVolume p name
      → Confined h p Anything (project_sources h d p rm name sources vol)
  unfolding project_sources project_source
  project_sources-Confined name [] vol n = pure-Confined h p vol
  project_sources-Confined name (s ∷ rest) vol n =
      bind-Confined h p Anything Anything (project_source h d p rm name s vol)
        (project_sources h d p rm name rest)
        (project_by name s.service_account_token s.secret s.config_map vol n)
        (λ vol' q. project_sources-Confined name rest vol' n)

  set_up-Confined :
      (name : String) (k : Kind) (vol : Dict String String)
      → IsVolume p name
      → Confined h p Anything (set_up h d p rm name k vol)
  unfolding set_up
  set_up-Confined name host_path vol n = pure-Confined h p (insert name "" vol)
  set_up-Confined name empty_dir vol n =
      bind-Confined h p (IsDir h p) Anything (setup_paths h d p "emptydirs" name)
        (λ dir. pure (insert name dir vol))
        (setup_paths-IsDir h d p "emptydirs" name (inr (inr refl)) n)
        (λ dir q. pure-Confined h p (insert name dir vol))
  set_up-Confined name (secret source) vol n = set_up_secret-Confined name source vol n
  set_up-Confined name (config_map source) vol n = set_up_config_map-Confined name source vol n
  set_up-Confined name (projected sources) vol n = project_sources-Confined name sources vol n
  set_up-Confined name unsupported vol n = λ ws i. (i, tt)

  set_up_if :
      (b : Bool) (name : String) (k : Kind) (vol : Dict String String)
      → IsVolume p name
      → Confined h p Anything (if b then set_up h d p rm name k vol else pure vol)
  set_up_if true name k vol n = set_up-Confined name k vol n
  set_up_if false name k vol n = pure-Confined h p vol

  volumes_from-Confined :
      (which : Which) (vs : List PodVolume) (vol : Dict String String)
      → All (λ v. IsVolume p v.name) vs
      → Confined h p Anything (volumes_from h d p rm which vs vol)
  unfolding volumes_from
  volumes_from-Confined which [] vol a = pure-Confined h p vol
  volumes_from-Confined which (v ∷ rest) vol (n, a) =
      bind-Confined h p Anything Anything
        (if is_wanted which (kind_of v) then set_up h d p rm v.name (kind_of v) vol else pure vol)
        (volumes_from h d p rm which rest)
        (set_up_if (is_wanted which (kind_of v)) v.name (kind_of v) vol n)
        (λ vol' q. volumes_from-Confined which rest vol' a)

  -- Every file that the volumes of a pod put in place, also where they end with an error or a panic,
  -- has the path that path.Join makes of HOME/<namespace>/<pod>/<kind>, the name of a volume of the
  -- pod and some file name, where the kind is secrets, configmaps or emptydirs. Nothing is said of
  -- names with "..".
  pub volumes-IsInside : (which : Which) → All (IsInside h p) (volumes h d p rm which []).1
  unfolding volumes
  volumes-IsInside which =
      (volumes_from-Confined which p.volumes [] (each_named p.volumes (λ v n. n)) [] tt).0
