-- ===== src/Mock/Volumes/Sources.antt =====
-- The switch over the sources of a projected volume, in internal/provider/mock/volumes.go, and what
-- a fetched object leads to.
use virtual_kubelet_cmd.Base.{
  String, Bool, false, not, ◌&&◌, ◌||◌, Option, none, some, List, [], ◌∷◌, ◌==◌, string_equality,
  if◌then◌else◌,
}
use virtual_kubelet_cmd.Base.Dict.{Dict, insert}
use virtual_kubelet_cmd.Disk.{Disk}
use virtual_kubelet_cmd.Errors.{plain}
use virtual_kubelet_cmd.Host.{Host}
use virtual_kubelet_cmd.Kube.{
  SecretSource, ConfigMapSource, KeyToPath, SecretProjection, ConfigMapProjection, ProjectionSource,
  Pod, SecretObject,
}
use virtual_kubelet_cmd.Manager.{
  ResourceManager, Fetched, found, missing, failed, get_secret, list_secrets, get_config_map,
}
use virtual_kubelet_cmd.Mock.Volumes.Files.{
  Action, pure, fail, crash, ◌>>=◌, ◌>>◌, or_fail, setup_paths, write_secret, write_config_map,
  write_items, write_secret_items,
}

-- `Optional != nil && !*Optional && errors.IsNotFound(err)`
abbrev pub is_required : Option Bool → Bool
is_required none = false
is_required (some optional) = not optional

-- What a fetched object leads to: `fill` makes the directory and writes the object.
abbrev pub use_fetched :
    {A : Type 0}
    → Option Bool
    → String
    → Fetched A
    → Dict String String
    → (A → Action (Dict String String))
    → Action (Dict String String)
use_fetched optional what (found a) vol fill = fill a
use_fetched optional what missing vol fill =
    if is_required optional then fail (plain what) else pure vol
use_fetched optional what failed vol fill = pure vol

-- The items of a projected secret are read off the ConfigMap source: a nil dereference where the
-- source has none.
abbrev pub items_of : Option ConfigMapProjection → Option (List KeyToPath)
items_of none = none
items_of (some c) = some c.items

module _ (h : Host) (d : Disk) (p : Pod) (rm : ResourceManager) where
  -- The annotations name the pod's service account.
  unfoldable pub names_account : Dict String String → Bool
  names_account [] = false
  names_account ((k, a) ∷ rest) =
      (k == "kubernetes.io/service-account.name" && a == p.service_account) || names_account rest

  -- The secret of the loop that `break Secrets` ends.
  unfoldable pub account_secret : List SecretObject → Option SecretObject
  unfolding names_account
  account_secret [] = none
  account_secret (s ∷ rest) =
      if s.is_service_account_token && names_account s.annotations
      then some s
      else account_secret rest

  unfoldable pub project_secret :
      String
      → Option ConfigMapProjection
      → SecretProjection
      → Dict String String
      → Action (Dict String String)
  unfolding setup_paths write_secret_items
  project_secret name cm_source sp vol =
      use_fetched sp.optional "projected secret is required and does not exist"
        (get_secret rm sp.name p.namespace) vol
        λ s. do
          dir ← setup_paths h d p "secrets" name
          elim (items_of cm_source) [
            | none ↦ crash
            | some items ↦ (do write_secret_items h d p dir items s; pure (insert name dir vol))
          ]

  unfoldable pub project_config_map :
      String → ConfigMapProjection → Dict String String → Action (Dict String String)
  unfolding setup_paths write_items
  project_config_map name c vol =
      use_fetched c.optional "projected configMap is required and does not exist"
        (get_config_map rm c.name p.namespace) vol
        λ cm. do
          dir ← setup_paths h d p "configmaps" name
          write_items h d p dir c.items cm
          pure (insert name dir vol)

  unfoldable pub project_token : String → Dict String String → Action (Dict String String)
  unfolding setup_paths write_secret account_secret
  project_token name vol = do
    secrets ← or_fail (list_secrets rm p.namespace) "list secrets"
    elim (account_secret secrets) [
      | none ↦ pure vol
      | some s ↦ (do
        dir ← setup_paths h d p "secrets" name
        write_secret h d p dir s
        pure (insert name dir vol))
    ]

  -- The inner switch, by the order of its cases; a source of another kind is passed over.
  unfoldable pub project_source :
      String → ProjectionSource → Dict String String → Action (Dict String String)
  unfolding project_token project_secret project_config_map
  project_source name source vol =
      if source.service_account_token then project_token name vol else elim source.secret [
        | some sp ↦ project_secret name source.config_map sp vol
        | none ↦ elim source.config_map [ some c ↦ project_config_map name c vol | none ↦ pure vol ]
      ]

  unfoldable pub project_sources :
      String → List ProjectionSource → Dict String String → Action (Dict String String)
  unfolding project_source
  project_sources name [] vol = pure vol
  project_sources name (source ∷ rest) vol = do
    vol' ← project_source name source vol
    project_sources name rest vol'

  unfoldable pub set_up_secret :
      String → SecretSource → Dict String String → Action (Dict String String)
  unfolding setup_paths write_secret
  set_up_secret name source vol =
      use_fetched source.optional "secret is required and does not exist"
        (get_secret rm source.secret_name p.namespace) vol
        λ s. do
          dir ← setup_paths h d p "secrets" name
          write_secret h d p dir s
          pure (insert name dir vol)

  unfoldable pub set_up_config_map :
      String → ConfigMapSource → Dict String String → Action (Dict String String)
  unfolding setup_paths write_config_map
  set_up_config_map name source vol =
      use_fetched source.optional "configMap is required and does not exist"
        (get_config_map rm source.name p.namespace) vol
        λ cm. do
          dir ← setup_paths h d p "configmaps" name
          write_config_map h d p dir cm
          pure (insert name dir vol)
