-- ===== src/Node/Client.antt =====
-- internal/node/nodeutil/client.go: ClientsetFromEnv. `K` is the type of REST configurations, `C` that
-- of API clients.
use virtual_kubelet_cmd.Base.{String, ◌==◌, string_equality, if◌then◌else◌}
use virtual_kubelet_cmd.Base.Outcome.{Outcome, ok, err, panic, ◌>>=◌, Ensures}
use virtual_kubelet_cmd.Errors.{Error, wrapped}

-- os.Stat: the file is there, os.IsNotExist holds of the error, or there is another error.
pub data Stat : Type 0 where
  is_there : Stat
  is_missing : Stat
  fails : Error → Stat

-- What ClientsetFromEnv calls: os.Stat, rest.InClusterConfig, clientcmd for the file of a path, and
-- kubernetes.NewForConfig.
pub record ClientGo (K C : Type 0) : Type 0 where
  pub stat : String → Stat
  pub in_cluster_config : Outcome Error K
  pub load_config : String → Outcome Error K
  pub new_for_config : K → Outcome Error C

module _ {A : Type 0} where
  -- `if err != nil { return nil, errors.Wrap(err, m) }`
  abbrev pub wrap_err : String → Outcome Error A → Outcome Error A
  wrap_err m (ok a) = ok a
  wrap_err m (err e) = err (wrapped m e)
  wrap_err m panic = panic

pub wrap_err-Ensures {κ} :
    {A : Type 0} (P : A → Type κ) (m : String) (o : Outcome Error A)
    → Ensures P o
    → Ensures P (wrap_err m o)
wrap_err-Ensures P m (ok a) h = h
wrap_err-Ensures P m (err e) h = tt
wrap_err-Ensures P m panic h = tt

module _ {K C : Type 0} where
  unfoldable pub config_at : ClientGo K C → String → Stat → Outcome Error K
  config_at g path is_there = g.load_config path
  config_at g path is_missing = g.in_cluster_config
  config_at g path (fails e) = err e

  -- clientsetFromEnvKubeConfigPath
  unfoldable pub clientset_from_env_kube_config_path : ClientGo K C → String → Outcome Error K
  unfolding config_at
  clientset_from_env_kube_config_path g path = config_at g path (g.stat path)

  unfoldable pub clientset_from_env : ClientGo K C → String → Outcome Error C
  unfolding clientset_from_env_kube_config_path
  clientset_from_env g path =
      wrap_err "error getting rest client config"
        (if path == "" then g.in_cluster_config else clientset_from_env_kube_config_path g path)
      >>= g.new_for_config
