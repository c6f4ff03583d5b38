-- ===== src/Mock/Volumes/Projected.antt =====
-- A projected source that is a secret.
use virtual_kubelet_cmd.Base.{String, none, List, ◌≡◌}
use virtual_kubelet_cmd.Base.Dict.{Dict}
use virtual_kubelet_cmd.Base.Outcome.{Outcome, ok, err, panic}
use virtual_kubelet_cmd.Disk.{Disk}
use virtual_kubelet_cmd.Errors.{Error}
use virtual_kubelet_cmd.Host.{Host}
use virtual_kubelet_cmd.Kube.{Pod, SecretObject, SecretProjection}
use virtual_kubelet_cmd.Manager.{ResourceManager, found, get_secret}
use virtual_kubelet_cmd.Mock.Volumes.Files.{Write, crash, setup_paths}
use virtual_kubelet_cmd.Mock.Volumes.Sources.{project_secret}

-- What a run becomes that a panic follows.
abbrev crashed : {A B : Type 0} → Outcome Error A × List Write → Outcome Error B × List Write
crashed r = elim r.0 [ ok a ↦ crash r.1 | err e ↦ (err e, r.1) | panic ↦ (panic, r.1) ]

crashed-ok : {A B : Type 0} (r : Outcome Error A × List Write) (b : B) → ¬ ((crashed r).0 ≡ ok b)
crashed-ok (ok a, ws) b = λ e. cc
crashed-ok (err x, ws) b = λ e. cc
crashed-ok (panic, ws) b = λ e. cc

-- A projected source with a secret that is there, and without a ConfigMap beside it, is never set up:
-- making its directory fails, or the read of the items panics.
pub project_secret_unusable :
    (h : Host) (d : Disk) (p : Pod) (rm : ResourceManager) (name : String) (sp : SecretProjection)
    (vol vol' : Dict String String) (ws : List Write) (s : SecretObject)
    → get_secret rm sp.name p.namespace ≡ found s
    → ¬ ((project_secret h d p rm name none sp vol ws).0 ≡ ok vol')
unfolding project_secret
project_secret_unusable h d p rm name sp vol vol' ws s e =
    rw e (crashed-ok (setup_paths h d p "secrets" name ws) vol')
