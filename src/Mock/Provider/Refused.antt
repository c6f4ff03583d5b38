-- ===== src/Mock/Provider/Refused.antt =====
-- CreatePod of a pod with a volume that cannot be set up.
use virtual_kubelet_cmd.Base.{String, List, [], ◌≡◌, refl, Any}
use virtual_kubelet_cmd.Base.Dict.{Dict}
use virtual_kubelet_cmd.Base.Outcome.{Outcome, ok, err, panic}
use virtual_kubelet_cmd.Disk.{Disk}
use virtual_kubelet_cmd.Errors.{Error}
use virtual_kubelet_cmd.Host.{Host}
use virtual_kubelet_cmd.Kube.{Container, Pod}
use virtual_kubelet_cmd.Manager.{ResourceManager}
use virtual_kubelet_cmd.Mock.Command.Script.{Shell}
use virtual_kubelet_cmd.Mock.Provider.{
  Provider, store, build_key, create_with_volumes, create_with_key, create_pod,
}
use virtual_kubelet_cmd.Mock.Volumes.Switch.{volume_all, volumes}
use virtual_kubelet_cmd.Mock.Volumes.Unusable.{IsUnusableVolume, volumes-Never}

module _ (h : Host) (d : Disk) (sh : Shell) (rm : ResourceManager) (order : List Container) where
  without_volumes :
      (key : String) (p : Pod) (stored pr' : Provider) (v : Outcome Error (Dict String String))
      → ((vol : Dict String String) → ¬ (v ≡ ok vol))
      → ¬ (create_with_volumes h d sh rm order key p stored v ≡ (ok tt, pr'))
  without_volumes key p stored pr' (ok vol) n = absurd (n vol refl)
  without_volumes key p stored pr' (err e) n = λ q. cc
  without_volumes key p stored pr' panic n = λ q. cc

  with_key_refused :
      (p : Pod) (pr pr' : Provider) (k : Outcome Error String)
      → Any (IsUnusableVolume p rm) p.volumes
      → ¬ (create_with_key h d sh rm order p pr k ≡ (ok tt, pr'))
  with_key_refused p pr pr' (ok key) u =
      without_volumes key p (store key p pr) pr' (volumes h d p rm volume_all []).0
        (λ vol. volumes-Never h d p rm [] vol u)
  with_key_refused p pr pr' (err e) u = λ q. cc
  with_key_refused p pr pr' panic u = λ q. cc

  -- CreatePod never succeeds on a pod with a volume that cannot be set up: a secret or a ConfigMap
  -- whose Optional is false and whose lister answers NotFound, as a volume or as a source of a
  -- projected volume; a projected secret that is there, in a source without a ConfigMap; or a volume
  -- of a type that is not supported. A source of a service account token is none of these.
  pub create_pod_refuses :
      (p : Pod) (pr pr' : Provider)
      → Any (IsUnusableVolume p rm) p.volumes
      → ¬ (create_pod h d sh rm order p pr ≡ (ok tt, pr'))
  unfolding create_pod
  create_pod_refuses p pr pr' u = with_key_refused p pr pr' (build_key p) u
