-- ===== src/Tests/Watches.antt =====
-- The theorems on the tables of the watcher, at two pods of one ConfigMap.
use virtual_kubelet_cmd.Base.{
  String, List, false, none, some, [], ◌∷◌, ◌≡◌, if◌then◌else◌, All, ◌==◌,
}
use virtual_kubelet_cmd.Base.Dict.{find_or}
use virtual_kubelet_cmd.Kube.{Pod, PodVolume, Phase, ConfigMapObject}
use virtual_kubelet_cmd.Watch.{
  name_equality, Watcher, new_pod_resource_watcher, watch, unwatch, handle_event, config_map_update,
  key_of,
}
use virtual_kubelet_cmd.Watch.Runs.{
  WatchCall, watches, unwatches, run_watcher, run_watcher-AreRegistered,
}
use virtual_kubelet_cmd.Watch.Unwatch.{unwatch_config_maps, has_key}
use virtual_kubelet_cmd.Watch.Registered.{AreRegistered, unwatch_silences}
use virtual_kubelet_cmd.Tests.Fixtures.{pod_with, status_with}

abbrev config_volume : PodVolume
config_volume = record {
  name = "v";
  host_path = false;
  empty_dir = false;
  secret = none;
  config_map = some (record { name = "settings"; optional = none });
  projected = none;
}

abbrev watching : String → Pod
watching name = record (pod_with "default" name (status_with Phase.unset none [])) {
  volumes = config_volume ∷ [];
}

abbrev two_watches : Watcher
two_watches = watch (watching "b") (watch (watching "a") new_pod_resource_watcher)

abbrev settings : ConfigMapObject
settings = record { namespace = "default"; name = "settings"; text_data = []; binary_data = [] }

unwatch_config_maps_example :
    handle_event (config_map_update settings) (unwatch (watching "a") two_watches) ≡ (
      if has_key
        (record { namespace = "default"; name = "settings" })
        (find_or [] (key_of (watching "a")) two_watches.configs.keys_by_pod)
      then []
      else handle_event (config_map_update settings) two_watches)
unwatch_config_maps_example = unwatch_config_maps (watching "a") settings two_watches

abbrev calls : List WatchCall
calls = watches (watching "b") ∷ unwatches (watching "b") ∷ watches (watching "a") ∷ []

run_watcher-AreRegistered_example : AreRegistered (run_watcher calls new_pod_resource_watcher)
run_watcher-AreRegistered_example = run_watcher-AreRegistered calls

unwatch_silences_example :
    All
      (λ q. (key_of (watching "a") == key_of q) ≡ false)
      (handle_event
        (config_map_update settings)
        (unwatch (watching "a") (run_watcher calls new_pod_resource_watcher)))
unwatch_silences_example =
    unwatch_silences (watching "a") (config_map_update settings)
      (run_watcher calls new_pod_resource_watcher) (run_watcher-AreRegistered calls)
