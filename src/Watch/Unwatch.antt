-- ===== src/Watch/Unwatch.antt =====
-- What Unwatch takes out of the tables.
use virtual_kubelet_cmd.Base.{
  Bool, false, ◌||◌, none, List, [], ◌∷◌, ◌==◌, ◌≡◌, refl, eq_refl, string_equality, if◌then◌else◌,
  arith,
}
use virtual_kubelet_cmd.Base.Dict.{Dict, find, find_or, find-erase}
use virtual_kubelet_cmd.Kube.{Pod, ConfigMapObject}
use virtual_kubelet_cmd.Watch.{
  NamespacedName, name_equality, Watcher, key_of, watched_pods, drop_watchers, unwatch_table,
  unwatch, handle_event, config_map_update,
}

abbrev pub has_key : NamespacedName → List NamespacedName → Bool
has_key k [] = false
has_key k (j ∷ js) = j == k || has_key k js

-- The test of the inner loop is true of every pod, so no pod is kept.
watched_pods_none : (ps : List Pod) → watched_pods ps ≡ []
unfolding watched_pods
watched_pods_none [] = refl
watched_pods_none (p ∷ ps) = rw (eq_refl p.namespace, eq_refl p.name) (watched_pods_none ps)

pub find-drop_watchers :
    (k : NamespacedName) (keys : List NamespacedName) (m : Dict NamespacedName (List Pod))
    → find k (drop_watchers keys m) ≡ (if has_key k keys then none else find k m)
unfolding drop_watchers
find-drop_watchers k [] m = refl
find-drop_watchers k (j ∷ js) m =
    rw (watched_pods_none (find_or [] j m), find-drop_watchers k js _, find-erase j k m)
      (ground arith)

-- After Unwatch of a pod, an update of a ConfigMap that the reverse map holds for the pod is told
-- to no pod, and an update of any other ConfigMap to the same pods as before.
pub unwatch_config_maps :
    (p : Pod) (c : ConfigMapObject) (w : Watcher)
    → handle_event (config_map_update c) (unwatch p w) ≡ (
        if has_key
          (record { namespace = c.namespace; name = c.name })
          (find_or [] (key_of p) w.configs.keys_by_pod)
        then []
        else handle_event (config_map_update c) w)
unfolding handle_event unwatch unwatch_table
unwatch_config_maps p c w =
    rw
      (find-drop_watchers (record { namespace = c.namespace; name = c.name })
        (find_or [] (key_of p) w.configs.keys_by_pod) w.configs.watchers)
      (ground arith)
