-- ===== src/Watch.antt =====
-- internal/provider/kubernetes/watch.go: which pods are told of an update of a ConfigMap or a
-- Secret. The tables are alike for both: the pods by object, and the objects by pod. The locks
-- make each call one step.
pub mod Registered
pub mod Runs
pub mod Unwatch
use virtual_kubelet_cmd.Base.{
  String, Bool, true, false, ◌&&◌, Option, none, some, List, [], ◌∷◌, ◌++◌, ◌==◌, Equality, ◌↔◌,
  ◌≡◌, string_equality, if◌then◌else◌, arith, refl, map,
}
use virtual_kubelet_cmd.Base.Dict.{Dict, find, insert, erase, find_or}
use virtual_kubelet_cmd.Kube.{PodVolume, Pod, SecretObject, ConfigMapObject}

-- types.NamespacedName
pub record NamespacedName : Type 0 where
  pub namespace : String
  pub name : String

abbrev pub same_name : NamespacedName → NamespacedName → Bool
same_name a b = a.namespace == b.namespace && a.name == b.name

pub same_name_iff : (a b : NamespacedName) → (same_name a b ≡ true) ↔ (a ≡ b)
same_name_iff a b = ground (
  arith,
  string_equality.same_iff a.namespace b.namespace,
  string_equality.same_iff a.name b.name,
)

instance abbrev pub name_equality : Equality NamespacedName
name_equality = record { same = same_name; same_iff = same_name_iff }

-- The two maps that the watcher keeps for ConfigMaps, and the two for Secrets.
pub record Table : Type 0 where
  pub watchers : Dict NamespacedName (List Pod)
  pub keys_by_pod : Dict NamespacedName (List NamespacedName)

pub record Watcher : Type 0 where
  pub configs : Table
  pub secrets : Table

abbrev pub no_watches : Table
no_watches = record { watchers = []; keys_by_pod = [] }

unfoldable pub new_pod_resource_watcher : Watcher
new_pod_resource_watcher = record { configs = no_watches; secrets = no_watches }

abbrev pub key_of : Pod → NamespacedName
key_of p = record { namespace = p.namespace; name = p.name }

-- Both appends of one case of the switch in Watch.
unfoldable pub add_watch : Pod → NamespacedName → Table → Table
add_watch p key t = record {
  watchers = insert key (find_or [] key t.watchers ++ p ∷ []) t.watchers;
  keys_by_pod = insert (key_of p) (find_or [] (key_of p) t.keys_by_pod ++ key ∷ []) t.keys_by_pod;
}

abbrev pub object_key : Pod → String → NamespacedName
object_key p name = record { namespace = p.namespace; name = name }

-- The switch over a volume: a ConfigMap before a Secret, and nothing else.
unfoldable pub watch_volume : Pod → PodVolume → Watcher → Watcher
unfolding add_watch
watch_volume p v w = elim v.config_map [
  | some c ↦ record w { configs = add_watch p (object_key p c.name) w.configs }
  | none ↦ elim v.secret [
    | some s ↦ record w { secrets = add_watch p (object_key p s.secret_name) w.secrets }
    | none ↦ w
  ]
]

unfoldable pub watch_volumes : Pod → List PodVolume → Watcher → Watcher
unfolding watch_volume
watch_volumes p [] w = w
watch_volumes p (v ∷ vs) w = watch_volumes p vs (watch_volume p v w)

unfoldable pub watch : Pod → Watcher → Watcher
unfolding watch_volumes
watch p w = watch_volumes p p.volumes w

-- The loop over the pods of a key. Its variable hides the pod of the call, so the test compares a pod
-- with itself.
unfoldable pub watched_pods : List Pod → List Pod
watched_pods [] = []
watched_pods (p ∷ ps) =
    if p.namespace == p.namespace && p.name == p.name then watched_pods ps else p ∷ watched_pods ps

-- The body of the loop over the keys.
abbrev pub replace_watchers :
    NamespacedName → List Pod → Dict NamespacedName (List Pod) → Dict NamespacedName (List Pod)
replace_watchers key [] m = erase key m
replace_watchers key (p ∷ ps) m = insert key (p ∷ ps) m

unfoldable pub drop_watchers :
    List NamespacedName → Dict NamespacedName (List Pod) → Dict NamespacedName (List Pod)
unfolding watched_pods
drop_watchers [] m = m
drop_watchers (key ∷ keys) m =
    drop_watchers keys (replace_watchers key (watched_pods (find_or [] key m)) m)

unfoldable pub unwatch_table : Pod → Table → Table
unfolding drop_watchers
unwatch_table p t = record {
  watchers = drop_watchers (find_or [] (key_of p) t.keys_by_pod) t.watchers;
  keys_by_pod = erase (key_of p) t.keys_by_pod;
}

unfoldable pub unwatch : Pod → Watcher → Watcher
unfolding unwatch_table
unwatch p w = record { configs = unwatch_table p w.configs; secrets = unwatch_table p w.secrets }

-- What the informer hands over.
pub data Resource : Type 0 where
  config_map_update : ConfigMapObject → Resource
  secret_update : SecretObject → Resource
  other_update : Resource

-- The pods that handleEvent calls the updater for, in its order. An error of the updater is logged.
unfoldable pub handle_event : Resource → Watcher → List Pod
handle_event (config_map_update c) w =
    find_or [] (record { namespace = c.namespace; name = c.name }) w.configs.watchers
handle_event (secret_update s) w =
    find_or [] (record { namespace = s.namespace; name = s.name }) w.secrets.watchers
handle_event other_update w = []

-- The functions that the informers call; a deletion is passed over.
pub record ResourceEventHandlerFuncs : Type 0 where
  pub add_func : Resource → Watcher → List Pod
  pub update_func : Resource → Resource → Watcher → List Pod
  pub delete_func : Option (Resource → Watcher → List Pod)

unfoldable pub event_handler_funcs : ResourceEventHandlerFuncs
unfolding handle_event
event_handler_funcs = record {
  add_func = λ obj w. handle_event obj w;
  update_func = λ old_obj new_obj w. handle_event new_obj w;
  delete_func = none;
}
