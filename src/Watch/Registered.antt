-- ===== src/Watch/Registered.antt =====
-- The invariant of the tables: each watch of a pod can be found again from the pod.
use virtual_kubelet_cmd.Base.{
  true, false, List, [], ◌∷◌, ◌++◌, ◌==◌, ◌≡◌, eq_refl, subst, Option-cases, sym, ◌∙◌,
  string_equality, if◌then◌else◌, arith, Bool-cases, inl, inr, All, All-append,
}
use virtual_kubelet_cmd.Base.Dict.{find_or, find-insert, find-erase}
use virtual_kubelet_cmd.Kube.{Pod, PodVolume}
use virtual_kubelet_cmd.Watch.Unwatch.{has_key, find-drop_watchers}
use virtual_kubelet_cmd.Watch.{
  NamespacedName, name_equality, Table, Watcher, key_of, object_key, add_watch, watch_volume,
  watch_volumes, watch, unwatch_table, unwatch, Resource, handle_event, config_map_update,
  secret_update, other_update,
}

-- The pod's entry of the reverse map names the object.
abbrev pub Names : Table → NamespacedName → Pod → Type 0
Names t k p = has_key k (find_or [] (key_of p) t.keys_by_pod) ≡ true

abbrev pub IsRegistered : Table → Type 0
IsRegistered t = (k : NamespacedName) → All (Names t k) (find_or [] k t.watchers)

has_key-append_left :
    (k : NamespacedName) (js ks : List NamespacedName)
    → has_key k js ≡ true
    → has_key k (js ++ ks) ≡ true
has_key-append_left k [] ks e = cc
has_key-append_left k (j ∷ js) ks e = ground (arith, has_key-append_left k js ks)

has_key-append_last :
    (k : NamespacedName) (js : List NamespacedName) → has_key k (js ++ k ∷ []) ≡ true
has_key-append_last k [] = ground (arith, eq_refl k)
has_key-append_last k (j ∷ js) = ground (arith, has_key-append_last k js)

All-mono : {P Q : Pod → Type 0} (ps : List Pod) → ((p : Pod) → P p → Q p) → All P ps → All Q ps
All-mono [] f a = tt
All-mono (p ∷ ps) f (h, a) = (f p h, All-mono ps f a)

-- An added watch keeps what the reverse map names.
Names-add_watch :
    (p : Pod) (key k : NamespacedName) (t : Table) (q : Pod)
    → Names t k q
    → Names (add_watch p key t) k q
unfolding add_watch
Names-add_watch p key k t q h = elim (Bool-cases (key_of p == key_of q)) [
  | inl e ↦
      rw (find-insert, e)
        (has_key-append_left k (find_or [] (key_of p) t.keys_by_pod) (key ∷ [])
          (rw ((name_equality.same_iff (key_of p) (key_of q)).0 e) h))
  | inr e ↦ rw (find-insert, e) h
]

Names-added : (p : Pod) (key : NamespacedName) (t : Table) → Names (add_watch p key t) key p
unfolding add_watch
Names-added p key t =
    rw (find-insert, eq_refl) (has_key-append_last key (find_or [] (key_of p) t.keys_by_pod))

watchers-added :
    (p : Pod) (key : NamespacedName) (t : Table) (k : NamespacedName)
    → find_or [] k (add_watch p key t).watchers
      ≡ (if key == k then find_or [] key t.watchers ++ p ∷ [] else find_or [] k t.watchers)
unfolding add_watch
watchers-added p key t k = rw find-insert (ground arith)

pub add_watch-IsRegistered :
    (p : Pod) (key : NamespacedName) (t : Table) → IsRegistered t → IsRegistered (add_watch p key t)
add_watch-IsRegistered p key t r k = elim (Bool-cases (key == k)) [
  | inl e ↦
      subst (λ j. All (Names (add_watch p key t) j) (find_or [] j (add_watch p key t).watchers))
        ((name_equality.same_iff key k).0 e)
        (rw (watchers-added p key t key, eq_refl key)
          (All-append (Names (add_watch p key t) key) (find_or [] key t.watchers) (p ∷ [])
            (All-mono (find_or [] key t.watchers) (Names-add_watch p key key t) (r key))
            (Names-added p key t, tt)))
  | inr e ↦
      rw (watchers-added p key t k, e)
        (All-mono (find_or [] k t.watchers) (Names-add_watch p key k t) (r k))
]

-- Every table of the watcher has the invariant.
abbrev pub AreRegistered : Watcher → Type 0
AreRegistered w = IsRegistered w.configs × IsRegistered w.secrets

watch_volume-AreRegistered :
    (p : Pod) (v : PodVolume) (w : Watcher) → AreRegistered w → AreRegistered (watch_volume p v w)
unfolding watch_volume
watch_volume-AreRegistered p v w (c, s) = elim (Option-cases v.config_map) [
  | inr (m, e) ↦ rw e (add_watch-IsRegistered p (object_key p m.name) w.configs c, s)
  | inl e ↦ elim (Option-cases v.secret) [
    | inr (m, f) ↦ rw (e, f) (c, add_watch-IsRegistered p (object_key p m.secret_name) w.secrets s)
    | inl f ↦ rw (e, f) (c, s)
  ]
]

watch_volumes-AreRegistered :
    (p : Pod) (vs : List PodVolume) (w : Watcher)
    → AreRegistered w
    → AreRegistered (watch_volumes p vs w)
unfolding watch_volumes
watch_volumes-AreRegistered p [] w r = r
watch_volumes-AreRegistered p (v ∷ vs) w r =
    watch_volumes-AreRegistered p vs (watch_volume p v w) (watch_volume-AreRegistered p v w r)

-- Watch keeps the invariant of both tables: each watcher of an object is a pod whose entry of the
-- reverse map names the object.
pub watch-AreRegistered : (p : Pod) (w : Watcher) → AreRegistered w → AreRegistered (watch p w)
unfolding watch
watch-AreRegistered p w r = watch_volumes-AreRegistered p p.volumes w r

-- Without the keys of the pod, the pods of a key are found as before, or none are.
unwatched_watchers :
    (p : Pod) (t : Table) (k : NamespacedName)
    → find_or [] k (unwatch_table p t).watchers
      ≡ (if has_key k (find_or [] (key_of p) t.keys_by_pod) then [] else find_or [] k t.watchers)
unfolding unwatch_table
unwatched_watchers p t k =
    rw (find-drop_watchers k (find_or [] (key_of p) t.keys_by_pod) t.watchers) (ground arith)

-- A pod that the reverse map names for a key that the removed pod has not is another pod, and stays
-- named.
Names-other :
    (p q : Pod) (t : Table) (k : NamespacedName)
    → has_key k (find_or [] (key_of p) t.keys_by_pod) ≡ false
    → Names t k q
    → ((key_of p == key_of q) ≡ false) × Names (unwatch_table p t) k q
unfolding unwatch_table
Names-other p q t k f n = elim (Bool-cases (key_of p == key_of q)) [
  | inl e ↦
      let same = (name_equality.same_iff (key_of p) (key_of q)).0 e in
      let clash : false ≡ true =
        sym f ∙ subst (λ j. has_key k (find_or [] j t.keys_by_pod) ≡ true) (sym same) n in
      cc
  | inr e ↦ (e, rw (find-erase, e) n)
]

-- The pods that are left are other pods than the removed one, and the reverse map names them.
abbrev Others : Pod → Table → NamespacedName → Pod → Type 0
Others p t k q = ((key_of p == key_of q) ≡ false) × Names (unwatch_table p t) k q

left-Others :
    (p : Pod) (t : Table) (k : NamespacedName)
    → IsRegistered t
    → All (Others p t k) (find_or [] k (unwatch_table p t).watchers)
left-Others p t k r = elim (Bool-cases (has_key k (find_or [] (key_of p) t.keys_by_pod))) [
  | inl e ↦ rw (unwatched_watchers p t k, e) tt
  | inr e ↦
      rw (unwatched_watchers p t k, e)
        (All-mono (find_or [] k t.watchers) (λ q. Names-other p q t k e) (r k))
]

-- Unwatch keeps the invariant of both tables: each watcher of an object is a pod whose entry of the
-- reverse map names the object.
pub unwatch-AreRegistered : (p : Pod) (w : Watcher) → AreRegistered w → AreRegistered (unwatch p w)
unfolding unwatch
unwatch-AreRegistered p w (c, s) = (
  λ k.
      All-mono (find_or [] k (unwatch_table p w.configs).watchers) (λ q o. o.1)
        (left-Others p w.configs k c),
  λ k.
      All-mono (find_or [] k (unwatch_table p w.secrets).watchers) (λ q o. o.1)
        (left-Others p w.secrets k s),
)

-- When the tables have the invariant, an update after Unwatch of a pod is told to no pod with its
-- namespace and name.
pub unwatch_silences :
    (p : Pod) (r : Resource) (w : Watcher)
    → AreRegistered w
    → All (λ q. (key_of p == key_of q) ≡ false) (handle_event r (unwatch p w))
unfolding handle_event unwatch
unwatch_silences p (config_map_update m) w (c, s) =
    All-mono (find_or [] _ (unwatch_table p w.configs).watchers) (λ q o. o.0)
      (left-Others p w.configs _ c)
unwatch_silences p (secret_update m) w (c, s) =
    All-mono (find_or [] _ (unwatch_table p w.secrets).watchers) (λ q o. o.0)
      (left-Others p w.secrets _ s)
unwatch_silences p other_update w (c, s) = tt
