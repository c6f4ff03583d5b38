-- ===== src/Mock/Volumes/Inside.antt =====
-- The loops over the data of an object write inside the directory of the pod.
use virtual_kubelet_cmd.Base.{
  String, Bool, true, false, List, [], ◌∷◌, ◌==◌, string_equality, if◌then◌else◌,
}
use virtual_kubelet_cmd.Base.Dict.{Dict, insert}
use virtual_kubelet_cmd.Disk.{Disk}
use virtual_kubelet_cmd.Host.{Host}
use virtual_kubelet_cmd.Kube.{KeyToPath, Pod, SecretObject, ConfigMapObject}
use virtual_kubelet_cmd.Mock.Volumes.Confined.{
  IsKind, IsVolume, IsDir, Confined, Anything, bind-Confined, or_fail-Confined, pure-Confined,
  setup_paths-IsDir, write_file-Confined, write_all-Confined,
}
use virtual_kubelet_cmd.Mock.Volumes.Files.{
  Action, pure, ◌>>=◌, ◌>>◌, or_fail, write_file, setup_paths, write_all, write_decoded, write_item,
  write_item_decoded, write_secret, write_config_map, write_items, write_secret_items,
  uid_gid_from_security_context,
}

module _ (h : Host) (d : Disk) (p : Pod) where
  -- One action after another.
  seq :
      {B : Type 0} (m : Action (Unit {0})) (k : Action B)
      → Confined h p Anything m
      → Confined h p Anything k
      → Confined h p Anything (m >> k)
  seq m k c e = bind-Confined h p Anything Anything m (λ u. k) c (λ u q. e)

  either-Confined :
      {A : Type 0} (b : Bool) (m n : Action A)
      → Confined h p Anything m
      → Confined h p Anything n
      → Confined h p Anything (if b then m else n)
  either-Confined true m n c e = c
  either-Confined false m n c e = e

  abbrev file_of : String → String → String → Action (Unit {0})
  file_of dir k v =
      write_file h d dir k (uid_gid_from_security_context p).0 (uid_gid_from_security_context p).1 v

  write_decoded-Confined :
      (dir : String) (m : Dict String String)
      → IsDir h p dir
      → Confined h p Anything (write_decoded h d p dir m)
  unfolding write_decoded
  write_decoded-Confined dir [] e = pure-Confined h p tt
  write_decoded-Confined dir ((k, v) ∷ m) e =
      bind-Confined h p Anything Anything (or_fail (d.base64_decode v) "base64")
        (λ c. file_of dir k c >> write_decoded h d p dir m)
        (or_fail-Confined h p (d.base64_decode v) "base64")
        (λ c q.
          seq (file_of dir k c) (write_decoded h d p dir m)
            (write_file-Confined h d p dir k _ _ c e) (write_decoded-Confined dir m e))

  write_item-Confined :
      (dir : String) (item : KeyToPath) (m : Dict String String)
      → IsDir h p dir
      → Confined h p Anything (write_item h d p dir item m)
  unfolding write_item
  write_item-Confined dir item [] e = pure-Confined h p tt
  write_item-Confined dir item ((k, v) ∷ m) e =
      seq (if item.key == k then file_of dir item.path v else pure tt) (write_item h d p dir item m)
        (either-Confined (item.key == k) (file_of dir item.path v) (pure tt)
          (write_file-Confined h d p dir item.path _ _ v e) (pure-Confined h p tt))
        (write_item-Confined dir item m e)

  abbrev decoded_of : String → KeyToPath → String → Action (Unit {0})
  decoded_of dir item v = or_fail (d.base64_decode v) "base64" >>= λ c. file_of dir item.path c

  write_item_decoded-Confined :
      (dir : String) (item : KeyToPath) (m : Dict String String)
      → IsDir h p dir
      → Confined h p Anything (write_item_decoded h d p dir item m)
  unfolding write_item_decoded
  write_item_decoded-Confined dir item [] e = pure-Confined h p tt
  write_item_decoded-Confined dir item ((k, v) ∷ m) e =
      seq (if item.key == k then decoded_of dir item v else pure tt)
        (write_item_decoded h d p dir item m)
        (either-Confined (item.key == k) (decoded_of dir item v) (pure tt)
          (bind-Confined h p Anything Anything (or_fail (d.base64_decode v) "base64")
            (file_of dir item.path) (or_fail-Confined h p (d.base64_decode v) "base64")
            (λ c q. write_file-Confined h d p dir item.path _ _ c e))
          (pure-Confined h p tt))
        (write_item_decoded-Confined dir item m e)

  pub write_items-Confined :
      (dir : String) (items : List KeyToPath) (cm : ConfigMapObject)
      → IsDir h p dir
      → Confined h p Anything (write_items h d p dir items cm)
  unfolding write_items
  write_items-Confined dir [] cm e = pure-Confined h p tt
  write_items-Confined dir (item ∷ items) cm e =
      seq (write_item h d p dir item cm.text_data)
        (write_item h d p dir item cm.binary_data >> write_items h d p dir items cm)
        (write_item-Confined dir item cm.text_data e)
        (seq (write_item h d p dir item cm.binary_data) (write_items h d p dir items cm)
          (write_item-Confined dir item cm.binary_data e) (write_items-Confined dir items cm e))

  pub write_secret_items-Confined :
      (dir : String) (items : List KeyToPath) (s : SecretObject)
      → IsDir h p dir
      → Confined h p Anything (write_secret_items h d p dir items s)
  unfolding write_secret_items
  write_secret_items-Confined dir [] s e = pure-Confined h p tt
  write_secret_items-Confined dir (item ∷ items) s e =
      seq (write_item_decoded h d p dir item s.string_data)
        (write_item h d p dir item s.bytes_data >> write_secret_items h d p dir items s)
        (write_item_decoded-Confined dir item s.string_data e)
        (seq (write_item h d p dir item s.bytes_data) (write_secret_items h d p dir items s)
          (write_item-Confined dir item s.bytes_data e) (write_secret_items-Confined dir items s e))

  pub write_secret-Confined :
      (dir : String) (s : SecretObject)
      → IsDir h p dir
      → Confined h p Anything (write_secret h d p dir s)
  unfolding write_secret
  write_secret-Confined dir s e =
      seq (write_decoded h d p dir s.string_data) (write_all h d p dir s.bytes_data)
        (write_decoded-Confined dir s.string_data e) (write_all-Confined h d p dir s.bytes_data e)

  pub write_config_map-Confined :
      (dir : String) (cm : ConfigMapObject)
      → IsDir h p dir
      → Confined h p Anything (write_config_map h d p dir cm)
  unfolding write_config_map
  write_config_map-Confined dir cm e =
      seq (write_all h d p dir cm.text_data) (write_all h d p dir cm.binary_data)
        (write_all-Confined h d p dir cm.text_data e)
        (write_all-Confined h d p dir cm.binary_data e)

  -- The directory of a volume is made, filled, and put into the map.
  abbrev pub fill_dir :
      String
      → String
      → Dict String String
      → (String → Action (Unit {0}))
      → Action (Dict String String)
  fill_dir kind name vol fill =
      setup_paths h d p kind name >>= λ dir. fill dir >> pure (insert name dir vol)

  pub fill_dir-Confined :
      (kind name : String) (vol : Dict String String) (fill : String → Action (Unit {0}))
      → IsKind kind
      → IsVolume p name
      → ((dir : String) → IsDir h p dir → Confined h p Anything (fill dir))
      → Confined h p Anything (fill_dir kind name vol fill)
  fill_dir-Confined kind name vol fill is n k =
      bind-Confined h p (IsDir h p) Anything (setup_paths h d p kind name)
        (λ dir. fill dir >> pure (insert name dir vol)) (setup_paths-IsDir h d p kind name is n)
        (λ dir q.
          seq (fill dir) (pure (insert name dir vol)) (k dir q)
            (pure-Confined h p (insert name dir vol)))
