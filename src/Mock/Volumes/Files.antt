-- ===== src/Mock/Volumes/Files.antt =====
-- The writes of internal/provider/mock/volumes.go, and the IDs of security_context.go. An action
-- carries the files written so far; a failure leaves them written.
use virtual_kubelet_cmd.Base.{
  String, Bool, true, false, Option, none, some, List, [], ◌∷◌, ℤ, negsuc, ◌==◌, string_equality,
  if◌then◌else◌,
}
use virtual_kubelet_cmd.Base.Dict.{Dict}
use virtual_kubelet_cmd.Base.Outcome.{Outcome, ok, err, panic}
use virtual_kubelet_cmd.Disk.{Disk}
use virtual_kubelet_cmd.Errors.{Error, external}
use virtual_kubelet_cmd.Host.{Host}
use virtual_kubelet_cmd.Kube.{KeyToPath, Pod, SecretObject, ConfigMapObject}

-- A file put in place: its path and its contents.
pub record Write : Type 0 where
  pub path : String
  pub contents : String

abbrev pub Action : Type 0 → Type 0
Action A = List Write → Outcome Error A × List Write

abbrev pub pure : {A : Type 0} → A → Action A
pure a ws = (ok a, ws)

abbrev pub fail : {A : Type 0} → Error → Action A
fail e ws = (err e, ws)

abbrev pub crash : {A : Type 0} → Action A
crash ws = (panic, ws)

infixl 5 ◌>>=◌ ◌>>◌
abbrev pub ◌>>=◌ : {A B : Type 0} → Action A → (A → Action B) → Action B
◌>>=◌ m f ws =
    let (r, ws') = m ws in elim r [ ok a ↦ f a ws' | err e ↦ (err e, ws') | panic ↦ (panic, ws') ]

abbrev pub ◌>>◌ : {A B : Type 0} → Action A → Action B → Action B
m >> k = m >>= λ _. k

-- `if !done { return err }` on the error of a call.
abbrev pub require : Bool → String → Action (Unit {0})
require true what ws = (ok tt, ws)
require false what ws = (err (external what), ws)

abbrev pub or_fail : {A : Type 0} → Option A → String → Action A
or_fail none what ws = (err (external what), ws)
or_fail (some a) what ws = (ok a, ws)

-- The security context gives no IDs: both are empty with or without one, and there is no error.
unfoldable pub uid_gid_from_security_context : Pod → String × String
uid_gid_from_security_context p = if p.has_security_context then ("", "") else ("", "")

module _ (h : Host) (d : Disk) where
  abbrev id_or_none : ℤ × Bool → ℤ
  id_or_none (n, done) = if done then n else negsuc 0

  -- A name that is no number stands for -1, which leaves the owner as it is.
  unfoldable pub chown : String → String → String → Action (Unit {0})
  chown name uid gid =
      require (d.chown name (id_or_none (d.parse_int uid)) (id_or_none (d.parse_int gid))) "chown"

  unfoldable pub mkdir_all_chown : String → String → String → Action (Unit {0})
  unfolding chown
  mkdir_all_chown path uid gid = do require (d.mkdir_all path) "mkdir"; chown path uid gid

  -- The data goes to a temporary file, which then is renamed.
  unfoldable pub write_file : String → String → String → String → String → Action (Unit {0})
  unfolding chown
  write_file dir file uid gid contents = do
    tmpfile ← or_fail (d.temp_file dir) "tempfile"
    chown tmpfile uid gid
    require (d.write_file tmpfile) "write"
    let path = h.path_join (dir ∷ file ∷ [])
    require (d.rename tmpfile path) "rename"
    λ ws. (ok tt, record { path = path; contents = contents } ∷ ws)

  -- HOME/<namespace>/<pod>/<path>/<s>, made with its parent.
  unfoldable pub setup_paths : Pod → String → String → Action String
  unfolding mkdir_all_chown
  setup_paths p path s = do
    let ids = uid_gid_from_security_context p
    let parent = h.path_join (h.getenv "HOME" ∷ p.namespace ∷ p.name ∷ path ∷ [])
    mkdir_all_chown parent ids.0 ids.1
    let dir = h.path_join (parent ∷ s ∷ [])
    mkdir_all_chown dir ids.0 ids.1
    pure dir

module _ (h : Host) (d : Disk) (p : Pod) where
  -- The loops over the data of a secret or a config map.
  unfoldable pub write_all : String → Dict String String → Action (Unit {0})
  unfolding uid_gid_from_security_context
  write_all dir [] = pure tt
  write_all dir ((k, v) ∷ rest) = do
    write_file h d dir k (uid_gid_from_security_context p).0 (uid_gid_from_security_context p).1 v
    write_all dir rest

  unfoldable pub write_decoded : String → Dict String String → Action (Unit {0})
  write_decoded dir [] = pure tt
  write_decoded dir ((k, v) ∷ rest) = do
    contents ← or_fail (d.base64_decode v) "base64"
    write_file h d dir k (uid_gid_from_security_context p).0 (uid_gid_from_security_context p).1
        contents
    write_decoded dir rest

  -- The entries whose key is the item's go to the item's path.
  unfoldable pub write_item : String → KeyToPath → Dict String String → Action (Unit {0})
  write_item dir item [] = pure tt
  write_item dir item ((k, v) ∷ rest) = do
    (if item.key == k
        then write_file h d dir item.path (uid_gid_from_security_context p).0
            (uid_gid_from_security_context p).1 v
        else pure tt)
    write_item dir item rest

  unfoldable pub write_item_decoded : String → KeyToPath → Dict String String → Action (Unit {0})
  write_item_decoded dir item [] = pure tt
  write_item_decoded dir item ((k, v) ∷ rest) = do
    (if item.key == k
        then (do
          contents ← or_fail (d.base64_decode v) "base64"
          write_file h d dir item.path (uid_gid_from_security_context p).0
              (uid_gid_from_security_context p).1 contents)
        else pure tt)
    write_item_decoded dir item rest

  unfoldable pub write_secret : String → SecretObject → Action (Unit {0})
  unfolding write_all write_decoded
  write_secret dir s = do write_decoded dir s.string_data; write_all dir s.bytes_data

  unfoldable pub write_config_map : String → ConfigMapObject → Action (Unit {0})
  unfolding write_all
  write_config_map dir cm = do write_all dir cm.text_data; write_all dir cm.binary_data

  -- The items of a projected source, in turn.
  unfoldable pub write_items : String → List KeyToPath → ConfigMapObject → Action (Unit {0})
  unfolding write_item
  write_items dir [] cm = pure tt
  write_items dir (item ∷ items) cm = do
    write_item dir item cm.text_data
    write_item dir item cm.binary_data
    write_items dir items cm

  unfoldable pub write_secret_items : String → List KeyToPath → SecretObject → Action (Unit {0})
  unfolding write_item write_item_decoded
  write_secret_items dir [] s = pure tt
  write_secret_items dir (item ∷ items) s = do
    write_item_decoded dir item s.string_data
    write_item dir item s.bytes_data
    write_secret_items dir items s
