-- ===== src/Root/Store.antt =====
-- internal/provider/store.go and types.go, and the providers command: the init functions by name.
-- Each operation holds the lock, so it is one step. `F` is the type of init functions; nil is none.
use virtual_kubelet_cmd.Base.{
  String, ℤ, Bool, false, ◌||◌, Option, none, some, List, [], ◌∷◌, ◌==◌, ◌≡◌, refl, subst, map,
  string_equality, if◌then◌else◌, arith, is_some,
}
use virtual_kubelet_cmd.Base.Dict.{Dict, find, insert, find-insert}
use virtual_kubelet_cmd.Base.Outcome.{Outcome, ok, err}
use virtual_kubelet_cmd.Errors.{Error, invalid_input}
use virtual_kubelet_cmd.Manager.{ResourceManager}

-- InitConfig of internal/provider/provider.go
pub record InitConfig : Type 0 where
  pub config_path : String
  pub node_name : String
  pub operating_system : String
  pub internal_ip : String
  pub daemon_port : ℤ
  pub kube_cluster_domain : String
  pub resource_manager : ResourceManager

module _ (F : Type 0) where
  -- NewStore
  unfoldable pub new_store : Dict String F
  new_store = []

module _ {F : Type 0} where
  unfoldable pub register : String → Option F → Dict String F → Outcome Error (Dict String F)
  register name none s = err (invalid_input "provided init function cannot not be nil")
  register name (some f) s = ok (insert name f s)

  unfoldable pub get : String → Dict String F → Option F
  get name s = find name s

  abbrev pub name_of : String × F → String
  name_of (name, f) = name

  unfoldable pub list : Dict String F → List String
  list s = map name_of s

  unfoldable pub exists : String → Dict String F → Bool
  exists name s = is_some (find name s)

-- ValidOperatingSystems
unfoldable pub valid_operating_system : String → Bool
valid_operating_system s = s == "linux" || s == "windows"

-- What the providers command prints, or that it exits with 1.
pub data Printed : Type 0 where
  prints : List String → Printed
  exits : String → Printed

-- Whether a name is in a list of names.
abbrev pub has_name : String → List String → Bool
has_name name [] = false
has_name name (n ∷ ns) = n == name || has_name name ns

module _ {F : Type 0} where
  unfoldable pub providers_command : List String → Dict String F → Printed
  unfolding list exists
  providers_command [] s = prints (list s)
  providers_command (name ∷ []) s = if exists name s then prints (name ∷ []) else exits name
  providers_command (a ∷ b ∷ rest) s = prints []

  -- Exists finds exactly the names that List gives.
  pub exists-list : (name : String) (s : Dict String F) → exists name s ≡ has_name name (list s)
  unfolding exists list find
  exists-list name [] = refl
  exists-list name ((n, f) ∷ s) = ground (arith, exists-list name s)

  -- After a provider is registered, Get gives its init function for the name and what it gave
  -- before for any other name, and Exists finds the name and what it found before.
  pub register-get :
      (name other : String) (f : F) (s s' : Dict String F)
      → register name (some f) s ≡ ok s'
      → (get other s' ≡ (if name == other then some f else get other s))
        × (exists other s' ≡ (name == other || exists other s))
  unfolding register get exists
  register-get name other f s s' e =
      subst
        (λ t.
          (find other t ≡ (if name == other then some f else find other s))
          × (is_some (find other t) ≡ (name == other || is_some (find other s))))
        (registered e) (find-insert name other f s, rw (find-insert name other f s) (ground arith))
    where
      registered :
          {a b : Dict String F} → ◌≡◌ {A = Outcome Error (Dict String F)} (ok a) (ok b) → a ≡ b
      registered e = cc
