-- ===== src/Mock/Config/Parsed.antt =====
-- Which configuration files loadConfig takes.
use virtual_kubelet_cmd.Base.{
  String, Bool, true, false, Option, none, some, [], ◌∷◌, ◌≡◌, ◌↔◌, ◌==◌, refl, string_equality,
  if◌then◌else◌, All, ◌<>◌, subst, sym, ap,
}
use virtual_kubelet_cmd.Base.Dict.{Dict, find}
use virtual_kubelet_cmd.Base.Outcome.{Outcome, ok, err, ◌>>◌, then_assoc, ok_injective}
use virtual_kubelet_cmd.Errors.{Error, plain}
use virtual_kubelet_cmd.Mock.Config.{
  Machine, MockConfig, node_config, with_default_capacities, require_quantity, check_others,
  check_config, load_config,
}

-- What a text of a quantity has to be.
abbrev IsQuantity : Machine → String → Type 0
IsQuantity m s = m.parses s ≡ true

abbrev HasQuantity : Machine → String × String → Type 0
HasQuantity m (k, v) = IsQuantity m v

abbrev pub AreQuantities : Machine → MockConfig → Type 0
AreQuantities m c =
    IsQuantity m c.cpu × IsQuantity m c.memory × IsQuantity m c.pods × All (HasQuantity m) c.others

-- The configuration of a node by its entry in the file: its own CPU, memory and pods, or 20, 100Gi
-- and 20 where they are empty, with its other fields; and nothing at all without an entry.
abbrev pub entry_config : Option MockConfig → MockConfig
entry_config none = record { cpu = ""; memory = ""; pods = ""; others = []; provider_id = "" }
entry_config (some c) = record {
  cpu = if c.cpu == "" then "20" else c.cpu;
  memory = if c.memory == "" then "100Gi" else c.memory;
  pods = if c.pods == "" then "20" else c.pods;
  others = c.others;
  provider_id = c.provider_id;
}

node_config-entry_config : (o : Option MockConfig) → node_config o ≡ entry_config o
unfolding node_config with_default_capacities
node_config-entry_config none = refl
node_config-entry_config (some c) = refl

-- A check is passed exactly when its test holds.
passes :
    {B : Type 0} (t : Bool) (e : Error) (k : Outcome Error B) (b : B)
    → (((if t then ok tt else err e) >> k) ≡ ok b) ↔ ((t ≡ true) × (k ≡ ok b))
passes true e k b = (λ h. (refl, h), λ p. p.1)
passes false e k b = (λ h. cc, λ p. let q = p.0 in cc)

module _ (m : Machine) where
  require_quantity_iff :
      {B : Type 0} (what v : String) (k : Outcome Error B) (b : B)
      → ((require_quantity m what v >> k) ≡ ok b) ↔ (IsQuantity m v × (k ≡ ok b))
  require_quantity_iff what v k b =
      passes (m.parses v) (plain ("invalid " <> what <> " value " <> v)) k b

  check_others_iff :
      {B : Type 0} (others : Dict String String) (k : Outcome Error B) (b : B)
      → ((check_others m others >> k) ≡ ok b) ↔ (All (HasQuantity m) others × (k ≡ ok b))
  unfolding check_others
  check_others_iff [] k b = (λ h. (tt, h), λ p. p.1)
  check_others_iff ((n, v) ∷ rest) k b =
      let p = require_quantity_iff "others" v (check_others m rest >> k) b in
      let q = check_others_iff rest k b in
      rw (then_assoc (require_quantity m "others" v) (check_others m rest) k)
        (λ h. let r = q.0 (p.0 h).1 in (((p.0 h).0, r.0), r.1), λ s. p.1 (s.0.0, q.1 (s.0.1, s.1)))

  -- A configuration passes the checks exactly when each of its texts is a quantity.
  check_config_iff :
      (c d : MockConfig)
      → (check_config m c ≡ ok d)
        ↔ (AreQuantities m c × (◌≡◌ {A = Outcome Error MockConfig} (ok c) (ok d)))
  unfolding check_config
  check_config_iff c d =
      let cpu = require_quantity m "CPU" c.cpu in
      let memory = require_quantity m "memory" c.memory in
      let pods = require_quantity m "pods" c.pods in
      let others = check_others m c.others in
      let p0 = require_quantity_iff "CPU" c.cpu (memory >> (pods >> (others >> ok c))) d in
      let p1 = require_quantity_iff "memory" c.memory (pods >> (others >> ok c)) d in
      let p2 = require_quantity_iff "pods" c.pods (others >> ok c) d in
      let p3 = check_others_iff c.others (ok c) d in
      rw
        (
          then_assoc (cpu >> memory >> pods) others (ok c),
          then_assoc (cpu >> memory) pods (others >> ok c),
          then_assoc cpu memory (pods >> (others >> ok c)),
        )
        (
          λ h.
              let r0 = p0.0 h in
              let r1 = p1.0 r0.1 in
              let r2 = p2.0 r1.1 in let r3 = p3.0 r2.1 in ((r0.0, r1.0, r2.0, r3.0), r3.1),
          λ s. p0.1 (s.0.0, p1.1 (s.0.1, p2.1 (s.0.2, p3.1 (s.0.3, s.1)))),
        )

-- loadConfig of a file that can be read and decoded gives a configuration exactly when it is the
-- node's entry, with 20, 100Gi and 20 for an empty CPU, memory and pods (an empty one where the file
-- has no entry for the node), and its CPU, memory, pods and others are all quantities.
pub load_config_iff :
    (m : Machine) (path name text : String) (configs : Dict String MockConfig) (c : MockConfig)
    → (path == "") ≡ false
    → m.read_file path ≡ ok text
    → m.unmarshal text ≡ ok configs
    → (load_config m path name ≡ ok c)
      ↔ ((entry_config (find name configs) ≡ c) × AreQuantities m c)
unfolding load_config
load_config_iff m path name text configs c e f g =
    let p = check_config_iff m (node_config (find name configs)) c in
    rw (e, f, g, sym (node_config-entry_config (find name configs)))
      (
        λ h. let r = p.0 h in let q = ok_injective r.1 in (q, subst (AreQuantities m) q r.0),
        λ s. p.1 (subst (AreQuantities m) (sym s.0) s.1, ap ok s.0),
      )
