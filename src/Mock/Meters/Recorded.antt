-- ===== src/Mock/Meters/Recorded.antt =====
-- The pgid file between runScriptParallel of internal/provider/mock/command.go, which writes it, and
-- the metrics, which read it.
use virtual_kubelet_cmd.Base.{
  String, true, Option, none, some, List, [], ◌∷◌, ◌++◌, ℤ, ◌≡◌, refl, inl, inr, Bool-cases, ◌<>◌,
  subst,
}
use virtual_kubelet_cmd.Base.Outcome.{ok, Ensures}
use virtual_kubelet_cmd.Disk.{Disk}
use virtual_kubelet_cmd.Host.{Host}
use virtual_kubelet_cmd.Kube.{Time, Container, Pod}
use virtual_kubelet_cmd.Mock.Command.Parallel.{Sent, record_group}
use virtual_kubelet_cmd.Mock.Command.Script.{Shell}
use virtual_kubelet_cmd.Mock.Meters.{read_pgid_from_file, pgid_file}

-- path.Join of a joined path and a name is one join.
abbrev pub JoinsFlat : Host → Type 0
JoinsFlat h =
    (xs : List String) (y : String)
    → h.path_join (h.path_join xs ∷ y ∷ []) ≡ h.path_join (xs ++ y ∷ [])

-- A later look at the same machine by the same process: the environment and path.Join are the same, the
-- number that was printed is parsed, and the first line of the file is that of the text written to it.
abbrev pub SeesFile : Host → Host → ℤ → String × String → Type 0
SeesFile h later n (file, text) =
    (later.path_join ≡ h.path_join)
    × (later.getenv ≡ h.getenv)
    × (later.atoi (h.itoa n) ≡ (n, true))
    × ((line : String) → text ≡ line <> "\n" → later.first_line file ≡ some line)

module _ (h : Host) (p : Pod) (c : Container) (pgid : ℤ) where
  -- If a pgid file is sent, it is the one of the container, with the group in it.
  abbrev IsWritten : Option (String × String) → Type 0
  IsWritten none = Unit
  IsWritten (some (file, text)) = (file ≡ pgid_file h p c) × (text ≡ h.itoa pgid <> "\n")

  record_group-IsWritten :
      (d : Disk) (sh : Shell) (start : Time) (script_path : String)
      → JoinsFlat h
      → Ensures
          (λ (s : Sent). IsWritten s.pgid_file)
          (record_group h d sh p start c script_path pgid)
  unfolding record_group
  record_group-IsWritten d sh start script_path flat =
      let place =
        flat (h.getenv "HOME" ∷ p.namespace ∷ p.name ∷ "containers" ∷ c.name ∷ []) "pgid" in
      let dir = h.getenv "HOME" ∷ p.namespace ∷ p.name ∷ "containers" ∷ c.name ∷ [] in
      elim (Bool-cases (d.write_file (h.path_join (h.path_join dir ∷ "pgid" ∷ [])))) [
        | inl e ↦ rw e (place, refl)
        | inr e ↦ rw e tt
      ]

  written :
      (sent : Sent) (file text : String)
      → sent.pgid_file ≡ some (file, text)
      → IsWritten sent.pgid_file
      → (file ≡ pgid_file h p c) × (text ≡ h.itoa pgid <> "\n")
  written sent file text f w = subst IsWritten f w

  -- When a goroutine of runScriptParallel sends a pgid file for a started container, the metrics read
  -- the container's group from the place where they look for it, if path.Join joins joined paths,
  -- and the later look at the machine has the same environment, the line that was written, and the
  -- number parsed from its own print.
  pub record_group-read_pgid :
      (d : Disk) (sh : Shell) (start : Time) (script_path : String) (later : Host) (sent : Sent)
      (file text : String)
      → JoinsFlat h
      → SeesFile h later pgid (file, text)
      → record_group h d sh p start c script_path pgid ≡ ok sent
      → sent.pgid_file ≡ some (file, text)
      → read_pgid_from_file later (pgid_file later p c) ≡ some pgid
  unfolding read_pgid_from_file
  record_group-read_pgid d sh start script_path later sent file text flat (j, g, n, l) e f =
      let w = written sent file text f (
        subst (Ensures (λ (s : Sent). IsWritten s.pgid_file)) e
          (record_group-IsWritten d sh start script_path flat)) in
      let line = subst (λ x. later.first_line x ≡ some (h.itoa pgid)) w.0 (l (h.itoa pgid) w.1) in
      rw (j, g, line, n) refl
