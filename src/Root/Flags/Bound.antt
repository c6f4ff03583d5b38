-- ===== src/Root/Flags/Bound.antt =====
-- What no command line changes.
use virtual_kubelet_cmd.Base.{
  String, Bool, true, false, Option, none, List, [], ◌∷◌, ℤ, ◌==◌, ◌≡◌, refl, ◌∙◌, string_equality,
  inl, inr, All, Bool-cases, split_once, is_some, if◌then◌else◌, ◌<>◌, ap, sym, subst,
}
use virtual_kubelet_cmd.Base.Dict.{Dict, find}
use virtual_kubelet_cmd.Base.Outcome.{
  Outcome, ok, err, panic, ◌>>=◌, Ensures, Ensures-bind, Ensures-weaken, Ensures-both, Ensures-of,
}
use virtual_kubelet_cmd.Errors.{Error, plain}
use virtual_kubelet_cmd.Root.Flag.{set_flag, set_flag_unmade}
use virtual_kubelet_cmd.Root.Flags.{
  Pflag, Binding, string_var, int_var, bool_var, duration_var, string_slice_var, map_var,
  install_flags, set_binding, set_found, parse_flags, with_trace_tags,
}
use virtual_kubelet_cmd.Root.Opts.{Opts}
use virtual_kubelet_cmd.Root.Store.{has_name}

-- The fields that no flag is bound to, and trace tags that were never made.
abbrev pub Keeps : Opts → Opts → Type 0
Keeps c c' =
    (c'.listen_port ≡ c.listen_port)
    × (c'.taint_effect ≡ c.taint_effect)
    × (c'.version ≡ c.version)
    × ((c.trace_config.tags ≡ none) → c'.trace_config.tags ≡ none)

abbrev fixed : Opts → ℤ × String × String × Option (Dict String String)
fixed c = (c.listen_port, c.taint_effect, c.version, c.trace_config.tags)

-- A binding whose flag keeps them, whatever its text.
abbrev IsBound : Binding → Type 0
IsBound b =
    (p : Pflag) (seen : Bool) (v : String) (c : Opts) → Ensures (Keeps c) (set_binding p seen b v c)

-- The same, and no trace tag either.
abbrev AllFixed : {A : Type 0} → (A → Opts → Opts) → Type 0
AllFixed {A} set = (a : A) (c : Opts) → fixed (set a c) ≡ fixed c

fixed-Keeps : (c c' : Opts) → fixed c' ≡ fixed c → Keeps c c'
fixed-Keeps c c' e = (ap (λ t. t.0) e, ap (λ t. t.1) e, ap (λ t. t.2) e, λ n. ap (λ t. t.3) e ∙ n)

parsed-Keeps :
    {A : Type 0} (o : Outcome Error A) (set : A → Opts → Opts) (c : Opts)
    → AllFixed set
    → Ensures (Keeps c) (o >>= λ a. ok (set a c))
parsed-Keeps (ok a) set c k = fixed-Keeps c (set a c) (k a c)
parsed-Keeps (err e) set c k = tt
parsed-Keeps panic set c k = tt

string-IsBound : (set : String → Opts → Opts) → AllFixed set → IsBound (string_var set)
unfolding set_binding
string-IsBound set k p seen v c = fixed-Keeps c (set v c) (k v c)

int-IsBound : (set : ℤ → Opts → Opts) → AllFixed set → IsBound (int_var set)
unfolding set_binding
int-IsBound set k p seen v c = parsed-Keeps (p.parse_int v) set c k

bool-IsBound : (set : Bool → Opts → Opts) → AllFixed set → IsBound (bool_var set)
unfolding set_binding
bool-IsBound set k p seen v c = parsed-Keeps (p.parse_bool v) set c k

duration-IsBound : (set : ℤ → Opts → Opts) → AllFixed set → IsBound (duration_var set)
unfolding set_binding
duration-IsBound set k p seen v c = parsed-Keeps (p.parse_duration v) set c k

slice-IsBound :
    (get : Opts → List String) (set : List String → Opts → Opts)
    → AllFixed set
    → IsBound (string_slice_var get set)
unfolding set_binding
slice-IsBound get set k p seen v c = parsed-Keeps (p.set_slice seen (get c) v) set c k

-- A tag is never read into a map that was never made.
unmade_tag : (v : String) (m : Option (Dict String String)) → ¬ (set_flag v none ≡ ok m)
unmade_tag v m = rw (set_flag_unmade v) (refused (is_some (split_once v)))
  where
    refused :
        (b : Bool)
        → ¬ (
            (if b then panic else err (plain ("invalid format, must be `key=value`: " <> v)))
            ≡ ok m)
    refused true = λ e. cc
    refused false = λ e. cc

tag_made :
    (c : Opts) (t : Option (Dict String String)) (o : Outcome Error (Option (Dict String String)))
    → c.trace_config.tags ≡ t
    → ((m : Option (Dict String String)) → (t ≡ none) → ¬ (o ≡ ok m))
    → Ensures (Keeps c) (o >>= λ m. ok (with_trace_tags m c))
tag_made c t (ok m) e k = (refl, refl, refl, λ n. absurd (k m (sym e ∙ n) refl))
tag_made c t (err x) e k = tt
tag_made c t panic e k = tt

tag-IsBound : IsBound (map_var (λ c. c.trace_config.tags) with_trace_tags)
unfolding set_binding
tag-IsBound p seen v c =
    tag_made c c.trace_config.tags (set_flag v c.trace_config.tags) refl
      (λ m n. let q = unmade_tag v m in subst (λ t. ¬ (set_flag v t ≡ ok m)) (sym n) q)

abbrev AreBound : Dict String Binding → Type 0
AreBound l = All (λ (e : String × Binding). IsBound e.1) l

infixr 2 ◌&◌
abbrev ◌&◌ : {A B : Type 0} → A → B → A × B
a & b = (a, b)

install_flags-AreBound : AreBound install_flags
unfolding install_flags
install_flags-AreBound =
    string-IsBound _ (λ v c. refl)
    & string-IsBound _ (λ v c. refl)
    & string-IsBound _ (λ v c. refl)
    & string-IsBound _ (λ v c. refl)
    & string-IsBound _ (λ v c. refl)
    & string-IsBound _ (λ v c. refl)
    & string-IsBound _ (λ v c. refl)
    & string-IsBound _ (λ v c. refl)
    & string-IsBound _ (λ v c. refl)
    & bool-IsBound _ (λ v c. refl)
    & int-IsBound _ (λ v c. refl)
    & bool-IsBound _ (λ v c. refl)
    & slice-IsBound _ _ (λ v c. refl)
    & string-IsBound _ (λ v c. refl)
    & tag-IsBound
    & string-IsBound _ (λ v c. refl)
    & duration-IsBound _ (λ v c. refl)
    & duration-IsBound _ (λ v c. refl)
    & duration-IsBound _ (λ v c. refl)
    & duration-IsBound _ (λ v c. refl)
    & tt

found-Keeps :
    (l : Dict String Binding) (p : Pflag) (seen : Bool) (name v : String) (c : Opts)
    → AreBound l
    → Ensures (Keeps c) (set_found p seen name (find name l) v c)
unfolding find
found-Keeps [] p seen name v c k = tt
found-Keeps ((j, b) ∷ l) p seen name v c k = elim (Bool-cases (j == name)) [
  | inl e ↦ rw e (k.0 p seen v c)
  | inr e ↦ rw e (found-Keeps l p seen name v c k.1)
]

Keeps-trans : (a b c : Opts) → Keeps a b → Keeps b c → Keeps a c
Keeps-trans a b c h k = (k.0 ∙ h.0, k.1 ∙ h.1, k.2 ∙ h.2, λ n. k.3 (h.3 n))

-- No command line changes the port, the effect of the taint or the version, and none makes the map of
-- trace tags.
pub parse_flags-Keeps :
    (p : Pflag) (seen : List String) (l : List (String × String)) (c : Opts)
    → Ensures (Keeps c) (parse_flags p seen l c)
unfolding parse_flags
parse_flags-Keeps p seen [] c = (refl, refl, refl, λ n. n)
parse_flags-Keeps p seen ((name, v) ∷ rest) c =
    Ensures-bind (Keeps c) (Keeps c)
      (set_found p (has_name name seen) name (find name install_flags) v c)
      (parse_flags p (name ∷ seen) rest)
      (found-Keeps install_flags p (has_name name seen) name v c install_flags-AreBound)
      (λ b k.
        Ensures-weaken (Keeps b) (Keeps c) (parse_flags p (name ∷ seen) rest b)
          (λ d h. Keeps-trans c b d k h) (parse_flags-Keeps p (name ∷ seen) rest b))

abbrev pub is_trace_tag : String × String → Bool
is_trace_tag (name, v) = name == "trace-tag"

tag_refused :
    (c c' : Opts) (o : Outcome Error (Option (Dict String String)))
    → ((m : Option (Dict String String)) → ¬ (o ≡ ok m))
    → ¬ ((o >>= λ m. ok (with_trace_tags m c)) ≡ ok c')
tag_refused c c' (ok m) k = absurd (k m refl)
tag_refused c c' (err e) k = λ q. cc
tag_refused c c' panic k = λ q. cc

tag_found :
    (p : Pflag) (seen : Bool) (v : String) (c c' : Opts)
    → c.trace_config.tags ≡ none
    → ¬ (set_found p seen "trace-tag" (find "trace-tag" install_flags) v c ≡ ok c')
unfolding find install_flags set_binding
tag_found p seen v c c' n =
    tag_refused c c' (set_flag v c.trace_config.tags)
      (λ m. subst (λ t. ¬ (set_flag v t ≡ ok m)) (sym n) (unmade_tag v m))

not_tag_found :
    (p : Pflag) (seen : Bool) (name v : String) (c : Opts)
    → c.trace_config.tags ≡ none
    → Ensures
        (λ c'. (name == "trace-tag") ≡ false)
        (set_found p seen name (find name install_flags) v c)
not_tag_found p seen name v c n = elim (Bool-cases (name == "trace-tag")) [
  | inr e ↦ Ensures-of _ (set_found p seen name (find name install_flags) v c) (λ c' q. e)
  | inl e ↦
      let f = (string_equality.same_iff name "trace-tag").0 e in
      Ensures-of _ (set_found p seen name (find name install_flags) v c) (λ c' q. absurd (
        tag_found p seen v c c' n
          (subst (λ s. set_found p seen s (find s install_flags) v c ≡ ok c') f q)))
]

-- Without a map of trace tags, no command line with a trace tag is parsed.
pub parse_flags-tag :
    (p : Pflag) (seen : List String) (l : List (String × String)) (c : Opts)
    → c.trace_config.tags ≡ none
    → Ensures (λ c'. All (λ e. is_trace_tag e ≡ false) l) (parse_flags p seen l c)
unfolding parse_flags
parse_flags-tag p seen [] c n = tt
parse_flags-tag p seen ((name, v) ∷ rest) c n =
    let step = set_found p (has_name name seen) name (find name install_flags) v c in
    Ensures-bind (λ b. Keeps c b × ((name == "trace-tag") ≡ false)) _ step
      (parse_flags p (name ∷ seen) rest)
      (Ensures-both (Keeps c) (λ b. (name == "trace-tag") ≡ false) step
        (found-Keeps install_flags p (has_name name seen) name v c install_flags-AreBound)
        (not_tag_found p (has_name name seen) name v c n))
      (λ b k.
        Ensures-weaken (λ d. All (λ e. is_trace_tag e ≡ false) rest) _
          (parse_flags p (name ∷ seen) rest b) (λ d h. (k.1, h))
          (parse_flags-tag p (name ∷ seen) rest b (k.0.3 n)))
