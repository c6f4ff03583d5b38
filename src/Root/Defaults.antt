-- ===== src/Root/Defaults.antt =====
-- What SetDefaultOpts leaves.
use virtual_kubelet_cmd.Base.{
  ℕ, String, Bool, true, ◌==◌, string_equality, int_equality, nat_equality, arith, ◌≡◌, refl, ap,
  subst, ◌%◌, ◌-◌, ◌<◌, ◌&&◌, ◌||◌, eq_refl,
}
use virtual_kubelet_cmd.Base.Int.{ℤ, pos, negsuc, leb_int}
use virtual_kubelet_cmd.Base.Outcome.{Outcome, ok, err, panic, ◌>>=◌, ok_injective}
use virtual_kubelet_cmd.Errors.{Error}
use virtual_kubelet_cmd.Root.Opts.{
  Env, Opts, getenv, text_or, number_or, signed, to_int32, checked_port, port_from_env,
  listen_port_or, kube_config_path_or, with_defaults, set_default_opts, max_int32,
}

-- A number that an int32 holds.
abbrev pub is_int32 : ℤ → Bool
is_int32 n = leb_int (negsuc 2147483647) n && leb_int n max_int32

text_or-again : (d s : String) → text_or d (text_or d s) ≡ text_or d s
text_or-again d s = ground arith

number_or-again : (d n : ℤ) → number_or d (number_or d n) ≡ number_or d n
number_or-again d n = ground arith

kube_config_path_or-again :
    (e : Env) (s : String)
    → kube_config_path_or e (kube_config_path_or e s) ≡ kube_config_path_or e s
unfolding kube_config_path_or
kube_config_path_or-again e s = ground arith

with_defaults-again :
    (e : Env) (c : Opts) (p q : ℤ) → with_defaults e (with_defaults e c p) q ≡ with_defaults e c q
unfolding with_defaults
with_defaults-again e c p q = simp (text_or-again, number_or-again)

listen_port_or-again : (e : Env) (p q : ℤ) → listen_port_or e p ≡ ok q → listen_port_or e q ≡ ok q
unfolding listen_port_or
listen_port_or-again e p q h = ground arith

again :
    (e : Env) (c : Opts) (p : ℤ)
    → listen_port_or e c.listen_port ≡ ok p
    → set_default_opts e (with_defaults e c p) ≡ ok (with_defaults e c p)
unfolding set_default_opts with_defaults
again e c p h = rw (listen_port_or-again e c.listen_port p h) (ap ok (with_defaults-again e c p p))

idempotent-from :
    (e : Env) (c c' : Opts) (o : Outcome Error ℤ)
    → listen_port_or e c.listen_port ≡ o
    → ((o >>= λ port. ok (with_defaults e c port)) ≡ ok c')
    → set_default_opts e c' ≡ ok c'
unfolding set_default_opts
idempotent-from e c c' (ok p) h k =
    subst (λ d. set_default_opts e d ≡ ok d) (ok_injective k) (again e c p h)
idempotent-from e c c' (err x) h k = cc
idempotent-from e c c' panic h k = cc

-- When SetDefaultOpts succeeds, a second call in the same environment succeeds and changes
-- nothing.
pub set_default_opts_idempotent :
    (e : Env) (c c' : Opts) → set_default_opts e c ≡ ok c' → set_default_opts e c' ≡ ok c'
unfolding set_default_opts
set_default_opts_idempotent e c c' k =
    idempotent-from e c c' (listen_port_or e c.listen_port) refl k

signed-is_int32 : (m : ℕ) → m < 4294967296 → is_int32 (signed m) ≡ true
signed-is_int32 m h = ground arith

to_int32-is_int32 : (n : ℤ) → is_int32 (to_int32 n) ≡ true
unfolding to_int32
to_int32-is_int32 (pos n) = signed-is_int32 (n % 4294967296) (omega arith)
to_int32-is_int32 (negsuc n) = signed-is_int32 (4294967295 - n % 4294967296) (omega arith)

checked_port-is_int32 : (o : Outcome Error ℤ) (p : ℤ) → checked_port o ≡ ok p → is_int32 p ≡ true
unfolding checked_port
checked_port-is_int32 (ok n) p h = ground (arith, to_int32-is_int32 n)
checked_port-is_int32 (err e) p h = cc
checked_port-is_int32 panic p h = cc

listen_port_or-is_int32 :
    (e : Env) (q p : ℤ) → is_int32 q ≡ true → listen_port_or e q ≡ ok p → is_int32 p ≡ true
unfolding listen_port_or port_from_env
listen_port_or-is_int32 e q p i h =
    ground (arith, checked_port-is_int32 (e.atoi (getenv e "KUBELET_PORT")) p)

-- What a field that is a text may become: it stays unless it is empty.
abbrev pub kept_text : String → String → Bool
kept_text old new = old == "" || new == old

-- What a field that is a number may become: it stays unless it is 0.
abbrev pub kept_number : ℤ → ℤ → Bool
kept_number old new = old == pos 0 || new == old

-- The fields that were set are as they were.
abbrev pub keeps : Opts → Opts → Bool
keeps c d =
    kept_text c.operating_system d.operating_system
    && kept_text c.node_name d.node_name
    && kept_number c.informer_resync_period d.informer_resync_period
    && kept_text c.metrics_addr d.metrics_addr
    && kept_number c.pod_sync_workers d.pod_sync_workers
    && kept_text c.trace_config.service_name d.trace_config.service_name
    && kept_number c.listen_port d.listen_port
    && kept_text c.kube_namespace d.kube_namespace
    && kept_text c.kube_cluster_domain d.kube_cluster_domain
    && kept_text c.taint_key d.taint_key
    && kept_text c.taint_effect d.taint_effect
    && kept_text c.kube_config_path d.kube_config_path
    && kept_number c.stream_idle_timeout d.stream_idle_timeout
    && kept_number c.stream_creation_timeout d.stream_creation_timeout
    && kept_text c.provider_config_path d.provider_config_path

kept_text-text_or : (d s : String) → kept_text s (text_or d s) ≡ true
kept_text-text_or d s = ground (arith, eq_refl s)

kept_number-number_or : (d n : ℤ) → kept_number n (number_or d n) ≡ true
kept_number-number_or d n = ground (arith, eq_refl n)

kept_text-kube_config_path : (e : Env) (s : String) → kept_text s (kube_config_path_or e s) ≡ true
unfolding kube_config_path_or
kept_text-kube_config_path e s = ground (arith, eq_refl s)

kept_number-listen_port : (e : Env) (q p : ℤ) → listen_port_or e q ≡ ok p → kept_number q p ≡ true
unfolding listen_port_or
kept_number-listen_port e q p h = ground (arith, eq_refl q)

with_defaults-keeps :
    (e : Env) (c : Opts) (p : ℤ)
    → kept_number c.listen_port p ≡ true
    → keeps c (with_defaults e c p) ≡ true
unfolding with_defaults
with_defaults-keeps e c p h = simp (kept_text-text_or, kept_number-number_or, h)

set-from :
    (e : Env) (c c' : Opts) (o : Outcome Error ℤ)
    → listen_port_or e c.listen_port ≡ o
    → ((o >>= λ port. ok (with_defaults e c port)) ≡ ok c')
    → (keeps c c' ≡ true) × ((is_int32 c.listen_port ≡ true) → is_int32 c'.listen_port ≡ true)
unfolding with_defaults
set-from e c c' (ok p) h k =
    subst
      (λ d. (keeps c d ≡ true) × ((is_int32 c.listen_port ≡ true) → is_int32 d.listen_port ≡ true))
      (ok_injective k)
      (
        with_defaults-keeps e c p (kept_number-listen_port e c.listen_port p h),
        λ i. listen_port_or-is_int32 e c.listen_port p i h,
      )
set-from e c c' (err x) h k = cc
set-from e c c' panic h k = cc

-- When SetDefaultOpts succeeds, the text fields that were not empty and the number fields that were
-- not 0 have kept their values.
pub set_default_opts_keeps :
    (e : Env) (c c' : Opts) → set_default_opts e c ≡ ok c' → keeps c c' ≡ true
unfolding set_default_opts
set_default_opts_keeps e c c' k = (set-from e c c' (listen_port_or e c.listen_port) refl k).0

-- When SetDefaultOpts succeeds on options whose port is a 32-bit integer, the port that it leaves
-- is one too, whatever KUBELET_PORT holds.
pub set_default_opts_port :
    (e : Env) (c c' : Opts)
    → is_int32 c.listen_port ≡ true
    → set_default_opts e c ≡ ok c'
    → is_int32 c'.listen_port ≡ true
unfolding set_default_opts
set_default_opts_port e c c' i k = (set-from e c c' (listen_port_or e c.listen_port) refl k).1 i
