-- ===== src/Root/Main/Prepared.antt =====
-- The options that reach the root command from main.
use virtual_kubelet_cmd.Base.{
  true, false, none, [], ◌∷◌, ℤ, pos, ◌≡◌, refl, ◌∙◌, sym, subst, join, All, ap,
}
use virtual_kubelet_cmd.Base.Outcome.{
  Outcome, ok, err, panic, ◌>>=◌, ◌>>◌, Ensures, Ensures-bind, Ensures-both, Ensures-trivial,
}
use virtual_kubelet_cmd.Errors.{Error}
use virtual_kubelet_cmd.Root.Defaults.{is_int32, set_default_opts_port}
use virtual_kubelet_cmd.Root.Flags.{parse_flags}
use virtual_kubelet_cmd.Root.Flags.Bound.{Keeps, is_trace_tag, parse_flags-Keeps, parse_flags-tag}
use virtual_kubelet_cmd.Root.Main.{
  CommandLine, prepare, pre_run, zero_opts, with_version, fail_with, check_log_level,
}
use virtual_kubelet_cmd.Root.Opts.{Env, Opts, listen_port_or, set_default_opts, with_defaults}

-- What main leaves of the options, whatever the command line.
pub record IsPrepared (env : Env) (l : CommandLine) (c : Opts) : Type 0 where
  pub port : listen_port_or env (pos 0) ≡ ok c.listen_port
  pub port_int32 : is_int32 c.listen_port ≡ true
  pub effect : c.taint_effect ≡ "NoSchedule"
  pub version : c.version ≡ join "-" ("v1.15.2" ∷ "vk" ∷ "JIRIAF" ∷ [])
  pub no_tags : c.trace_config.tags ≡ none
  pub no_tag_flags : All (λ e. is_trace_tag e ≡ false) l.flags

-- The options before the flags.
abbrev IsDefault : Env → Opts → Type 0
IsDefault env c =
    (listen_port_or env (pos 0) ≡ ok c.listen_port)
    × (c.taint_effect ≡ "NoSchedule")
    × (c.trace_config.tags ≡ none)

defaults-IsDefault : (env : Env) → Ensures (IsDefault env) (set_default_opts env zero_opts)
unfolding set_default_opts zero_opts
defaults-IsDefault env = from (listen_port_or env (pos 0)) refl
  where
    from :
        (o : Outcome Error ℤ)
        → listen_port_or env (pos 0) ≡ o
        → Ensures (IsDefault env) (o >>= λ port. ok (with_defaults env zero_opts port))
    from (ok port) h = (h, refl, refl)
    from (err e) h = tt
    from panic h = tt

after_flags :
    (l : CommandLine) (P : Opts → Type 0) (r : Outcome Error Opts)
    → Ensures P r
    → Ensures P (fail_with l.flag_error >> (check_log_level l >> r))
after_flags l P r h =
    Ensures-bind (λ _. Unit {0}) P (fail_with l.flag_error) _
      (Ensures-trivial (fail_with l.flag_error))
      (λ a u.
        Ensures-bind (λ _. Unit {0}) P (check_log_level l) _ (Ensures-trivial (check_log_level l))
          (λ b v. h))

-- A parse of the flags keeps what the defaults were, and has read no trace tag.
ok-IsPrepared :
    (env : Env) (l : CommandLine) (c : Opts)
    → IsDefault env c
    → is_int32 c.listen_port ≡ true
    → Ensures (IsPrepared env l) (pre_run l (ok c))
unfolding pre_run
ok-IsPrepared env l c (port, effect, tags) int32 =
    let parsed = parse_flags l.pflag [] l.flags (with_version c) in
    Ensures-bind (λ o. Keeps (with_version c) o × All (λ e. is_trace_tag e ≡ false) l.flags)
      (IsPrepared env l) parsed (λ o. fail_with l.flag_error >> (check_log_level l >> ok o))
      (Ensures-both (Keeps (with_version c)) (λ o. All (λ e. is_trace_tag e ≡ false) l.flags) parsed
        (parse_flags-Keeps l.pflag [] l.flags (with_version c))
        (parse_flags-tag l.pflag [] l.flags (with_version c) tags))
      (λ o k. after_flags l (IsPrepared env l) (ok o) (record {
        port = port ∙ ap ok (sym (k.0.0));
        port_int32 = rw (k.0.0) int32;
        effect = k.0.1 ∙ effect;
        version = k.0.2;
        no_tags = k.0.3 tags;
        no_tag_flags = k.1;
      }))

refused_after :
    (env : Env) (l : CommandLine) (e : Error) → Ensures (IsPrepared env l) (pre_run l (err e))
unfolding pre_run
refused_after env l e =
    let parsed = parse_flags l.pflag [] l.flags (with_version zero_opts) in
    Ensures-bind (λ _. Unit {0}) (IsPrepared env l) parsed
      (λ o. fail_with l.flag_error >> (check_log_level l >> err e)) (Ensures-trivial parsed)
      (λ o u. after_flags l (IsPrepared env l) (err e) tt)

pre_run-IsPrepared :
    (env : Env) (l : CommandLine) (o : Outcome Error Opts)
    → set_default_opts env zero_opts ≡ o
    → Ensures (IsPrepared env l) (pre_run l o)
unfolding pre_run zero_opts
pre_run-IsPrepared env l (ok c) q =
    ok-IsPrepared env l c (subst (Ensures (IsDefault env)) q (defaults-IsDefault env))
      (set_default_opts_port env zero_opts c refl q)
pre_run-IsPrepared env l (err e) q = refused_after env l e
pre_run-IsPrepared env l panic q = tt

-- The options that reach the root command, whatever the command line: the port is the one of
-- KUBELET_PORT or the default one and a 32-bit integer, the effect of the taint is NoSchedule, the
-- version is the one of main, and there is no trace tag. A command line with a trace tag never gets
-- there.
pub prepare-IsPrepared :
    (env : Env) (l : CommandLine) (c : Opts) → prepare env l ≡ ok c → IsPrepared env l c
unfolding prepare
prepare-IsPrepared env l c h =
    subst (Ensures (IsPrepared env l)) h
      (pre_run-IsPrepared env l (set_default_opts env zero_opts) refl)
