-- ===== src/Root/Taint.antt =====
-- internal/commands/root/node.go: the taint of the node.
use virtual_kubelet_cmd.Base.{
  String, Bool, ◌||◌, ◌==◌, ◌≡◌, string_equality, if◌then◌else◌, arith, ◌<>◌,
}
use virtual_kubelet_cmd.Base.Outcome.{Outcome, ok, err}
use virtual_kubelet_cmd.Errors.{Error, invalid_input}
use virtual_kubelet_cmd.Node.Config.{Taint}
use virtual_kubelet_cmd.Root.Opts.{
  Env, Opts, get_env, text_or, value_or, default_taint_key, default_taint_effect,
}

-- The switch over the effect, with the key and the value of the taint.
unfoldable pub taint_of : String → String → String → Outcome Error Taint
taint_of key value effect =
    if effect == "NoSchedule"
    then ok (record { key = key; value = value; effect = "NoSchedule" })
    else if effect == "NoExecute"
    then ok (record { key = key; value = value; effect = "NoExecute" })
    else if effect == "PreferNoSchedule"
    then ok (record { key = key; value = value; effect = "PreferNoSchedule" })
    else err (invalid_input ("taint effect " <> effect <> " is not supported"))

unfoldable pub get_taint : Env → Opts → Outcome Error Taint
unfolding get_env taint_of
get_taint e c =
    taint_of (get_env e "VKUBELET_TAINT_KEY" (text_or default_taint_key c.taint_key))
      (get_env e "VKUBELET_TAINT_VALUE" c.provider)
      (get_env e "VKUBELET_TAINT_EFFECT" (text_or default_taint_effect c.taint_effect))

-- The effects that Kubernetes has.
abbrev pub is_effect : String → Bool
is_effect s = s == "NoSchedule" || s == "NoExecute" || s == "PreferNoSchedule"

-- The effect that the environment and the options ask for.
abbrev pub wanted_effect : Env → Opts → String
wanted_effect e c =
    value_or (text_or default_taint_effect c.taint_effect) (e.lookup_env "VKUBELET_TAINT_EFFECT")

abbrev pub wanted_taint : Env → Opts → Taint
wanted_taint e c = record {
  key = value_or (text_or default_taint_key c.taint_key) (e.lookup_env "VKUBELET_TAINT_KEY");
  value = value_or c.provider (e.lookup_env "VKUBELET_TAINT_VALUE");
  effect = wanted_effect e c;
}

taint_of_lem :
    (key value effect : String)
    → taint_of key value effect ≡ (
        if is_effect effect
        then ok (record { key = key; value = value; effect = effect })
        else err (invalid_input ("taint effect " <> effect <> " is not supported")))
unfolding taint_of
taint_of_lem key value effect = ground (
  arith,
  string_equality.same_iff effect "NoSchedule",
  string_equality.same_iff effect "NoExecute",
  string_equality.same_iff effect "PreferNoSchedule",
)

-- The environment goes before the options and the options before the defaults in each part of the
-- taint, and a taint is made exactly when its effect is one of the three of Kubernetes.
pub get_taint_lem :
    (e : Env) (c : Opts)
    → get_taint e c ≡ (
        if is_effect (wanted_effect e c)
        then ok (wanted_taint e c)
        else err (invalid_input ("taint effect " <> wanted_effect e c <> " is not supported")))
unfolding get_taint get_env
get_taint_lem e c = taint_of_lem (wanted_taint e c).key (wanted_taint e c).value (wanted_effect e c)
