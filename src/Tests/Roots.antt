-- ===== src/Tests/Roots.antt =====
-- The theorems on the root command and its provider, at a system where every call succeeds.
use virtual_kubelet_cmd.Base.{
  String, Bool, true, false, none, some, [], List, pos, ◌≡◌, refl, ◌==◌, string_equality,
  int_equality,
}
use virtual_kubelet_cmd.Base.Dict.{find, insert}
use virtual_kubelet_cmd.Base.Outcome.{ok}
use virtual_kubelet_cmd.Errors.{external}
use virtual_kubelet_cmd.Mock.Config.{Machine, new_mock_provider}
use virtual_kubelet_cmd.Node.Auth.{User, allow}
use virtual_kubelet_cmd.Node.Config.{set_node_ready, with_client}
use virtual_kubelet_cmd.Node.Controller.{Node, initial_config, node_of}
use virtual_kubelet_cmd.Node.Client.{is_there, clientset_from_env}
use virtual_kubelet_cmd.Node.Run.{Events, is_ready}
use virtual_kubelet_cmd.Node.Tls.{TlsConfig, with_tls_config, with_key_pair_from_path, maybe_ca}
use virtual_kubelet_cmd.Root.Command.{System, parts_of, set_up, new_provider}
use virtual_kubelet_cmd.Root.Command.Served.{set_up-Serves, Serves}
use virtual_kubelet_cmd.Root.Main.{MockProvider, with_mock}
use virtual_kubelet_cmd.Root.Main.Advertised.{set_up-Describes, Describes, status_of}
use virtual_kubelet_cmd.Root.Opts.{Opts, set_default_opts, get_api_config}
use virtual_kubelet_cmd.Root.Store.{valid_operating_system, get}
use virtual_kubelet_cmd.Root.Taint.{get_taint}
use virtual_kubelet_cmd.Root.Tracing.{Effect, setup_tracing}
use virtual_kubelet_cmd.Tests.Fixtures.{value_of, env, no_opts, no_objects}

abbrev pub machine : Machine
machine = record {
  num_cpu = pos 4;
  sysinfo = some (8192, 1);
  now = 100;
  read_file = λ p. ok "json";
  unmarshal = λ s. ok [];
  parses = λ s. true;
  print_int = λ n. "8";
}

abbrev anyone : User
anyone = record { name = "system:anonymous"; uid = "" }

abbrev pub system : System String String String String MockProvider
system = record {
  env = env;
  client_go = record {
    stat = λ p. is_there;
    in_cluster_config = ok "config";
    load_config = λ p. ok "config";
    new_for_config = λ k. ok "client";
  };
  certs = record {
    read_file = λ p. ok "pem";
    load_key_pair = λ c k. ok "pair";
    has_certs = λ p. true;
  };
  auth_parts = record {
    anonymous = λ r. (anyone, true, none);
    always_allow = λ a. (allow, none);
    new_authenticator = λ k. ok (λ r. (anyone, true, none));
    new_authorizer = λ k. ok (λ a. (allow, none));
    client_method = λ c. ok "client";
  };
  ca_content_from_file = λ p. ok "ca";
  tracer = record {
    exporters = [];
    to_lower = λ s. s;
    wrap = λ e m. e;
    as_invalid_input = λ e. e;
    listen = λ p. none;
  };
  goarch = "arm64";
  num_cpu = pos 4;
  listers = no_objects;
  store = [];
  configure_node = λ p n. ok n;
  split_host_port = λ a. none;
  core_v1 = λ c. ok tt;
  new_node_controller = λ n. none;
  new_pod_controller = λ p. none;
}

abbrev opts : Opts
opts = value_of no_opts (set_default_opts env no_opts)

abbrev started : System String String String String MockProvider
started = with_mock machine system

abbrev fallback : Node String TlsConfig
fallback =
    let cfg = initial_config (parts_of started opts) "vk" in
    node_of cfg (some "client") false cfg.node_spec

abbrev result : Node String TlsConfig × List (Effect String)
result = value_of (fallback, []) (set_up started opts)

comes_up : set_up started opts ≡ ok result
unfolding set_up valid_operating_system set_default_opts get_taint with_mock clientset_from_env
    with_client get_api_config with_tls_config with_key_pair_from_path maybe_ca new_provider get
    find insert new_mock_provider setup_tracing
comes_up = refl

abbrev no_workers : Opts → Bool
no_workers c = c.pod_sync_workers == pos 0

set_up-Serves_example :
    (valid_operating_system opts.operating_system ≡ true)
    × (no_workers opts ≡ false)
    × Serves started opts result.0
set_up-Serves_example = set_up-Serves started opts result.0 result.1 comes_up

set_up-Describes_example :
    (opts.provider ≡ "mock")
    × Describes machine opts result.0.node_spec
    × (status_of "Ready" (set_node_ready 200 result.0.node_spec).conditions ≡ some "True")
set_up-Describes_example = set_up-Describes machine system opts result.0 result.1 200 comes_up

-- Both controllers come up, and the node ends without an error.
abbrev pub good_run : Events
good_run = record {
  listen = none;
  pod_controller = is_ready;
  node_controller = is_ready;
  context_error = external "cancelled";
  update_status = none;
  end = none;
}
