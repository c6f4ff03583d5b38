-- ===== src/Mock/Requests.antt =====
-- internal/provider/mock/mock.go: what the provider answers to requests on a container, and the
-- methods that the routes of the API are given.
use virtual_kubelet_cmd.Base.{ℕ, String, List, ℤ}
use virtual_kubelet_cmd.Base.Dict.{Dict}
use virtual_kubelet_cmd.Base.Outcome.{Outcome, ok, ◌>>=◌}
use virtual_kubelet_cmd.Errors.{Error}
use virtual_kubelet_cmd.Host.{Host}
use virtual_kubelet_cmd.Kube.{Pod, Time}
use virtual_kubelet_cmd.Mock.Meters.{Meters}
use virtual_kubelet_cmd.Mock.Metrics.{MetricFamily, get_metrics_resource}
use virtual_kubelet_cmd.Mock.Stats.{Summary, get_stats_summary}
use virtual_kubelet_cmd.Mock.StatusLoop.{get_pods_from}
use virtual_kubelet_cmd.Node.Routes.{Provider}

-- GetContainerLogs: the logs of every container are empty.
unfoldable get_container_logs : String → String → String → Outcome Error String
get_container_logs namespace pod container = ok ""

-- RunInContainer, which runs nothing.
unfoldable run_in_container : String → String → String → List String → Outcome Error (Unit {0})
run_in_container namespace pod container cmd = ok tt

-- AttachToContainer, which copies nothing.
unfoldable attach_to_container : String → String → String → Outcome Error (Unit {0})
attach_to_container namespace pod container = ok tt

-- PortForward, which forwards nothing.
unfoldable port_forward : String → String → ℤ → Outcome Error (Unit {0})
port_forward namespace pod port = ok tt

module _ {F : Type 0} where
  -- The methods of the provider that the routes call, at a moment of the host, the draws of rand and
  -- the store of pods.
  unfoldable pub mock_provider :
      Host
      → Meters F
      → (ℕ → ℕ)
      → Time
      → String
      → Time
      → Dict String Pod
      → Provider Summary (List (MetricFamily F))
  unfolding get_container_logs run_in_container attach_to_container port_forward
  mock_provider h mt random now node_name start_time pods = record {
    get_pods = get_pods_from h pods >>= λ polled. ok polled.1;
    get_container_logs = get_container_logs;
    run_in_container = run_in_container;
    attach_to_container = attach_to_container;
    get_stats_summary = ok (get_stats_summary random now node_name start_time pods);
    get_metrics_resource = ok (get_metrics_resource h mt node_name pods);
    port_forward = port_forward;
  }
