-- ===== src/Watch/Runs.antt =====
-- Runs of the calls of Watch and Unwatch, from a new watcher.
use virtual_kubelet_cmd.Base.{List, [], ◌∷◌}
use virtual_kubelet_cmd.Base.Dict.{find}
use virtual_kubelet_cmd.Kube.{Pod}
use virtual_kubelet_cmd.Watch.{Watcher, new_pod_resource_watcher, watch, unwatch}
use virtual_kubelet_cmd.Watch.Registered.{AreRegistered, watch-AreRegistered, unwatch-AreRegistered}

pub data WatchCall : Type 0 where
  watches unwatches : Pod → WatchCall

abbrev pub run_call : WatchCall → Watcher → Watcher
run_call (watches p) w = watch p w
run_call (unwatches p) w = unwatch p w

unfoldable pub run_watcher : List WatchCall → Watcher → Watcher
run_watcher [] w = w
run_watcher (c ∷ cs) w = run_watcher cs (run_call c w)

call-AreRegistered : (c : WatchCall) (w : Watcher) → AreRegistered w → AreRegistered (run_call c w)
call-AreRegistered (watches p) w h = watch-AreRegistered p w h
call-AreRegistered (unwatches p) w h = unwatch-AreRegistered p w h

run_from-AreRegistered :
    (cs : List WatchCall) (w : Watcher) → AreRegistered w → AreRegistered (run_watcher cs w)
unfolding run_watcher
run_from-AreRegistered [] w h = h
run_from-AreRegistered (c ∷ cs) w h =
    run_from-AreRegistered cs (run_call c w) (call-AreRegistered c w h)

-- After any calls of Watch and Unwatch on a new watcher, each watcher of an object is a pod whose
-- entry of the reverse map names the object.
pub run_watcher-AreRegistered :
    (cs : List WatchCall) → AreRegistered (run_watcher cs new_pod_resource_watcher)
unfolding new_pod_resource_watcher find
run_watcher-AreRegistered cs = run_from-AreRegistered cs new_pod_resource_watcher (λ k. tt, λ k. tt)
