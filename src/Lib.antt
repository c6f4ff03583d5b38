-- ===== src/Lib.antt =====
-- A model of virtual-kubelet-cmd: a virtual kubelet whose pods are shell commands on one host. The
-- root command fills its options, makes a node with NewNode, and lets the library's pod controller
-- call the provider, which keeps the pods, starts their containers as process groups, and polls the
-- processes for the status. Paths are from the repository's root.
--
-- The files:
--   Base        shared names, Go's `==`, maps, integers, texts, and calls that may fail or panic
--   Kube, Host, Disk, Errors
--               the objects of the Kubernetes API; what the operating system, the file system and
--               Go's text functions answer; the errors
--   Manager     internal/manager/resource.go: ResourceManager
--   Mock        internal/provider/mock: the provider
--     Process   getParentPid, getUserProcesses (mock.go), getProcessStatus (monitor.go)
--     Monitor   createPodStatusFromContainerStatus and what it calls (monitor.go). `Poll` takes the
--               maps out, `Sticky` follows one container, `PodPhase` the pod
--     Volumes   volumes.go and security_context.go, as actions that carry the files written: `Files`
--               writes, `Sources` and `Switch` are the switches; `Confined`, `Inside` and `PodDir`
--               follow the files, `Projected` one source, `Unusable` the volumes that cannot be made
--     Command   command.go: `Scripts` copies files, `Script` runs one command, `Parallel` starts all
--               containers; `Total` and `Order` are on the goroutines
--     Kill      deletePod (mock.go), as the list of what it does; `Sends` puts the sends of its
--               goroutines in any order, `Reads` is on the loop that reads them and `Sequences`
--               on what one sends, `Hit` and `Killed` follow the processes, `Channel` is the channel
--               with its places as a step relation
--     Provider  CreatePod, UpdatePod, DeletePod, GetPod, GetPodStatus and the keys (mock.go)
--     StatusLoop
--               GetPods, notifyPodStatuses and statusLoop (mock.go)
--     Lifecycle the calls of the pod controller and the rounds, in any order: `Specs` compares the store
--               with the map of `Abstract`, `Polled` is on the rounds
--     Config    NewMockProvider and loadConfig (mock.go), getSystemTotalMemory (sys_linux.go) and
--               registerMock (register.go); `Parsed` is on the files that are taken
--     NodeStatus
--               ConfigureNode, capacity and the alive-time loop (mock.go); `Alive` follows the loop
--     Meters    getProcessesMetrics, getNodeStats, getPgidsFromPod (monitor.go); `Groups` is on the
--               groups of a pod, `Recorded` on the file between a start and a measurement
--     Metrics   GetMetricsResource (mock.go) and the generators (monitor.go); `Exposed` lists the
--               samples, `Typed` is on their types
--     Stats     GetStatsSummary (mock.go); `Totals` is on its sums
--     Requests  GetContainerLogs, RunInContainer, AttachToContainer and PortForward (mock.go), and what
--               the provider gives to the routes
--   Watch       internal/provider/kubernetes/watch.go: the tables of the resource watcher
--   PodUtil     internal/provider/kubernetes/pod_util.go: PodFromFile, which nothing calls
--   Node        internal/node/nodeutil: `Auth` (auth.go), `Config`, `Controller`, `Handler`, `Run` and
--               `Ready` (controller.go), `Tls` and `ClientCa` (tls.go, and maybeCA of root.go), `Client`
--               (client.go), `Webhook` (NoAuth and WebhookAuth of auth.go), `Instrument`
--               (InstrumentAuth), `Filter` (filter.go), `Routes` (provider.go: the interface of a
--               provider and what AttachProviderRoutes puts on a mux)
--   Root        internal/commands/root: `Opts` and `Defaults` (opts.go, http.go), `Taint` (node.go),
--               `Flag` and `Flags` (flag.go: the map flag, and installFlags with the occurrences on a
--               command line; `Bound` is on what they leave alone, `ReadBack` on what they set),
--               `Tracing` (tracing.go; `Exporters` are tracing_register.go and its two exporters,
--               `Traced` is on what is registered, `Sampled` on the rate); `Store` is internal/provider/store.go and types.go
--               with the providers command; `Command` is runRootCommand (root.go), with `Served` on
--               its node and `Ends` on its results; `Main` is main.go and the version command, with
--               `Advertised` on what the node says of itself, `Prepared` on the options, `Returned` on
--               a run of the program
--   Tests       the theorems applied to concrete systems
--
-- State is passed on: an operation takes the state and gives the result with the new state. A call is
-- an `Outcome`: a value, an error or a panic. What the program calls outside itself is a field of a
-- record (Host, Disk, Shell, Signals, Parts, Certs, Env, Pflag, Tracer, ExporterLibrary,
-- ResourceManager) and any function may stand for it. One value of Host is what is seen during one
-- call; deletePod has one for each list of processes and for each process in each of its two loops.
-- All loops go over lists, so there is no fuel; the status loop and the polls take the list of the
-- hosts that they meet, of any length.
-- Goroutines of runScriptParallel end in an order that is an argument; those of deletePod stand in the
-- order of the containers and of the process list, and `Sends` takes them in any order between the
-- containers. In the runs that `Channel` follows, those of a container also send in any order, and a
-- goroutine waits for a place in the channel. A call under a mutex is one step. A signal to the program
-- is the error of the context that runRootCommand sees.
--
-- A float64 and its addition are parameters, and so are the draws of rand. The two maps of metrics in
-- GetMetricsResource, the second of which may be the first, nil or one of its own, are one record.
--
-- Not modelled: logs and the trace spans of addAttributes, the informers, the serve mux, which no
-- listener serves, the klog flags and the texts of usage, the accessors of the node's controllers and
-- channels, and cleanPodEphemeralVolumes and filterContainersByPgid, which nothing calls. A pod that a caller changes through a
-- pointer that it keeps is not followed, and the alive-time loop, which writes the node while others
-- read it, is followed alone.
pub mod Base
pub mod Kube
pub mod Host
pub mod Mock
pub mod Errors
pub mod Disk
pub mod Manager
pub mod Watch
pub mod PodUtil
pub mod Node
pub mod Root
mod Tests
