-- ===== src/Lib.antt =====
-- The orchestration tools that build and test SageAttention wheels on rented Pods, as definitions
-- that run, with the theorems that hold of them.
--
-- tools/runpod_job.py rents one ephemeral Pod, checks that it got what it asked for, uploads the
-- repository, runs the remote commands, downloads the artifacts and deletes the Pod.
-- tools/pod_resources.py runs in the Pod: it finds the memory and the CPUs that the container can
-- really use, and how many compiler jobs fit. The two meet in the verified memory: the first writes
-- the receipt and the environment that the second believes. Of the wheels that are built,
-- scripts/validate-wheel.py checks the resource evidence, scripts/merge-manifests.py joins the
-- manifests, and scripts/select-wheel.py chooses, downloads and installs one wheel.
--
-- Base          Python's numbers and text: Int has integers over native numbers, Text has strip,
--               split, upper and int, Print has str and shlex.quote
--               Sorting has sorted by a strict order; Sorting.Laws says that its result is the
--               only ascending permutation
-- Json          the values that json.loads returns; Json.Equality is Python's == on them
-- Job           tools/runpod_job.py
--   Failure     the exceptions, and a result that may be one
--   Request     PodRequest and its validate; Request.Valid characterises what it accepts
--   Spec        JobSpec, its validate and the path checks; Spec.Valid characterises them
--   Assignment  verify_pod_assignment on the REST payload; Numbers has _finite_decimal, _integer and
--               _memory_bytes; Bytes and Sound say what an accepted Pod has
--   Effects     the local variables of run_job, the services it calls, and the calls made so far
--   Deadline    the hard budget, with Deadline.Bounds on its timeouts
--   Pods, Placement, Commands, Run
--               the statements of run_job, one function per block: the deletion with its attempts,
--               the candidates and rounds, the text of the remote commands, the try, its finally and
--               the verdict
--   Leaks       which Pods are alive after the calls, and that run_job deletes them
-- Resources     tools/pod_resources.py
--   Files       the readers of cgroup files and /proc/meminfo, and the walk to the mount root
--   Limit       _find_effective_limit; Limit.Tightest says that it is the tightest limit
--   Snapshot    MemorySnapshot, _host_memory and _read_leaf_usage
--   Memory      collect_memory for cgroup v1, cgroup v2 and none; Memory.Coherent its invariant
--   Receipt     the verified receipt and _assigned_memory_capacity; Receipt.Script reads, as the
--               shell does, what run_job's command prints and where it moves it, and Receipt.Written
--               joins this with the reader. Of the command only printf with its
--               redirection and mv are read; the exported values are taken as they are listed
--   Assigned    apply_assigned_memory_capacity; Assigned.Bound says how it bounds the memory
--   Cpu         parse_cpuset, _read_cpuset, _read_cpu_quota and collect_cpu
--   Group       _collect_process_group_details, with Group.Sum; Group.Samples has the samples of the
--               supervisor and its exit status, with Group.Sampled; Group.Watch is its monitoring
--               loop, one function per round, bounded in Group.Watch.Bounded, with
--               the forwarded signal in Group.Watch.Signals; Group.Conclude ends the
--               group after it, and Group.Conclude.Clean is on an exit status of 0
--   Recommend   recommend_build_jobs; Recommend.Fits says that the jobs fit
--   Collect     collect_resources; Collect.Budget joins the guarantees of its parts
--   Main        main, from its parsed options to what it prints or starts; Main.Report says what
-- Wheels        the scripts on wheels
--   Asset       the readers that they share: dictionaries, asset names, texts
--   Merge       scripts/merge-manifests.py: load_and_verify, runtime_tuple and merge. Entries, Accepts
--               and Batch give merge a specification without its sets, Order is on its sort, Verified
--               on the wheels beside the manifests
--   Select      scripts/select-wheel.py: detect_environment, load_manifest and select_artifact; Sound
--               says what is selected, Exact that a merged manifest has one match
--   Locate      resolve_asset; Locate.Direct lists the locations that it returns
--   Store       materialize_asset on the files of a directory; Store.Safe is on its failures
--   Install     environment_from_args and main, with the actions in order; Install.Verified
--   Evidence    validate_resource_evidence of scripts/validate-wheel.py: Snapshot, Policy, Peak and
--               Sample in the order of its requirements, Validate the whole; Snapshot.Bounds,
--               Validate.Peaks and Validate.Sound say what accepted evidence keeps, and Supervised
--               joins it with the supervisor
-- Examples in Job, Resources, Wheels, Resources/Group and Wheels/Evidence evaluate the programs on concrete inputs.
--
-- A statement of run_job is a function of the local variables that returns a result and the new
-- variables; what was assigned before an exception stays assigned. The services (ctl, transport,
-- wait_fn and the clock) are a record of functions of the calls made so far, so a theorem about all
-- services covers every behaviour of Runpod, of SSH and of time. The one hypothesis on them,
-- NamesPods, is what create_pod checks: it returns no empty id. A creation that raises counts as one
-- that created no Pod; a Pod that Runpod started without answering is left to its own
-- terminate-after. Times are whole milliseconds.
--
-- There is no fuel but the source's own bounds: three attempts to delete, two placement rounds. The
-- digits of a number are printed by recursion on fuel that is larger than their count.
--
-- Files are functions from paths to texts, where an absent text is a read that raises; a path is the
-- list of its components. What locate_cgroup returns is an argument. Warnings are returned beside
-- the snapshot, without the values that the source formats into them, and so are the messages of
-- exceptions. Numbers of bytes are exact naturals, as in Python. The optional numbers of
-- recommend_build_jobs are naturals, as main passes them.
--
-- A manifest's wheels are functions from names to a digest and a size. A URL's parts, the digest of a
-- content, the host, the files beside a manifest and the way a download ends are parameters, and no
-- theorem assumes anything of them. A float of a JSON document is its text; it equals an integer
-- where it is the text of a whole float below 10^16, which is above any number of bytes here. The
-- capacity of a memory policy is compared as the number of the first snapshot, to which
-- validate_resource_evidence has found it equal.
--
-- A round of the supervisor is a record of what it sees: requested signals, the child, /proc and the
-- clock. The bound on the number of its rounds has one hypothesis, that each round checks its
-- clock at least the interval after the one before, as it sleeps for the interval; nothing bounds the
-- time that a round or a kill takes.
--
-- Not modelled: signal handlers and KeyboardInterrupt, Runpodctl and SSHTransport (processes and HTTP), the
-- option parsers and the command line of runpod_job, of the supervisor the start before the
-- first sample, the handling of exceptions and the files that it writes, printing, non-ASCII letters in upper and digits in
-- int, Decimal's rounding beyond 28 digits, the limit on the length of an int's text, the rounded
-- float quota_cores; of the wheel scripts the option parsers, json.dumps, atomic_write, symbolic links
-- beside a manifest, the static and the GPU validation of validate-wheel.py and inspect-wheel.py (zip
-- archives, torch and CUDA tools); the shell scripts, the C shim and the workflows.
pub mod Base
pub mod Json
pub mod Job
pub mod Resources
pub mod Wheels
