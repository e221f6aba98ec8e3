-- ===== src/Lib.antt =====
-- Snap is a telemetry framework: a daemon loads plugins that collect, process and publish metrics,
-- and runs tasks, each a schedule with a workflow over the plugins. The parts modelled here:
--
-- Namespace (core/metric.go): the elements of a metric's name, and String, which joins them by the
--   first separator of a priority list that shows in none of them. Characters are code points.
-- Strategy/Key, Strategy/Cache (control/strategy/cache.go): the table of collected metrics with
--   get, put, checkCache, updateCache and the counters. The table's key is the printed namespace, a
--   colon and the version.
-- Strategy/Lru, Strategy/Sticky, Strategy/ConfigBased (lru.go, sticky.go and config_based.go of
--   control/strategy): the routing strategies. Select gives a task one of the running plugins and
--   Remove takes it back; sticky and config-based routing also keep one cache per task or
--   configuration.
-- Strategy/Plugin, Strategy/Pool (control/strategy/pool.go): the running instances of one plugin,
--   their subscribers, and the routing strategy that the first inserted plugin brings. Insert, Kill,
--   KillAll, SelectAndKill, SelectAP, Subscribe and Eligible are the functions of those names.
-- Schedule (pkg/schedule/schedule.go and windowed_schedule.go): when a task fires: waitOnInterval,
--   and Validate and Wait of the windowed schedule, which sleep until the moment is reached.
-- Scheduler/Queue (scheduler/queue.go): the job queue of the work manager. Step is the relation
--   between its states, with one constructor for each thing a goroutine does under the mutex or on a
--   channel; Reach is its closure.
-- Scheduler/Task (scheduler/task.go, core/task.go): a task's state machine, with Spin, Stop, Kill,
--   Enable, fire, disable and the spin loop, over the list of what the loop's select receives.
-- Scheduler/Watchers (scheduler/watcher.go): the watchers of tasks, with add, rm, Close and the event
--   handlers. A pointer to a watcher is its number in the order of creation, and a slice is its
--   array's cells with a length.
-- Scheduler/Service (scheduler/scheduler.go, scheduler/task.go): the task collection and StartTask,
--   StopTask, EnableTask and RemoveTask.
--
-- ConfigTree (pkg/ctree/tree.go): nodes by namespace, with Add, Get and GetAll. The nodes are a
--   parameter, and Get's Merge may change a store. The capacity of a slice that an append makes
--   is a parameter too.
-- ConfigData (core/cdata, core/ctypes/ctypes.go): configuration values and nodes that hold tables of
--   them, with the merges, ApplyDefaults and UnmarshalJSON; the store of tables stands for the Go
--   maps that the nodes refer to. A range over a map goes from the last entry of the list to the
--   first, but in ApplyDefaults and UnmarshalJSON from the first to the last.
-- Policy/Rules, Policy/Node (bool.go, string.go, float.go, rule.go and node.go of control/plugin/cpolicy):
--   the kinds of rule and the policy node, which checks a configuration and fills in defaults.
-- Catalog/Tuples (control/metrics.go): tuples in a requested namespace, the namespaces that a plugin
--   may offer, and instances of dynamic ones.
-- Catalog/Trie (control/mttrie.go): the trie of the offered metrics, with its queries and removals.
-- Catalog/Metrics (control/metrics.go): the catalog, its list of keys and the trie, with Add, GetMetric,
--   GetMetrics and RmUnloadedPluginMetrics. A query returns none for a panic.
-- Policy/IntRule (control/plugin/cpolicy/integer.go): a rule for an integer of a plugin's
--   configuration, with GobEncode, GobDecode and Validate.
-- Agreement (mgmt/tribe/agreement/agreement.go): the plugins and tasks that the members of a tribe
--   agreement share, with Contains, Add and Remove.
-- Tribe (tribe.go, clock.go, messages.go and delegate.go of mgmt/tribe): one node's state, with the
--   handlers of the messages (Handlers), one message after another (Hearing), the messages that came too early (Intents), joining and
--   leaving (Membership) and the calls that make messages (Calls). Agreements are objects of a heap,
--   since members keep pointers to agreements that the map has lost. A handler returns none for a
--   panic and when its rounds of processIntents do not end within the fuel.
-- Control (subscription_group.go, plugin_manager.go and available_plugin.go of control): the tables of
--   loaded plugins (Loaded) and of pools (Available), the subscription groups (Groups), which keep
--   a task subscribed to the pools of the plugins that it needs, and the check whether a plugin may
--   be unloaded (Unloading). Starting a plugin, events and what
--   the metric catalog gives are arguments.
-- Promise (pkg/promise/promise.go): a promise, and the rendez-vous of two processes as a step relation.
--
-- Strategies call the caches, the pool calls its strategy, the service calls the tasks, configuration
-- nodes are merged by the tree, and the catalog calls its trie; the
-- models call each other in the same way. The modules below each of these hold its lemmas and theorems,
-- and the Samples modules concrete runs.
--
-- How the code is read. A Go map is an association list in one order of iteration (Base/Map).
-- Times are nanoseconds from the zero time of Go, as natural numbers, and functions take what the
-- clock reads as arguments, one for each place of the code that reads it; Time.Sub saturates at
-- the bounds of int64. The counters keep the wrap-around of uint64 and uint32, and durations that
-- of int64. Pointers to plugins are handles of a heap. A method that holds its mutex to the end is
-- one step. Closing a closed channel is a panic, for which the operations return none. A gob
-- stream is the list of the values that were encoded. The decimal print of n has fuel n + 1, which
-- is more than the number of its digits.
--
-- Not modelled: logging, processes and RPC, HTTP, the command line and generated code, which only
-- carry the calls in and out; the gob and JSON encoders, which are the standard library's, but for the
-- rule of integers and the JSON of a configuration node; the gob encoding of a configuration, the
-- answer of the schedule and the subscription of plugins, which are arguments of the functions that
-- use them; the cron schedule, which calls a library; the streaming loop of a task; the workflows
-- and jobs; in a tribe the exchange of whole states, the queries for the state of a task and the
-- workers; in the control module the checks of a task's dependencies and the loading of files.
mod Base
pub mod Namespace
pub mod Strategy
pub mod Schedule
pub mod ConfigTree
pub mod ConfigData
pub mod Policy
pub mod Catalog
pub mod Scheduler
pub mod Agreement
pub mod Tribe
pub mod Control
pub mod Promise
