-- ===== src/Lib.antt =====
-- SLS runs game servers on several machines. Protocube (protocube/) is the control plane: it
-- knows the machines, called nodes, and the servers on them. On each node a daemon (daemon/)
-- installs servers, starts and stops their processes in containers, and keeps their files within
-- a quota. To create a server, protocube picks a node with its balancer, takes an address and a
-- port from the allocator of that node, and chooses the container image by the version of the
-- software. The daemon installs the base folder of the software under a lock file, warms it up,
-- and then handles the power actions, each under the power lock of its server.
--
-- The parts stand in modules of their own, one for each part of the program. A file that models
-- code holds its data and operations; its child modules hold the theorems, named for what they
-- show, and a module Examples with tests and with each theorem at a concrete input.
--
-- - Balancer.antt: protocube/balancer (round_robin.go, provider.go). Its state has the slice of
--   nodes, the map from ids to indices and the index of the next pick. An index out of range is
--   the result none.
-- - NodeManager.antt: protocube/node (manager.go, health.go), the nodes that are connected, over
--   the balancer of Balancer.antt. A node is any value with an id and the time of its last
--   heartbeat.
-- - Allocator.antt: protocube/node/allocator/allocator.go. The maps are association lists;
--   NewAllocation takes the shuffle of the addresses as an argument. A port that has wrapped
--   around is a word of 64 bits; the theorems are on ranges that end below the largest int.
--   Allocator/History.antt runs histories of calls with the pairs that are held.
-- - Software.antt: protocube/software/version.go. The regular expression of parseVersion is
--   written out; a map that is ranged over is the list of its entries in the order of the
--   iteration.
-- - Quota.antt and Filesystem.antt: daemon/internal/ufs/fs_quota.go, and the operations of
--   daemon/server/filesystem/filesystem.go and fs_unix.go that change the usage. The disk is a
--   table from paths to directories and regular files; which calls of the operating system fail
--   is an argument.
-- - DiskUsage.antt: daemon/server/filesystem/disk_space.go. A walk of a directory is the list of
--   its entries.
-- - Locker.antt: daemon/system/locker.go. The channel of capacity 1 is nil, empty or full.
--   TryAcquire, which waits, is a relation, and may come between the two operations of Destroy;
--   Locker/Exclusion.antt has the steps of any number of callers.
-- - Power.antt: daemon/server/power.go, HandlePowerAction and HandleReset, with the lock of
--   Locker.antt. How the environment answers is an argument, and the calls to it are listed in
--   their order.
-- - Rate.antt and SinkPool.antt: daemon/system/rate.go and sink_pool.go. Channels lie in a store,
--   from references to a buffer, a capacity and whether they are closed; a send to a closed
--   channel or its close is the result none.
-- - InstallLock.antt: daemon/server/install_lock.go and the loop of onBeforeStart in
--   daemon/server/power.go. Each call of the operating system is a step of one server, so that
--   the steps of other servers come between.
-- - InstallState.antt and Warmup.antt: daemon/server/install_state.go, warmup.go and the end of
--   install in install.go. What the container engine answers in each attempt is an argument.
-- - InstallLogs.antt: the logs of the installation in daemon/server/install_state.go, on the disk
--   and of the containers, on top of InstallState.antt.
-- - ServerManager.antt: protocube/server (manager.go, server.go, repository), the servers of the
--   control plane, with the allocators of Allocator.antt. The builder of configurations is a
--   record that ServerManager/Filled.antt fills with Configuration/Build.antt; a history has each
--   call as one step, also a registration with the claims of its callback. The row of a server is
--   what JSON gives back of it.
-- - RemoveAll.antt: daemon/internal/ufs/removeall_unix.go, over a tree with the answers of the
--   system at its entries. The loops take rounds, one more than there are entries, and nested
--   calls as many as the tree has levels; RemoveAll/Termination.antt shows that these are enough.
-- - Mounts.antt: the mounts and volumes of a server, in daemon/server/mounts.go, in InitServer of
--   daemon/server/manager.go, and in WithinPath of daemon/server/filesystem/path.go.
-- - Router.antt: Configure of protocube/api/router/router.go and the middlewares of
--   protocube/api/router/middleware. The interface of gin (Router/Routes.antt) is a record of
--   groups with its laws, and a request comes with the route that gin finds for it. Which scope
--   and which objects a handler needs is a table of its own, Router/Needs.antt.
-- - Paging.antt: the pages that the handlers of protocube/api/router give, and GetServers of
--   daemon/remote/servers.go, which asks for them. The order of the servers of a node is the same
--   for all requests, which ServersByNode does not promise.
-- - TextFile.antt: parseTextFile of daemon/parser/parser.go, over the bytes of a file.
-- - Limits.antt, Blueprint.antt and Registry.antt: protocube/environment (helpers.go,
--   settings.go) and protocube/blueprint; what the YAML package reads is an argument.
--   Registry.antt is the registry of blueprints and, with the same code, of software.
-- - OutputMatcher.antt and Configuration.antt: protocube/models/process.go, and
--   protocube/server/configuration.go and config_parser.go, which make the configuration of a
--   server of its blueprint, its software and the overrides of a request.
-- - UnixPath.antt: the paths of daemon/internal/ufs (fs_unix.go, path_unix.go), from what is
--   asked for to a directory below the base directory and a name in it.
-- - ApiKeys.antt: protocube/auth/store.go and repository.go, with the key of
--   protocube/models/key.go. The database is a record of its calls, whose laws
--   (ApiKeys/Rows.antt) are those of gorm: Create refuses an id that is there, First answers with
--   a row that fits, and Updates with a struct skips the fields that are zero.
-- - Shared.antt: lists measured by native numbers, tests, Go maps, integers of 64 bits, text as
--   lists of code points, with TrimSpace, Split, Join, Fields and Atoi, and filepath.Clean, Join
--   and Split.
--
-- Loops are structural where the code ranges over a slice or counts through a range: PickNode
-- makes as many rounds as there are nodes, the scan of a range of ports as many as the range has
-- ports, compareVersions as many as the longer version has components, and RunWarmup as many as
-- warmupAttempts gives. So no fuel is chosen, but for the digits of an exit code, where 20 are
-- enough for an int64, and the rounds of RemoveAll.antt. Numbers that the code keeps in an int64
-- or a uint64 near the limits (the usage of a quota, the count of the limiter) wrap around as in
-- the code.
--
-- Each method that holds a mutex is one step, but Destroy of the lock. Not modelled: HTTP
-- handlers and clients other than those of the pages, what the middlewares do with the answer of
-- a handler, what the database does with a query, the container engine, the mounting of overlays,
-- archives, the patching of configuration files that are not plain text, and events; what the
-- modelled code needs of them is an argument of its definitions. Nor are symbolic links and other
-- kinds of files in the quota, the usage that RemoveAll gives back, the receivers of a channel
-- while Push runs, and the programs in S4J, vsls and slimepacks.
pub mod Shared
pub mod Balancer
pub mod NodeManager
pub mod Allocator
pub mod Software
pub mod Quota
pub mod Filesystem
pub mod DiskUsage
pub mod Locker
pub mod Power
pub mod Rate
pub mod SinkPool
pub mod InstallLock
pub mod InstallState
pub mod Warmup
pub mod ApiKeys
pub mod UnixPath
pub mod Limits
pub mod Blueprint
pub mod Registry
pub mod OutputMatcher
pub mod Configuration
pub mod InstallLogs
pub mod ServerManager
pub mod RemoveAll
pub mod Mounts
pub mod TextFile
pub mod Paging
pub mod Router
