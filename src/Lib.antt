-- ===== src/Lib.antt =====
-- A model of the election agent, which elects leaders through leases in independent Redis servers.
--
-- The quorum lock (internal/driver/redlock) runs Lua scripts on several servers and counts their
-- replies. The key-value driver (internal/driver) picks the servers by the operation mode, keeps the
-- agent's state in them and tells unreachable servers from refusals. A lease (internal/lease) wraps a
-- mutex of the lock and maps its errors, and the lease manager gates every operation by the agent's
-- state and caches leases. The zone manager (internal/zone) sets that state from what it can reach,
-- and the service of elections (internal/api) puts the lease manager behind checks and codes.
--
-- Prelude: shared names, tests on native numbers, counts over lists. Tests: the theorems at concrete
-- inputs, with the parameters as concrete functions.
-- Errors: the errors of internal/driver/redlock/error.go and internal/lease/lease.go as one type, with
-- errors.As and errors.Is in Errors.Walk. A nil error is none, and numbers in the text of an error are
-- left out.
-- Redis: one server by the documented behaviour of GET, SET PX, SET PX NX, PEXPIRE and DEL, as an
-- interface with laws, and Redis.Table, a table that meets it. Time is in nanoseconds.
-- Redlock.Quorum: actStatusOpAsync of internal/driver/redlock/redlock.go on the list of replies in the
-- order of arrival. The lemmas on its outcome are in Quorum.Verdict, those on the errors inside its
-- error in Quorum.Content.
-- Redlock.Votes: getMostFreqVal and actStringOpAsync of internal/driver/redlock/redlock.go. A map is
-- the list of its entries and the order of range is a parameter.
-- Redlock.Script: the scripts of internal/driver/redlock/mutex_op.go and the methods that evaluate
-- them; a request is answered, never arrives, or is executed and its answer is lost; or a connection
-- without a client answers and makes none.
-- Redlock.Mutex: TryLockContext, UnlockContext, ExtendContext and HandoverContext of
-- internal/driver/redlock/mutex.go, and NewMutex of redlock.go beside it; the multiplication by a
-- float64 is a parameter. Mutex.Exclusion holds the safety argument, with the steps of rivals in
-- Exclusion.Rivals, and Mutex.Results the results.
-- Redlock.Mutex.Retry: LockContext of internal/driver/redlock/mutex.go; genValue, the delays and the
-- end of the context are parameters.
-- Redlock.Crc, Redlock.Shards: the table, connIdx and Conns of internal/driver/redlock/conn.go, and
-- the groups of connections of redlock.go beside it. Random shuffles and indices are parameters.
-- Redlock.Store: Get, Set, SetBool, MGet, MSet and Ping of internal/driver/redlock/redlock.go over the
-- shards. Store.Held and Store.Columns follow what the servers show, and Store.Register is the
-- abstract store that they refine.
-- Redlock.Rueidis: the connection of internal/driver/redlock/rueidis.go with its recovery.
-- Redlock.Commands: the commands of rueidis.go and of goredis.go beside it.
-- Driver.Health: internal/driver/redis_helper.go and IsUnhealthy of internal/driver/redis_driver.go.
-- Driver.Modes: the connections of internal/driver/redis_driver.go under the operation modes.
-- Driver.Modes.Urls: the setting redis.urls, by both parsers of internal/driver/redlock.
-- Driver.Store: the reads and writes of internal/driver/redis_driver.go through the quorum store.
-- Driver.Holders: GetHolders of internal/driver/redis_driver.go. A goroutine for each connection scans
-- it by cursors, on fuel: a fuel above the rank of the first cursor is enough if the ranks get smaller,
-- as Holders.Ends shows. How the goroutines interleave is a parameter.
-- Driver.Start: NewRedisKVDriver of that file as a whole, and in Start.Restarts the starts between other
-- reads and writes of the state.
-- Driver.AgentState: the agent's state and status of internal/driver/redis_driver.go over an interface
-- of the store.
-- Agent: internal/agent/agent_info.go. Config: internal/config/config.go.
-- Lease: internal/lease/lease.go and redis_lease.go beside it. Lease.Cache: getLease of
-- internal/lease/lease_mgr.go with NewLease and LeaseID; the LRU cache and the hash are parameters.
-- Lease.Manager: the operations of internal/lease/lease_mgr.go, with their state in Manager.Gate and
-- their refusals in Manager.Refusal.
-- Zone: Check of internal/zone/zone_mgr.go. Zone.Watch: what checkActiveZone, checkPeerConnected and
-- getZoneStatus of that file collect, and checkStatus. Zone.Orphan: checks of an agent that is cut off.
-- Zone.Coordinator: the answer of the coordinator. Zone.Manager: the creation of the manager, the
-- status that it sets, and the control service of internal/api/grpc.go, which asks it.
-- Api.Grpc: the service of elections of internal/api/grpc.go over an interface of the lease manager.
-- Api.Http: the handlers of internal/api/http.go, and their agreement with the service of elections.
-- Api.Server: internal/api/server.go, the readiness of its services.
-- Zc: the zone coordinator, internal/zc/zc.go, from the text of its zones to what an agent reads.
-- Kube: GetPods of internal/kube/kube.go. Api.Pods: its handlers in internal/api.
-- Simulate: the simulation of clients of cmd/election-agent-cli/simulate_cmd.go, against the service.
--
-- A key on the wire is a Unicode string, whose bytes Crc writes out as UTF-8. Durations are natural
-- numbers, and a difference that would be negative is written out where the code tests it. Besides
-- that of the scans there is the fuel of the hexadecimal digits of a duration: an int64 has at most
-- sixteen. The multierror library, the client libraries, the JSON decoders, the routers and the LRU
-- cache are parameters with the behaviour that their documentation gives. Goroutines that only collect
-- replies are the order in which the replies arrive; the mutexes around single assignments are left
-- out, and so are metrics and logs.
-- Not modelled are the ticker of the zone manager, listening and its retries, the text of the service
-- configuration for clients, the main programs and the other commands, which are input and output
-- around libraries or serve people and measurements.
mod Prelude
pub mod Errors
pub mod Redlock
pub mod Redis
pub mod Driver
pub mod Agent
pub mod Zone
pub mod Zc
pub mod Api
pub mod Config
pub mod Kube
pub mod Lease
pub mod Simulate
pub mod Tests
