-- ===== src/Lib.antt =====
-- Models and proofs for the OpenIM project template, a service written in Go.
--
-- The program's parts. A user service answers two remote calls, registration and lookup, over three
-- storage layers: a controller, a cache and a MongoDB collection. A client wraps the generated stub
-- of the service. Around them stand the cache helpers for other models, error codes and a relation
-- between them, the configuration that processes load, the root command, a tool that waits for the
-- components a deployment needs, a middleware that measures HTTP requests, and the start of the two
-- server processes, which opens what they need and closes it at a signal.
--
-- Which file models what:
--   * User: pkg/common/storage/model/user.go, pkg/common/convert/user.go,
--     pkg/protocol/user/user.go (the document, UsersDB2Pb, the checks of requests). User.Storage:
--     pkg/common/storage/database/mgo/user.go, pkg/common/storage/cache/redis/user.go and
--     pkg/common/storage/controller/user.go, layer by layer, over a collection that is a record
--     of operations with laws; User.Storage.Memory is a collection that meets them. User.Server:
--     internal/rpc/user/user.go; the state is the collection and the counter of registrations,
--     `user_register` is UserRegister, `get_designate_users` is GetDesignateUsers, and
--     User.Server.Start has Start. User.Directory says what the service promises, as a step
--     relation on a directory of users, and User.Server.Refinement that its runs keep to it.
--     User.Server.Concurrent has requests that are served at the same time; the insertion of one
--     document is a step, since InsertMany is not atomic and runs in no transaction.
--     User.Client: pkg/rpcclient/user.go, over any stub.
--   * Errors, Relation: pkg/common/servererrs.
--   * Checks: tools/check-component/main.go, with main and the checks in Checks.Main; the loop of
--     performChecks runs on its own counter, so its fuel is the number of retries, and keeps a
--     trace of its calls and sleeps.
--   * Cache: pkg/common/cachekey/user.go and pkg/common/storage/cache/redis/batch_handler.go. A
--     slice is a length and the number of an array in a heap, so that clones of a deleter share
--     arrays. Cache.Coherence is about the two together. Cache.Deleter.Clones has variables that
--     hold clones, and any order of calls on them.
--   * Config: pkg/common/config and the table of prefixes of pkg/common/cmd/constant.go.
--   * Command: pkg/common/cmd/root.go, with options and the loading of files. Command.ApiCmd and
--     Command.UserRpcCmd: api.go and user.go beside it and the programs under cmd, from their
--     arguments to their end, over the library cobra. Command.Together has both programs, over
--     one directory of files.
--   * Routes: internal/api/router.go and internal/api/user.go; Routes.Http has the handlers over
--     the service, and Routes.Posts runs of requests to them.
--   * Deployments: the sample deployments/d.go.
--   * Metrics: pkg/common/ginprometheus/ginprometheus.go and pkg/common/prommetrics. The size of
--     a request is an int of 64 bits, as its bit pattern, and additions wrap around.
--   * Discovery: pkg/common/discoveryregister/discoveryregister.go.
--   * Startup.Rpc: Start of pkg/common/startrpc/start.go; Startup.Api: Start of
--     internal/api/init.go. Both act on the log of their effects; a deferred call appends its
--     effect after the rest of the function, whatever that answers. The select is on one event,
--     which the libraries' record holds.
--   * Startup.Rpc.Race and Startup.Api.Race: the goroutines of the two, netErr and the channel
--     netDone (and err, which those of the API share) as steps in any order. After a signal
--     nothing receives from the channel, which is where its steps stop. Startup.Waiting has the
--     states of the wait, and Startup.Registered says what a log registers at the discovery.
--     Startup.Rpc.Shutdown has the end after a signal and its time in seconds.
--   * Base and Tools: shared lemmas, maps and results; the functions of the library datautil are
--     the record `DataUtil`, with their documented behaviour as laws that Tools.Reference meets.
--   * Tests: runs on concrete inputs.
--
-- How code is modelled. A call that may fail answers `Res`: a value, an error or a panic. A handler
-- is a function from its state to an answer and the state after it, also where the answer is an
-- error. Maps are association lists; code that ranges over a map takes the order as an argument.
-- Libraries are parameters: MongoDB, rockscache, the Redis client, encoding/json, viper, cobra,
-- prometheus, gin and a2r.
--
-- Not modelled: generated protocol code, the parsing of arguments, logging, gRPC interceptors, the
-- memory check, whose main returns at once, and the build files.
pub mod Base
pub mod Errors
pub mod Tools
pub mod User
pub mod Relation
pub mod Checks
pub mod Cache
pub mod Config
pub mod Command
pub mod Metrics
pub mod Discovery
pub mod Startup
pub mod Deployments
pub mod Routes
pub mod Tests
