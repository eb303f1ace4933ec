-- ===== src/Lib.antt =====
-- A model of HappyServer: an actor server in C++ whose services are written in Lua. Services live on
-- worker threads, exchange messages that the router brings to the receiver's worker, and pack Lua
-- values into byte buffers.
--
-- Parts and files:
-- - Base: numbers, lists, Boolean tests, bitwise operations and machine words that all parts share.
--   `size_t` has 64 bits and wraps (`add_size`, `sub_size`); an `int` is its bit pattern.
-- - Buffer (common/buffer.hpp, class buffer): the record `Buffer` has the class's members; the
--   functions have its methods' names. An array is the list of its bytes. The C++ runtime is the
--   record `Runtime`: the bytes of a fresh array, and `memcpy` inside one array, which is known only
--   for ranges that do not overlap. Buffer/Space, Buffer/Grow, Buffer/Contents and Buffer/Positions
--   prove what the methods do.
-- - View (common/buffer_view.hpp, class buffer_view), with its laws in View/Laws.
-- - Serialize (magic/lua_serialize.cpp): Serialize/Value is what the Lua API shows of a value,
--   Serialize/Pack the writers, Serialize/Unpack the readers, Serialize/Api the functions `pack`,
--   `packsafe` and `unpack`. The writers are stated over the interface Serialize/Sink, which
--   Serialize/Api fills with the buffer. Serialize/Code is the wire format on its own; Appends and
--   Written show that the writers append it, RoundTrip and Whole that the readers give the values back, Ends and
--   Total that they end, Errors and Calls what a failure leaves behind,
--   First what `unpack_one` takes from a buffer. Serialize/Concat is `concat` and `concatsafe`, over the
--   same sink; the text of a number is a parameter.
-- - Worker (core/worker.h, core/worker.cpp, and what they use of core/service.hpp and
--   common/message.hpp): a worker's tasks as functions on its state, with the calls that leave the
--   worker as events. The services are the record `Services`. Worker/Ids and Worker/Registry are about
--   the services of a worker, Worker/Wakeup about the messages that wait.
-- - Timer (common/timer.hpp, core/worker_timer.hpp): the four wheels, `insert_timer` and the loop of
--   `update` over the wheels; Timer/Table is the table of the timers with `repeat`, `remove`,
--   `on_timer`, `expired` and `update`, where the handler's calls of the timers are a list that it
--   gives back. Timer/Position says when a key is due; Keys, Insert, Tick, Inserted, Expired, Times,
--   Fresh and Wrap are about the operations, and Gone about
--   the handler that a worker sets. Durations and ticks are numbers without bound; a duration is
--   an `int32_t` below 2^31 - 10, so that its rounding does not wrap.
-- - Lock (common/rwlock.hpp, common/spinlock.hpp): the atomic operations of the two locks as steps of
--   threads, where a load of `rwlock` may give any value; Lock/Threads is about threads that take
--   turns, Exclusion and Spin about the locks.
-- - Strings (common/string.hpp): `split`, `replace`, and texts without regard to case, with Split,
--   Replace and Case about them; Strings/Decimal and Strings/Trim are the digits of a number and the trims.
-- - LuaService (services/lua_service.cpp): the allocator (Allocator) and the callbacks (Lifecycle).
-- - Router (core/router.cpp, common/concurrent_map.hpp): Router/Ids and Router/Routing.
-- - Server (core/server.cpp): the calls of the server and the tasks of its workers as a step relation.
--   Server/Workers and Server/Reachable prove what holds in every state that is reached.
-- - Config (core/server_config.hpp, common/rapidjson_helper.hpp): values of the JSON library as its API
--   shows them, and in Config/Load `prepare`, `parse` and the lookups; the library, the clock and
--   `std::to_string` are the record `Platform`. Loaded, Complete, Served and Prepared are about them.
-- - Queue (common/concurrent_queue.hpp), and Logger (common/logger.hpp): the levels, and in
--   Logger/Pipeline the calls and the steps of the thread that writes; Order, Alive and Drain are about it.
-- - Clock (common/time.hpp): `milltimestamp`, over `uint64_to_str` of Strings/Decimal; Clock/Stamp is what
--   it writes. A write to an array is `put`, and `log10` and `localtime` are parameters.
-- - Message (common/message.hpp, and `redirect`, `resend` and `print` of magic/lua_bind.cpp): a message
--   over its buffer; Message/Writes and Message/Flags are about it. Workers take a message's data as a
--   text, so their `Message` is a record of its own.
-- - Start (happy.cpp): the arguments, and what `main` does up to `run`, over the router and the server;
--   the file system and `stoi` are the record `System`. Arguments, Requests and Environment are about it.
-- - Examples: concrete inputs for the theorems.
--
-- Interaction: the workers' events reach the router (`deliver`), which calls `send` of the workers;
-- `pack` writes through the buffer and `unpack` reads through a view of its bytes.
--
-- Fuel: the readers of Serialize/Unpack take a bound on the depth of their calls. Each call that does
-- not end takes a byte or goes down once, so three steps for each byte and one more are enough, which
-- `unpack` gives. `read_string_loop` of View takes one round for each byte. `free_id` of Timer/Table
-- takes one round for each timer and one more; `expired` is given its rounds, and one for each key is
-- enough unless the first wheel wraps; `replace_loop` takes one for each byte and one more.
-- The loop of `uint64_to_str` has ten rounds, and a number of 64 bits takes nine.
--
-- Not modelled: threads other than as an order of steps (a task runs to its end, as on its thread; the
-- second critical section of `worker::send` is a step of its own, `wakes`); the Lua API and its
-- errors, but for those that `__pairs` and its iterator raise while `pack` runs; what a worker does
-- with its timers, which is an event there; the class `timer` of common/timer.hpp; the pool of
-- common/, the other conversions and `format` of common/string.hpp, `error` and most of `init` of
-- services/lua_service.cpp; how a processor orders memory operations (a load of `rwlock` may give
-- any value, so that no reader is in while a writer is is not shown); the format of the
-- logger's lines and their output, files, clocks, signals and most bindings to Lua, which are input
-- and output or calls of other libraries. Texts that the code of workers and routers formats are data
-- (`Text`) in place of their characters.
pub mod Base
pub mod Buffer
pub mod View
pub mod Serialize
pub mod Examples
pub mod Worker
pub mod Router
pub mod Server
pub mod Timer
pub mod Lock
pub mod Strings
pub mod Config
pub mod Queue
pub mod Clock
pub mod Logger
pub mod Message
pub mod Start
pub mod LuaService
