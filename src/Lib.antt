-- ===== src/Lib.antt =====
-- Sylar: a C++ server framework of fibers, a scheduler, an epoll event loop, timers, a byte array for
-- serialisation, and an HTTP server on top. This library models its parts and proves what makes them
-- correct. Paths below are from the repository's root.
--
-- How the parts fit together. sylar/scheduler.cpp runs fibers (sylar/fiber.cpp) and callbacks on a
-- pool of threads. sylar/iomanager.cpp is a scheduler whose idle fiber waits in epoll, and is also the
-- timer manager of sylar/timer.cpp. Sockets and streams move bytes between the network and a
-- sylar/bytearray.cpp or the buffers of sylar/http/.
--
-- - Common: tests on numbers, lists over the native numbers, `Memory` (ranges of a buffer), `Bits` (the
--   bit operations at variables), `Int`, and `Outcome`, what a call ends in: a value, an exception,
--   a failed SYLAR_ASSERT, undefined behaviour, or fuel that ran out.
-- - Endian models sylar/endian1.h on a little-endian host.
-- - ByteArray models sylar/bytearray.cpp. The chain of Nodes is a list, m_cur a position in it (the
--   list's length for null), a byte that was never written is `none`. `write`, `read`, `add_capacity`,
--   `set_position` and `clear` are the methods write, read, addCapacity, setPosition and clear; the
--   loops of write and read have the size for fuel, as each round moves a byte at least, and `seek`
--   recurs on the chain. ByteArray.Codec has the typed accessors. ceil(1.0 * size / base) is taken to
--   be exact, as it is for sizes up to 2^53, and size_t additions not to wrap. Not modelled: floats,
--   files.
--
-- Timer.antt and Timer/ model sylar/timer.cpp. A Timer is found by its address in a heap (a function);
-- TimerManager keeps the heap, the set m_timers as the list of its elements in order, m_tickled and
-- m_previousTime. Each method is a function of the same name in snake case. Timer/Order.antt is the
-- order of Timer::Comparator and what find, insert and erase do under it, Timer/Valid.antt the
-- invariant (sorted, and exactly the timers with a callback) and the methods that keep it,
-- Timer/Expiry.antt, Timer/Firing.antt and Timer/ListExpired.antt the three steps of listExpiredCb.
-- There is no fuel: all loops run over the set. The list walks of find and erase stand for the tree
-- search of std::set, which visits the same equivalent element in a sorted set.
--
-- IoManager.antt and IoManager/ model the event table of sylar/iomanager.cpp: m_fdContexts,
-- m_pendingEventCount and the tasks handed to Scheduler::schedule. The answers of epoll_ctl are a
-- parameter, the events of epoll_wait a list. IoManager/Registry.antt is the abstract table, two slots
-- for each descriptor, and the code's form of it (`manager_of`). IoManager/Events.antt has the bit masks
-- and triggerEvent, IoManager/Adding.antt addEvent, IoManager/Operations.antt delEvent and cancelEvent,
-- IoManager/CancelAll.antt cancelAll, IoManager/Dispatch.antt the events in idle (with
-- IoManager/Taking.antt, the guarded calls of triggerEvent that the last two share).
--
-- FdManager.antt and FdManager/Table.antt model sylar/fd_manager.cpp: m_datas is a list of contexts, `none` for
-- a null pointer; the answers of fstat and fcntl are arguments of FdCtx::init.
--
-- Scheduler.antt and Scheduler/ model the queue of sylar/scheduler.h and scheduler.cpp, m_fibers, with the
-- counts and flags that Scheduler::stopping reads, and the states of sylar/fiber.h. Scheduler/Queue.antt is
-- about scheduleNoLock and the scan of run, Scheduler/Running.antt about the branch of run for a fiber. What a
-- fiber does while it runs is the argument `left`, the state in which it swaps out.
--
-- Servlet.antt and Servlet/ model the tables of sylar/http/servlet.cpp: ServletDispatch keeps m_datas (one
-- entry for each URI), m_globs in order and m_default; servlets are numbers and URIs texts. fnmatch is a
-- parameter of getMatchedServlet. Servlet/Lookup.antt is about exact URIs, Servlet/Globs.antt about globs.
--
-- Stream.antt and Stream/Reading.antt model readFixSize and writeFixSize of sylar/stream.cpp on a buffer. The
-- answers of the virtual read and write are lists, which are the fuel of the loops: a loop that needs more
-- answers is `stuck`, and the theorem says how many are enough.
--
-- Address.antt and Address/ model sylar/address.cpp: masks and IPv4 in Address.antt, Six IPv6, Unix the paths,
-- Lookup the parts of a host with getaddrinfo as an argument, Order the comparisons. Count, Bytes, Masks, Prefixes
-- and Splitting hold what they do. CountBytes has fuel for 64 ones, which `count_bytes-ones` shows is enough.
--
-- Config.antt models the walk of sylar/config.cpp over a YAML tree, with the texts that each variable gets.
--
-- Hook.antt models do_io of sylar/hook.cpp and the calls that go through it, Hook/Calls.antt the other replaced
-- calls; Hook/Io.antt and Waiting.antt hold what do_io returns and leaves behind, Hook/Flags.antt what fcntl,
-- setsockopt and the sleeps do. The answers of the system are a list, and so is what happens in each wait.
--
-- Http.antt and Http/ model sylar/http/http.h and http.cpp: Http/Methods.antt the method table and its
-- conversions (with Http/MethodTexts.antt), Http/Status.antt the status table, Http/Headers.antt
-- CaseInsensitiveLess and the std::map under it as a list in order, Http/Request.antt HttpRequest and
-- HttpResponse with their accessors and dump, Http/Accessors.antt and Http/Printing.antt what they do.
-- Numerals are printed with 3, 10 or 20 digits of fuel, enough for 8, 32 and 64 bits.
--
-- Log.antt models the levels, events and format items of sylar/log.cpp, Log/Pattern.antt the parser of
-- patterns (LogFormatter::init), whose fuel is the length of the pattern and one more, enough by
-- `new_formatter-ends`; Log/Loggers.antt loggers, appenders and the manager. Parsing, Written and Naming hold
-- what the parser does, Formatters and Running the runs of a logger. Appenders are shared by pointer, hence
-- the store.
--
-- Http/Parser.antt and Http/Parser/ model sylar/http/http_parser.cpp: the request parser with its callbacks,
-- Http/Parser/Responses.antt the response parser. The parsers that Ragel generates are the interface
-- `Grammar`, whose execute returns the callbacks it made; Http/Parser/Accepting.antt and Executing.antt hold
-- what the callbacks report and what execute leaves in the buffer.
--
-- Http/Session.antt and Http/Session/ model recvRequest and sendResponse of sylar/http/http_session.cpp on
-- the parser and on readFixSize: Rounds and Ending the loop over the buffer, Body the content, Closing its result.
-- The answers of the stream are the fuel; `recv_loop-ends` says which lists of them are enough.
--
-- Socket.antt models sylar/socket.cpp: each operation takes the answers of the system and returns its calls;
-- Socket/Runs.antt and Connecting.antt are about runs of the public operations. TcpServer.antt models
-- sylar/tcp_server.cpp on these sockets, with the tasks for its schedulers as lists, and Http/Server.antt the
-- loop of sylar/http/http_server.cpp.
--
-- Not modelled: locks and memory order (each method that takes a lock is one step), the switch of contexts
-- and the life of Fiber objects, start and stop of the scheduler, the values of the options of sockets,
-- the variables of the configuration, the YAML of loggers, the functions of sylar/util.cpp
-- and sylar/thread.cpp, which wrap the C library, and the state machines that Ragel generates.
pub mod Common
pub mod Endian
pub mod ByteArray
pub mod Timer
pub mod IoManager
pub mod Servlet
pub mod Http
pub mod Scheduler
pub mod Stream
pub mod FdManager
pub mod Hook
pub mod Address
pub mod Log
pub mod Socket
pub mod TcpServer
pub mod Config
