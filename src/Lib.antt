-- ===== src/Lib.antt =====
-- The system monitoring dashboard, a C++ server: a sampler thread reads /proc once a second and
-- appends what it finds to a store in memory; an HTTP API answers queries from the store.
--
-- The files and what they model, by the repository's paths:
--   Ring      include/store/memory_store.h, RingBuffer: a circular buffer of fixed capacity. Ring/Inv
--             its invariant, Ring/Window and Ring/Contents what it holds, Ring/History after any
--             number of appends, Ring/Range the filter by time.
--   Store     include/store/memory_store.h and store/memory_store.cpp, MemoryStore: the tables of
--             series, of snapshots and of metadata. A method is a function from the store to the
--             result, or to the store after it. Store/History runs sequences of writes. Store/Section
--             has the critical sections of the methods, and threads that interleave them: Section/Same
--             and Section/Seen say when two stores hold the same, Section/Pending what a thread has left
--             of its program, Section/Linear is about the writing methods, Section/Reads and
--             Section/Listing about the others.
--   Selector  include/metrics/metric_key.h and the string functions of api/routes.cpp: names of
--             series, as collectors build them and queries build and parse them.
--   Api       api/routes.cpp: Api/Registry the metrics and the validation, Api/Routes a function for
--             each handler, from the request's parameters and the store to the reply, Api/Stored the
--             listing of the stored series, Api/Sections GET /api/query and /api/export by
--             the locks that they take, Api/Bind what is registered.
--   Main      main.cpp and store/system_info.cpp: the port, the web root and the page, Main/Info the
--             metadata of the machine, Main/Bind the handlers, Main/Server `main` and the sampler
--             thread as steps: the thread loads the flag, runs a round, or ends; the flag is cleared
--             once `listen` has returned. Main/Live is the same at a finer grain, where a step is one
--             critical section of the store: Main/Live/Stands relates the two, Main/Live/Names, Kept and
--             Served say what the tables hold, Main/Live/Query, Cached and Stop are about requests and
--             the end.
--   Config    include/config.h.
--   Cpu       collector/cpu_linux.cpp, Memory collector/memory_linux.cpp, Net collector/net_linux.cpp:
--             the readers of /proc and the values computed from two readings. The static variables of
--             a function are its state, an argument and part of the result; the file's text and the
--             clock are arguments. Counter is what two readings of a counter and of the clock give.
--   Disk      collector/disk_linux.cpp: /proc/diskstats, which devices count, and their rates.
--   Proc      collector/proc_linux.cpp: the readers of the files of /proc (Proc/Stat and Proc/Status),
--             the snapshot that they give (Proc/Snapshot), the process table computed from two snapshots
--             (Proc/Table), and its order (Proc/Order).
--   Sampler   collector/loop.cpp: one round of the sampler thread over the collectors and the store;
--             Sampler/Named says which names are made of a registered metric and labels that it
--             allows, Sampler/Kinds that they tell scalars from vectors, Sampler/Log lists the writes of a round, Sampler/Round is about
--             their names, and Sampler/Visible and Sampler/Processes say what a query finds behind it.
--   Scan      the functions of the C and C++ libraries on text that the program calls: `strtoll`, `>>`
--             at numbers and words, `std::getline` at a delimiter, and decimal printing.
--   Prelude   lists, tests, texts as lists of bytes, dictionaries, signed integers and `double`.
--   Json      the interface of the JSON library.
--
-- How they interact: a collector names a series by `metric_with_labels` and appends to the store; a
-- query builds the name by `build_selector` and reads the ring under it. Sampler/Round is one end of
-- this, Api/Query the other.
--
-- Choices. `std::string` is the list of its bytes. `std::unordered_map` is an association list; where
-- the program iterates one, the order is the list's, or a parameter that permutes it (Env). `size_t`
-- and `uint64_t` are natural numbers with their wrap-around written out; `int64_t` is an integer with
-- its bounds stated. `double` and the JSON library are parameters (Prelude/Double, Json), the former
-- with the laws of IEEE 754 that a theorem needs as a hypothesis (IsIeee). A read behind the end of a
-- vector is `none`. A reply is `none` where the JSON library throws at what is to be sent, as at bytes
-- that are no UTF-8; the HTTP library answers then by itself. A method of the store is a function, and a critical section of it is one step:
-- between two of them other threads may run. A pointer to a series that a method has found is its name,
-- since no series is moved or removed. What a round will read is given when it starts, since none of it
-- depends on the store. Loops are structural recursion, over the list or over the number of rounds
-- left. On fuel are the printing of a number, for which the number is enough, and the loops that read a
-- file by `>>` (Scan/Stream), for which the length of the text is enough: each round reads a byte at
-- least.
--
-- Not modelled: the HTTP and JSON libraries (include/third_party), which a request reaches its handler
-- by; the frontend (web); the clock (include/metrics/time.h) and the system calls, whose answers are
-- arguments. A handler only reads the store, so requests are no steps of the server. An exception or a
-- fault in the sampler thread ends the program. The sleep between rounds is left out. Of the HTTP
-- server only what is registered with it is kept (Api/Bind); that it finds a handler by the method and
-- the path of a request is the library's.
pub mod Prelude
pub mod Ring
pub mod Json
pub mod Scan
pub mod Selector
pub mod Store
pub mod Api
pub mod Counter
pub mod Cpu
pub mod Memory
pub mod Net
pub mod Disk
pub mod Proc
pub mod Sampler
pub mod Main
pub mod Config
