-- ===== src/Lib.antt =====
-- pp-cpp-common: a verification library for the shared C++ code of the pp programs.
--
-- The program is a library of parts that its users combine. Two groups of them are modelled here.
--
-- Data on the wire. OutputArchive and InputArchive (include/common/Serialize.hpp) write and read the
-- types of C++ as big-endian words, length-prefixed strings and counted containers; binaryPack and
-- binaryUnpack (include/common/BinaryPack.hpp) wrap them, with the errors of
-- include/common/ResultOrError.hpp. The document tree Value (include/common/Value.h, src/Value.cpp)
-- keeps an object's fields in a FiFoMap (include/common/FiFoMap.h) and goes over the wire as a tag and
-- a payload, each field in turn.
--   Results       ResultOrError and Error.
--   Wire          Endian: toBigEndian and its helpers, with the byte order of the machine as a
--                 parameter. Reader: the input stream and its failed flag, as a function from bytes to
--                 an optional value and rest. Scalars, Strings, Items, Types: the overloads of write,
--                 read and operator&, chosen by a code of the C++ type. RoundTrip, Extension, Pack:
--                 what they promise, and binaryPack and binaryUnpack.
--   FifoMap       entries and index with every operation; Refinement reads it as its entries.
--   Value         the tree; Codec: valueToWire, wireToValue and Object::serialize. Access: the typed
--                 accessors and DeepMergeObject of include/common/ValueJson.h. Equal: valueEqual.
--                 Numbers: asNonNegInt, getNonNegInt and setUIntForJson, with std::stoull and
--                 std::to_string as the standard describes them.
--   Json          src/io/Json.cpp. Strings: the encoder of a string, which puts U+FFFD where it is not
--                 UTF-8, and its parser. Numbers: parseNumber, with std::from_chars as the standard
--                 describes it. Encoder: appendJsonValue with its errors and their paths. Parser:
--                 parseValue, parseObject and parseArray. Document: objects to and from text. A parse
--                 that fails is none, without its message. Shrinks, StringFuel, Fuel, LoopFuel and
--                 Termination are about how much of the input each reader leaves.
--
-- Tasks. Every executor keeps its queues under one lock, so that a run is a sequence of events: calls
-- from any thread, and the locked part of what its own threads do.
--   Tasks.Runner  SequencedTaskRunner (src/SequencedTaskRunner.cpp).
--   Tasks.Pool    WorkerPool (src/WorkerPool.cpp): three lanes, pause, and shutdown by join or detach.
--   Tasks.Timers  the deadlines, timers and ids that ManualExecutor and ThreadExecutor share.
--   Tasks.Manual  ManualExecutor (src/ManualExecutor.cpp): a clock that moves by hand.
--   Tasks.Thread  ThreadExecutor (src/ThreadExecutor.cpp): timers that enter the queue when due.
--   Tasks.Coordinator
--                 CoordinatorThread (src/runtime/CoordinatorThread.cpp): a mailbox of three priorities,
--                 repeating and one-shot timers, and a thread whose turns end where it unlocks.
--   Tasks.Owner   OwnerThread (src/runtime/OwnerThread.cpp), on its own thread or drained by hand.
--   Tasks.Rendezvous
--                 SerialExecutor::RunAndWait (src/SerialExecutor.cpp): one call that posts a task and
--                 waits until it was run or dropped.
--
-- Around them.
--   Lifetime      Lifetime (include/common/Lifetime.h): what a bound call does between its atomic steps,
--                 as a step relation on any number of threads, and InvalidateAndWait.
--   Metrics       MetricsRegistry (src/MetricsRegistry.cpp). Histogram: lower_bound, Observe and Read.
--                 Registry: Find and the updates of what it returns, which refers to a series by name
--                 and place. Labels: LabelText and FixedLabelCounts. Render: Number, the collectors and
--                 RenderPrometheus.
--   Runtime.Gate  The teardown gate of AppRuntime (src/runtime/AppRuntime.cpp), through which every post
--                 and timer passes: a run is a sequence of the critical sections under its lock. The
--                 thread-local depth is read off the threads of the tasks that execute.
--
-- A task is a value of a parameter type; where the tasks' own calls matter a parameter lists them. An
-- empty std::function is none. Tasks that throw are caught by the code and behave as those that
-- return. Waiting on a condition variable is an event that happens later.
--
-- Bounds and fuel. Words are numbers below the power of two of their type. A std::vector, a string and
-- a map have fewer than 2^64 items; a string that is read has at most 64 MB. wireToValue recurses on
-- the depth that is left of kMaxWireDepth, as the code counts it. The loops that run tasks may go on
-- for ever when tasks post tasks, so they take fuel and say whether they ended; Tasks.Runner gives
-- enough fuel for tasks that post lighter ones. The loop that reads a string takes its length as fuel,
-- which is enough as each round reads at least a byte; so do the loops that parse a JSON string,
-- object and array. The parser recurses on the depth that is left of kMaxNestingDepth.
-- Times are numbers that do not overflow. The indent of the JSON encoder times the depth is a
-- product of ints; where it overflows the model gives no text.
--
-- Parameters. How a double is printed at precision 17, and what strtod reads, are the record
-- Doubles of Json.Numbers; the round trips assume of them, in PrintsDoubles, what the C library
-- documents. In Metrics the addition of doubles is a parameter, and Streams prints a double at a
-- precision and reads it back; their comparison is on bit patterns. std::lower_bound is its
-- specification, the first bound that is not below, as it gives on ascending bounds. A Lifetime is
-- invalidated less than 2^64 times, and less than 2^32 calls are in progress.
--
-- Not modelled: unordered containers on the wire, as the language leaves their order open; the
-- messages of JSON parse errors; AppRuntime beyond its gate and the other runtime classes; logging,
-- files and identifiers, which call the platform.
pub mod Common
pub mod Results
pub mod Wire
pub mod FifoMap
pub mod Value
pub mod Json
pub mod Tasks
pub mod Lifetime
pub mod Metrics
pub mod Runtime
