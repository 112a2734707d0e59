-- ===== src/Lib.antt =====
-- Forge, a lock-free agent runtime in C++: a pool of worker threads over lock-free queues, futures
-- with continuations, and on top of them sessions whose workflows call an LLM and tools until there
-- is an answer.
--
-- The parts and their files (paths from the repository's root):
--   Deque           src/core/work_stealing_deque.h: the deque of one worker, which it pushes and pops at
--                   the bottom while other workers steal from the top. Deque/Circular is its buffer.
--   Mpsc            src/core/mpsc_queue.h: the queue by which other threads hand tasks to a worker.
--   Future          src/core/future.h: the state that Promise and Future share, with the slot of its
--                   continuation.
--   Semaphore       src/core/semaphore.h: the bound on LLM calls in flight.
--   ThreadPool      src/core/thread_pool.h, thread_pool.cpp: the workers, which take tasks from their queues
--                   of both kinds, steal, and help in a `get`; and the destructor.
--   ConcurrentMap   src/core/concurrent_map.h: the table of sessions, in stripes with a lock each;
--                   ConcurrentMap/Contention is `insert_if_under` by several threads.
--   RateLimiter     src/core/rate_limiter.h: the token bucket in front of the LLM.
--   Chat            src/llm/message.h: messages, tool calls and LLM responses; Chat/Json is their conversion
--                   to and from JSON, over an interface for nlohmann::json with its laws.
--   LlmClient       src/llm/llm_client.h: the request of `complete`, and the reading of the response, which
--                   takes the message out of it by Chat/Json.
--   ThrottledLlmClient  src/llm/throttled_llm_client.h: the client that takes a permit of the Semaphore for
--                   each call.
--   Conversation    src/session/conversation.h; Conversation/Summary is
--                   src/session/summarizing_conversation.h.
--   Tools/Registry  src/tools/tool_registry.h, tool_spec.h; Tools/Executor is src/tools/tool_executor.h.
--   Tools/Shell     src/tools/builtin/shell.h; Tools/FileRead is src/tools/builtin/file_read.h, and
--                   Tools/Calculator the parser of src/tools/builtin/calculator.h. Tools/Builtin is the handlers of
--                   the calculator and of src/tools/builtin/web_search.h.
--   HttpClient      src/core/async_http_client.h: URLs, the guard against private addresses, and the
--                   tasks of get and post.
--   Session         src/session/session.h.
--   WorkflowFactory src/workflow/workflow_factory.h.
--   TaskDag         src/workflow/task_dag.h: the graph of dependent tool calls and its sort into levels;
--                   TaskDag/Execute runs the levels on Tools/Executor, with the placeholders filled in.
--   SessionManager  src/session/session_manager.h, session_manager.cpp: creates sessions in the striped map,
--                   hands their workflows to the pool, and collects the ended ones. SessionManager/Task
--                   is such a task, and SessionManager/Lifecycle a session's way through all of them.
--   HttpServer      src/server/http_server.h, http_server.cpp: the handlers, which read requests and write
--                   responses by Chat/Json and call SessionManager; HttpServer/Stream is the event stream of
--                   a session, HttpServer/Routes the table of routes, and HttpServer/Collector the thread
--                   that calls `gc`.
--   Metrics         src/utils/metrics.h, and the handler that shows them.
--   Tracing         src/utils/tracing.h.
--   Config          src/utils/config.h, config.cpp, and `parse_file` of src/utils/json.h.
--   CommandLine     src/main.cpp: the arguments, and what they start with which configuration.
--   CostTracker     src/session/cost_tracker.h.
--   React           src/workflow/react.cpp: the loop that calls the LLM, pushes its message on the
--                   session's Conversation, gives the tool calls to the executor, and pushes the results.
--   PlanExecute     src/workflow/plan_execute.cpp: plans steps, has a React run for each, and puts the
--                   results together.
--   MapReduce       src/workflow/map_reduce.cpp: the same with sub-tasks on the pool, taken in their order,
--                   and (Parallel) interleaved on what they share.
--   Base            Boolean tests on numbers, lists measured by native numbers, functions changed at a
--                   point, and histories of calls.
--
-- Concurrent code is a state with one program counter per thread and a step relation `Step`, one
-- step per access of shared memory, in any interleaving; `Reach` collects the runs from the
-- constructor on, with the calls that take effect in them. Memory is sequentially consistent: the
-- orderings written in the source (acquire, release, relaxed) and reorderings are outside the model.
-- A compare-exchange that fails for no reason is a step like any other failure. Where a thread alone
-- owns what it reads, a call may be one step (`pop` of the MPSC queue but for its one load).
-- Fields that only the proofs read (indices of exchanges, all entries ever pushed) are called so where
-- they are declared, and no step depends on them. `bottom_` of the deque, which reaches -1 for a
-- moment, is kept one higher. Counters that would wrap after 2^63 pushes are not bounded, and an
-- assertion that a caller breaks (a release too many) is stated as a hypothesis or a result.
--
-- The steps of the pool are calls on its queues, taken as Deque and Mpsc prove them: the owner of a deque
-- finds it empty only if it is, a thief may fail, and a submission queue may look empty while a push is
-- on its way. Tasks are numbered as they are submitted; `finished` and `late` of `ThreadPool.Pool` are
-- read by proofs only.
--
-- Sequential code is functions. The loop of evictions and the ReAct loop run on fuel: the length of
-- the history, and the limit of iterations plus two, which is one round more than the limit lets
-- through; `React.run` gives that fuel. `step_count` wraps at 2^32, and a count of tokens, an `int`, stands
-- as its 32 bits. Exceptions are values: `raise` of `React.Flow`, `threw` of `Tools.Registry.Ended`. What
-- stands outside the repository is a parameter:
-- the hash, the clock, the client that cancels, the LLM, the JSON text of a request, and which tool
-- calls finish in time; the resolver, httplib, the file system, `std::pow` and `std::stod`, and what a
-- started program prints; `std::regex`, `std::stoull`, and of doubles the operations that are used. Of
-- nlohmann::json `dump` is taken to return. Log lines are left out, but for those of spans.
--
-- The texts that the builtin tools and the client walk are lists of character codes. The calculator's
-- parser has 7 units of fuel for each character and 7 more, since at most seven calls stand between two
-- characters that it takes; the reading of lines has the length of the file and one, a unit for each
-- line and for the last `getline`. The sort of a graph has a unit for each node and one more, since every
-- round but the last takes a node.
--
-- `SessionManager` runs one operation at a time, over a heap of the sessions that its map and the
-- workflows share. A creation adds the session's task to those that the pool has (`submitted`), and
-- `dispatch` begins one.
--
-- The provider of the event stream is a function of the sessions that it reads, one for each call by
-- httplib, and `stream` runs it along a list of them. The calls of the throttled client are as many as
-- wanted, each made once, and the inner client may end them in any way.
--
-- Not modelled: what `main` wires together and its signals, and the set-up of src/utils/logging.h (layers
-- over third-party code); sessions created while others are created, cancelled or collected, but for
-- the map's bound.
pub mod Base
pub mod Semaphore
pub mod Deque
pub mod Future
pub mod Mpsc
pub mod ThreadPool
pub mod ConcurrentMap
pub mod RateLimiter
pub mod HttpClient
pub mod Chat
pub mod LlmClient
pub mod ThrottledLlmClient
pub mod Conversation
pub mod Tools
pub mod Session
pub mod WorkflowFactory
pub mod TaskDag
pub mod SessionManager
pub mod HttpServer
pub mod Metrics
pub mod Tracing
pub mod Config
pub mod CommandLine
pub mod CostTracker
pub mod React
pub mod PlanExecute
pub mod MapReduce
