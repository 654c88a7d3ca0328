-- ===== src/Lib.antt =====
-- AimRT: the executors, the channels, the remote calls and the parameters of src/runtime/core, and
-- parts of src/common/util and src/plugins.
--
-- A module registers publish types, subscribers, services and clients with a manager while the
-- runtime is in `Init`; a manager files them in a registry, picks backends by rules of regular
-- expressions, and puts framework filters around every callback and call. In `Start` a publish or
-- an invocation runs through the filters to the backends. Timeouts of calls are tasks of the
-- time-wheel executor.
--
-- Files, the code they model, and how:
--   Prelude             tests on numbers, lists, `std::unordered_map` as association lists
--   Core/Lifecycle      the `State` of every manager and executor; outcomes of methods that throw
--   Core/Filter         src/runtime/core/channel/channel_framework_async_filter.h and the same text
--                       in rpc/rpc_framework_async_filter.h: filters are functions on handles
--   Core/Rules          `GetFilterRules` and `GetBackendsByRules` of both backend managers
--   Core/Backends       the loops over backends of both managers
--   Core/Runtime        src/runtime/core/aimrt_core.{h,cc}: the order of the managers, the hooks, the
--                       start and the shutdown signal; the managers' methods are parameters
--   Core/Modules        src/runtime/core/module/module_manager.{h,cc}: Running has `Start` and
--                       `Shutdown`
--   Executor/TimeWheel  src/runtime/core/executor/time_wheel_executor.{h,cc}: `tick` is `Tick` with
--                       `borrow_func`, `place` the loop of `ExecuteAt`; Machine has the executor,
--                       whose `TimerLoop` is the steps run_immediate, take_due, dispatch, advance
--   Executor/GuardThread  src/runtime/core/executor/guard_thread_executor.{h,cc}
--   Executor/Manager    src/runtime/core/executor/executor_manager.{h,cc}: `generate` is one round of
--                       the loop of `Initialize`
--   Channel/Registry    src/runtime/core/channel/channel_registry.{h,cc}, channel_msg_wrapper.h
--   Channel/Manager     src/runtime/core/channel/channel_backend_manager.{h,cc}: Setup has the
--                       setters, the life cycle and subscriptions, Publishing the rest
--   Channel/Tools       src/runtime/core/channel/channel_backend_tools.h: messages, their serialized
--                       buffers, and `SubscribeTool`
--   Channel/Local       src/runtime/core/channel/local_channel_backend.{h,cc}: Publishing has
--                       `Publish`, and `deliver_pkg` there is one round of its loop; Hearing puts the
--                       registry before it
--   Rpc/Context         src/interface/aimrt_module_cpp_interface/rpc/rpc_context.h
--   Rpc/Registry        src/runtime/core/rpc/rpc_registry.{h,cc}
--   Rpc/Manager         src/runtime/core/rpc/rpc_backend_manager.{h,cc}: Setup has registrations,
--                       Calls has `Invoke`
--   Rpc/ClientTool      src/runtime/core/util/rpc_client_tool.h
--   Rpc/Local           src/runtime/core/rpc/local_rpc_backend.{h,cc}: Calls has `Invoke`, the answer
--                       of a service and the timeout as steps on the calls that are under way
--   Parameter           src/runtime/core/parameter: handles and their manager; Service has the calls
--                       of src/plugins/parameter_plugin/service.cc
--   Record              src/plugins/record_playback_plugin/record_action.{h,cc}: `add_record` is what
--                       `AddRecord` does in its caller's thread, the tasks that it,
--                       `StartSignalRecord` and `StopSignalRecord` post are functions of their own;
--                       Files has `AddRecordImpl` and the opening of folders and files
--   Util/UrlEncode      src/common/util/url_encode.h
--   Util/Strings        src/common/util/string_util.h: `Trim`, `SplitToVec`, `JoinVec`; Replacing has
--                       `ReplaceString`, whose accesses outside the buffer are `none`, Truncation
--                       `SafeUtf8TruncationLength`, Affixes `StartsWith` and `EndsWith`, Versions
--                       `CmpVersion` and `CheckVersionInside`
--   Util/BlockQueue     src/common/util/block_queue.h: the methods, and runs of several threads
--   Util/Buffer         src/common/util/buffer_util.h: both operators as one record
-- A function has the name of the method in snake case. State is passed on explicitly; `W` is
-- whatever backends, filters and callbacks change. The modules whose names end in Examples hold
-- runs on concrete data.
--
-- Bounds: counters wrap as in the source (`% 2 ^ 64`, `% 2 ^ 32`), and every loop is structural
-- recursion on a list, but for the loop of `SplitToVec`, whose fuel is one more than the length of
-- the text: each separator that is found shortens what is left. So it is for the search of
-- `ReplaceString`; the binary search of the record action has as much fuel as records are cached, and
-- each round leaves fewer. Code that runs under a lock is one step; steps of different threads are a
-- sequence of any order where a theorem is about them.
--
-- Parameters: `std::regex_match` (`none` where the expression throws), decimal text of numbers, the
-- backends' methods, filters, tasks, callbacks, executors and what their factories make, type
-- supports (with the documented behaviour that one reads what another of the same message type
-- wrote), the parser of addresses in the local RPC backend, in the channel manager the check of a
-- message before a subscriber, modules and what dynamic libraries hold, `tolower` and `from_chars`,
-- and what the record action asks of the file system and the mcap library, with its counts of bytes
-- and its metadata.
--
-- Not modelled: logging, threads as such, reading of options, the serialization caches of calls,
-- the moment at which shared pointers free something or run a release callback, and changes that
-- filters or backends make to a caller's context after it was handed to them; texts that are views
-- into the text that is changed; the schemas and options of the record action, and the latch on
-- which a caller of `StartSignalRecord` waits. The other parts of the repository (the other
-- plugins, src/runtime/python_runtime, src/tools, src/examples, src/protocols and the remaining
-- managers) are outside of this library.
pub mod Prelude
pub mod Core
pub mod Executor
pub mod Channel
pub mod Rpc
pub mod Parameter
pub mod Record
pub mod Util
