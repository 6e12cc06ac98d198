-- ===== src/Lib.antt =====
-- sLLM is a serving engine for language models. This library models its runtime bookkeeping: who
-- owns which cache block, which request runs, which tokens the engine and speculative decoding emit,
-- and which part of the weights a rank holds and exchanges.
--
-- The parts and how they interact:
-- * runtime/blocks.py. `KVBlockAllocator` (Runtime/Kv.antt), `StateAllocator` (Runtime/Slots.antt)
--   and `HybridKVCoordinator` (Runtime/Coordinator.antt), which pairs the two for each sequence. The
--   min-heaps of `heapq` are ascending lists (Runtime/Heap.antt); Python dicts are association lists
--   in insertion order (Prelude/Dict.antt). `allocate`, `free`, `new_sequence`, `grow` and
--   `free_sequence` keep their names, `free` as `free_blocks` and `free_slot`.
-- * runtime/scheduler.py. `Scheduler` (Runtime/Scheduler.antt) admits waiting requests (`pump`),
--   plans actions (`schedule`), moves requests on (`advance`) and cancels them (`abort`), through
--   the coordinator. Invariant, Admission, Pump, Maximal, Removal, Progress, Abort, Plan, Reach and
--   Termination below it hold the proofs.
-- * runtime/spec.py. `spec_decode_greedy` and `spec_decode_greedy_deepseek` (Runtime/Spec.antt),
--   beside the greedy recompute path of `generate` of serving/executor.py, at temperature 0 and
--   with no repetition penalty.
-- * runtime/memory_planner.py (Runtime/Planner.antt) and runtime/placement.py
--   (Runtime/Placement.antt): the budgets, in double arithmetic (Runtime/Floats.antt), the
--   reservation of blocks and the store in host memory. `HostKVBackend.free` is `free_host`.
--   `DeviceKVBackend` and `build_kv_backend` are in Runtime/Device.antt (`store_device`,
--   `gather_device`, `free_device`), over a dict of the live device buffers, which hold the flat
--   float32 elements; the CUDA calls `sllm_buf_new` and `sllm_buf_h2d` and the conversion to float32
--   are parameters.
-- * tp/collectives.py. `SimCollectives` (Tp/Collectives.antt), over any type of arrays: what numpy
--   does to them is a parameter.
-- * serving/executor.py. `BatchedInferenceEngine` (Serving/Engine.antt, its `step` and `run_all` in
--   Serving/Engine/Step.antt, its `reap` in Serving/Engine/Reap.antt) drives the scheduler: each step
--   carries out the scheduled actions with the model and reports to the sinks. The incremental path of
--   `generate` is in Serving/Generate.antt. The steps that `run_all` is allowed are those of the source,
--   and Runtime/Scheduler/Work.antt counts the rounds that suffice. The model and the sampler are the
--   interfaces of Serving/Model.antt; a sink is the list of the calls on it.
-- * serving/batched_server.py. How `BatchedServingEngine` sizes its engine and checks a request is in
--   Serving/Facade.antt; `_Req` and what the threads share (`_admit`, `_release`, `on_token`,
--   `on_finish`, `fail`, the start and the end of each kind of call) in Serving/Facade/Handshake.antt; the
--   exclusive jobs in Serving/Facade/Jobs.antt; the executor thread (`_drain_aborts`, `_drain_submits`,
--   `_drain_exclusive`, `_fail_all_batched`, the body of `_loop`) in Serving/Facade/Loop.antt, over the
--   batched engine; the streams in Serving/Facade/Stream.antt. A request object is an entry of a dict, and
--   each call of a thread ends before the next one begins.
-- * serving/bpe.py. `BPETokenizer` (Serving/Bpe.antt), over strings as lists of code points and the UTF-8
--   codec of Prelude/Text.antt. The compiled pattern is the function that its `finditer` computes. The
--   loop of `_bpe_symbols` has one unit of fuel for each symbol and one more: each pass that goes on
--   merges two symbols, so that the fuel never runs out.
-- * loaders/safetensors_reader.py (Loaders/Safetensors.antt), over the bytes of a file. The JSON parser,
--   `int` of a string, the numpy decoding of a tensor and the HTTP server, whose answers may fail, are
--   parameters.
-- * loaders/tp_shard.py. `Qwen4ExpSharding` and `DeepseekV4Sharding`: the plans by tensor name
--   (Loaders/Names.antt and Loaders/Plans.antt), the ranges of the ranks and the validation
--   (Loaders/Shard.antt; it reads a shape of any number of axes), slicing and reassembly of weights and scales (Loaders/Slices.antt and
--   Loaders/Slices/Pairs.antt). One record, `Sharding`, stands for both classes, which share these
--   methods. The `numpy.empty` of a reassembly is an argument.
-- * loaders/fp8.py (Loaders/Fp8.antt): what the bytes stand for, exactly, and the dequantization by
--   blocks over a type of floating-point numbers with its product.
-- * tp/rank_table.py. `RankWeightTable` (Tp/RankTable.antt), which reads the slices of one rank
--   through the sharding and a table of weights (the interface of Tp/WeightTable.antt).
--
-- A method that may raise returns an `Outcome`: a value or an error, and the state that is left
-- behind in either case. A pure one returns a `Result`. Ids, counts and lengths are natural
-- numbers, which is what the callers pass; the two capacities and the settings of the facade are
-- integers, since the constructors test their sign. Block sizes handed to the coordinator are at least 1, as the scheduler's
-- constructor checks. Model forward passes are parameters: `next` is the greedy token of the main
-- model after a list of ids, `draft` and `block` are what the draft heads propose. The loops of
-- Runtime/Spec.antt have fuel `max_new + 1`: each pass that goes on emits a token, so that the fuel
-- never runs out, which the theorems about them include.
--
-- Not modelled: the numeric code of ref/ and kernels/, the rounding of float32, the HTTP server and the
-- command line, which are input and output; serving/encoding_dsv4.py, a copy of what DeepSeek publishes;
-- the files behind the table of weights, tp/topology.py, the rest of recipes/ and the special tokens of
-- serving/tokenizer.py are outside this library's present scope. Calls of `generate` with images, what a
-- sink's callbacks may raise, and calls of two threads that overlap are left out.
pub mod Prelude
pub mod Runtime
pub mod Tp
pub mod Loaders
pub mod Serving
pub mod Tests
