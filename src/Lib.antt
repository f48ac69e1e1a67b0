-- ===== src/Lib.antt =====
-- Verification of Arthas, above all of its reactor, which brings a persistent memory program back
-- from a bad state: it reads the versions that a checkpoint library logged, files them by sequence
-- number, reverts some of them in the mapped pool, runs the program again, and searches for a small
-- set of reversions that cures the failure.
--
-- The parts, and the code that each of them models:
--   Prelude     shared names, tests into Bool, lists and integers, insertion sort for qsort
--   Memory      the bytes of the process, memcpy and malloc
--   Reactor/Types      the structures of reactor/include/checkpoint.h
--   Reactor/SeqLog     reactor/lib/checkpoint.c: hashCode, insert, rev_lookup, lookup_modify,
--                      lookup_undo_save, lookup, address_lookup, count_higher, find_highest_seq_num
--   Reactor/TxLog      reactor/lib/checkpoint.c: txhashCode, tx_insert, tx_lookup
--   Reactor/Order      reactor/lib/checkpoint.c: order_by_sequence_num, order_by_tx_id
--   Reactor/Rollback   reactor/lib/rollback.c: the reversions and undo_by_sequence_number;
--                      reactor/lib/core.cpp: undo_by_sequence_number_array
--   Reactor/Decision   reactor/lib/rollback.c: reverse_cmpfunc, decision_func_sequence_array
--   Reactor/Platform   the command, the kill script and the pool library, as a parameter; the state
--   Reactor/Reexecute  reactor/lib/rollback.c: redo_pmem_addresses, re_execute
--   Reactor/Binary     reactor/lib/core.cpp: binary_reversion
--   Reactor/Reconstruct  reactor/lib/checkpoint.c: reconstruct_checkpoint
--   Reactor/Addresses  reactor/lib/rollback.c: sort_by_sequence_number; reactor/lib/core.cpp:
--                      offset_seq_creation, sort_creation
--   Reactor/Logs       reactor/lib/core.cpp: seq_log_creation, tx_log_creation
--   Reactor/Collect    reactor/lib/core.cpp: the first loop of address_seq_creation, and the
--                      collection of sequence numbers in react
--   Reactor/Arckpt     reactor/lib/core.cpp: the arckpt loop of react
--   Reactor/React      reactor/lib/core.cpp: findSmallestElement, and the loops of react over the slices
--   Reactor/Options    reactor/lib/reactor-opts.cpp: parse_options, check_options
--   Analyzer/Strings   analyzer/lib/Utils/String.cpp: splitList
--   Analyzer/Paths     analyzer/lib/Utils/Path.cpp: stripname, canonpath, pathendswith, pathneq
--   Analyzer/Numbers   analyzer/include/Utils/String.h: str2fmt
--   Analyzer/Hex       analyzer/include/Utils/String.h: str2fmt with hex;
--                      analyzer/runtime/addr_tracker.c: the pointers it prints
--   Analyzer/AddrTrace analyzer/lib/Instrument/PmemAddrTrace.cpp: parse, deserialize, add,
--                      calculatePoolOffsets, addressesToInstructions;
--                      analyzer/runtime/addr_tracker.c: __arthas_track_addr
--   Analyzer/Slices    analyzer/lib/Slicing/Slice.cpp and analyzer/include/Slicing/Slice.h: fork,
--                      setPersistence, the comparator, Slices
--   Analyzer/SliceGraph  analyzer/lib/Slicing/SliceGraph.cpp: nodes, edges, connect, disconnect;
--                      its child Compute: computeSlices
--   Reactor/Offsets    reactor/lib/core.cpp: the addresses of the last pool in react
--   Analyzer/GuidMap   analyzer/lib/Instrument/PmemVarGuidMap.cpp: serialize, deserialize
--   Examples    small tables, logs and runs, on which the theorems are applied
--
-- The children of a module hold its proofs. Reconstruct gives the checkpoint log; Order fills the
-- tables of SeqLog and TxLog from it, and Logs makes these tables; Analyzer/AddrTrace reads the
-- addresses that a run used, with the variables of Analyzer/GuidMap, Offsets moves those of the
-- last pool to the new mapping, and Collect picks sequence numbers by them; Rollback and Decision
-- read the table; Reexecute moves its versions to each new mapping of the pool, and Addresses puts
-- them there first; Binary and Arckpt call all of them, and React calls Collect and Binary.
--
-- A table is in shape when it has from 1 to 2^31 - 1 buckets and a slot of its array for each of
-- them, and, except by transaction, the slot 92, which `insert` reads whatever the key is.
--
-- The model: a pointer is an address and an array is the list of its slots. A chain of nodes is a
-- list, head first; the nodes themselves are values of the table and not bytes of the memory, while
-- the checkpointed data, the saved buffers and the pool are bytes. Out of range reads and writes,
-- division by zero and missing slots are `none`, or `undefined` in the code that runs commands.
-- `size_t` wraps at 2^64 and `int` at 2^32 where the source computes with them. The structure that
-- `lookup` returns for a missing key is uninitialised but for its key, and an argument of the
-- model. re_execute, binary_reversion, splitList, canonpath, computeSlices and the walk along a
-- chain of Reconstruct recurse on fuel, which is theirs alone: one round is enough for re_execute
-- in the fine-grained mode, three for binary_reversion, one more than the number of components for
-- canonpath, one more than the length of the string for splitList, two more than the number of
-- nodes for computeSlices, and one more than the length of the chain for the walk. In Reconstruct
-- the nodes are records at their addresses. A string is the list of its characters.
--
-- Not modelled: printing, the locks and the threads of the reactor, its network interface, the
-- slicer, the matcher and the instrumenter, which work on LLVM's representation, the test programs,
-- and the vendored libraries (analyzer/third-party, analyzer/future).
pub mod Prelude
pub mod Memory
pub mod Reactor
pub mod Examples
pub mod Analyzer
