-- ===== src/Lib.antt =====
-- A vector database that keeps vectors in pages, each a ball round its first vector, and finds nearest
-- vectors by pruning pages with the triangle inequality. The modelled code is C++ under
-- spheres_with_pruning_count_and_customized_main/modules (named by the last folders below) and the
-- benchmark harness of the repository.
--
-- The parts, and how they work together:
-- - Config.antt: definitions/definitions.cppm, the constants and the configuration record.
-- - Storage.antt: storage/ and the first half of execution/execution.cppm. A Storage is a list of
--   files, a file a list of pages, a page its header words and its arrays of ids and vectors. Children:
--   Layout (the byte addresses in a page), Flat (files as one list of pages), Slots (whether a page has
--   the bytes of its slots), Pages (the invariant and the operations on a page), Files (creating, extending, closing, loading).
-- - Tagged.antt: pairs of a distance and an index or id, and the calls of the standard library on them.
--   A heap is kept in descending order, one of the layouts that the standard allows, and sort is an
--   insertion sort; both stand for std::ranges::push_heap, pop_heap and sort.
-- - Cache.antt: update_anchor_cache_single_threaded, update_cached_max_dist_single_threaded and
--   fill_dist_to_anchor_buffer_single_threaded of execution/execution.cppm.
-- - Distance.antt: distance/distance.cppm and the prune_check_func of database/database.cppm and of
--   spheres/spheres_benchmark.cpp. Children: Unrolled (the loops), Triangle, Prune.
-- - Knn.antt: find_knn_batch_worker, which finds the nearest vectors of whole queries. Children: Nearest
--   (what a heap of a search holds), Scan (one page), Exact (one query), Rows (a batch in morsels),
--   Sound (the tests and distances of the program against what the search asks of them), Legacy (the
--   test of the mode legacy_prune).
-- - Prefill.antt: batch_prefill_single_threaded, which fills an empty database page by page. Children:
--   Choice and Picks (what goes into a page), Fill (appending it), Ball (one round), Complete (all
--   rounds), Whole (with the files that are made for them).
-- - Database.antt: database/database.cppm, and batch_prefill and find_k_nearest_batch of
--   interface/interface.cppm. Children: Search, Build, Answers, Lifecycle (from creation over closing
--   and loading to the answers of a search).
-- - Insert.antt: insert_a_vector of execution/execution.cppm and what it calls. Children: Cases and
--   Empty (which case and which page it takes), Entries, Stored and
--   Displaced (what it stores, without and with a victim), Victim (which one).
-- - Parallel.antt: find_knn_worker and the dispatch of FillDistToAnchor in execution/execution.cppm, and
--   find_k_nearest of interface/interface.cppm. Children: Parts (how the pages are shared out), Pruned (the
--   counter of pruned pages), Defined (where the work of the threads is defined), Filling (batch_prefill_worker and batch_prefill_parallel).
-- - Threads.antt: spheres_worker, submit_and_block and ThreadPool of execution/execution.cppm. Children:
--   Runs (what workers have done where the owner goes on), Weights and Ends (whether it does).
-- - ArrayView.antt: array_view/array_view.cppm, views of memory as matrices.
-- - Harness.antt: include/benchmark_config.h and include/fvecs_stream.h, with bytes for texts and files.
--   Children: Args (parse_argv, and in Accepted what it accepts), Vectors (the readers), Metrics (recall
--   and average distance), Quote (JSON strings and the output file), Main (main.cpp),
--   Decimal (the printing of counts), Machine (what a program meets outside of itself), Batches (the loop
--   of the engines over the base vectors). Metrics/Defined and Vectors/Sizes say where the metrics are
--   defined and how long what is read is, Metrics/Sums what the averages add up.
-- - Baseline.antt: baseline/baseline.cpp. Children: Ranked (its rows), Agrees and Engine (against the
--   search of the database), Run (its function run, and Total).
-- - Spheres.antt: spheres/spheres_benchmark.cpp, with run in the child Run.
-- - Faiss.antt: faiss/faiss_benchmark.cpp, with FAISS as an interface. Children: Added, Run (and in Served
--   a run with a flat index).
-- - Hnswlib.antt: hnswlib/hnswlib_benchmark.cpp, with hnswlib and the settings that the configuration lacks
--   as parameters. Child: Added (what it adds to its index).
-- - Pgvector.antt: copy_vectors of pgvector/pgvector_benchmark.cpp, with the server as a parameter.
--   Children: Copied (the stream as a whole), Decode (a reader of it).
-- - Example.antt: example/main.cpp. Its copies of the functions of the benchmark header have the same text
--   and are named again. Children: Summary (of recall), Run.
-- - Memorymap.antt: memorymap/, with the calls of the operating system as a list. Child: Owners (what the
--   objects of a program own).
-- - Program.antt: main.cpp with these engines in their places.
-- - Tests.antt: the theorems at concrete inputs. Prelude.antt: shared names and lemmas.
--
-- How the model corresponds to the code:
-- - A function that writes through a reference takes the value and returns the new one. The result
--   `none` is an access outside of what is there: a page, slot, row or file index out of range, a file
--   that does not open, or a loop that runs out of fuel.
-- - Sizes are of 64 bits: add_size, sub_size and mul_size wrap.
-- - Distances are numbers where they are only compared, as floats from 0 to infinity compare like their
--   bit patterns. Distance.antt computes in whole numbers of some unit: rounding is not modelled.
-- - The while loop of the prefill runs on fuel, one more than there are vectors, which is enough since
--   each round stores one at least. The other loops of the database are recursions on lists or counters.
-- - The threads of a batch share the counter of morsels and write to rows and buffers of their own, so a
--   run is the order in which they take morsels. The code does not check that k items fit the part of the
--   buffer that a thread has: where a heap comes to be longer than that, or k places are copied of a shorter
--   one, the model faults (batch_query, copy_row, in_buffer). The density of a page is a fraction.
-- - A page is its header and its slots, not its bytes. A write to a slot faults where its bytes are not those
--   of the slot (fits_slot): the vector is of another size than the dimension of the storage, or the page ends
--   before the slot does, as one smaller than its header does. Reads of slots are not tested for that.
-- - Counters of rows that the code keeps as int (the readers of include/fvecs_stream.h), and the size of a
--   batch that copy_batch casts to int, are not wrapped: files of fewer than 2 ^ 31 rows and batches of fewer
--   than 2 ^ 31 bytes are assumed.
-- - The threads of a page-level search and of a parallel prefill act in whole turns: a turn reads the shared
--   bound, works on a morsel and publishes a bound, with no other turn in between. The pages that a turn
--   prunes are counted at its end, where the code counts those of a thread at the end of its last turn.
-- - The pool itself is a relation of steps, in one order for all threads: memory orders are not modelled.
--   Between the wait for the counter, the reading of the task and its end others can act. Its tasks are
--   names there, and submit_and_block is called with the tasks that the interface sets. Whether the part that
--   a thread has in a task comes to its end is a parameter: with a morsel_step of 0 it does not.
-- - insert_a_vector calls itself on fuel. The loop over batches runs on fuel, one more than there are
--   vectors, which is enough for batches of one vector at least.
-- - Arguments are collected in a list, the last one first: the order in which the code walks its map is
--   not specified, and matters only for which of several errors is reported. Averages are fractions.
-- - The engines read floats by their bits. Where they compute with them these are whole numbers in units
--   of 2 ^ -149, so that squared distances are in units of 2 ^ -298. How a fraction is printed, and what
--   the timers measure, are parameters. Where write_json is reached its file is written whole.
-- - What the code asks of FAISS, of hnswlib, of PostgreSQL and of the operating system is a parameter. A file of
--   the system is its bytes, none where it does not open; a descriptor is none where it is negative.
--
-- Not modelled: the built-in embedding, the engine on DuckDB and the
-- statements that the engine on PostgreSQL runs around its copying (they use fields of the configuration
-- that it does not have), and the timers of the harness. Third-party code is not part of the model; the
-- distance functions that a database uses are a parameter of it.
pub mod Prelude
pub mod Config
pub mod Storage
pub mod Tagged
pub mod Cache
pub mod Distance
pub mod Knn
pub mod Prefill
pub mod Database
pub mod Insert
pub mod Parallel
pub mod Threads
pub mod ArrayView
pub mod Harness
pub mod Baseline
pub mod Spheres
pub mod Faiss
pub mod Hnswlib
pub mod Pgvector
pub mod Example
pub mod Memorymap
pub mod Program
pub mod Tests
