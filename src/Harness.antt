-- ===== src/Harness.antt =====
-- include/benchmark_config.h and include/fvecs_stream.h: the arguments, inputs, metrics and output of
-- the benchmark programs.
pub mod Decimal
pub mod Batches
pub mod Machine
pub mod Main
pub mod Bytes
pub mod Quote
pub mod Vectors
pub mod Metrics
pub mod Args
