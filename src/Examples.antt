-- ===== src/Examples.antt =====
-- Small concrete states on which the functions run and the theorems apply.
mod Blocks
mod Pools
mod Scheduling
mod Batches
mod Cached
mod Decoding
mod Swapping
mod Latencies
mod Profiling
mod Sampled
mod Weighing
mod Residues
mod Merging
mod Kernels
mod Attending
