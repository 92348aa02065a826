-- ===== src/Kernels/Blocks/Launches.antt =====
-- The moves of the launches that move blocks: every element of the blocks, and nothing else.
use native.Mathlib.Nat.{mod-lt}
use mathlib.Core.List.{Memᴰ, Permᴰ}
use mathlib.Core.List.Memᴰ
use mathlib.Core.List.Permᴰ
use cache_flow.Base.{
  ℕ, ◌+◌, ◌*◌, ◌/◌, ◌%◌, ◌<◌, ◌≡◌, refl, List, [], ◌∷◌, Bool, false, Bool-cases, inl, inr, ltb,
  lt→ltb, ltb→lt, ◌==◌, arith,
}
use cache_flow.Kernels.Moves.{Move, mem-run}
use cache_flow.Kernels.Grid.{
  for_each, strided, mem-for_each, for_each-mem, mem-strided, strided-mem, mem-threads, threads-mem,
}
use cache_flow.Kernels.Reshape.{Shape}
use cache_flow.Kernels.Blocks.{
  block_move, blocks_y, elems_per_block, num_threads, source_of, target_of, copy_blocks_kernel,
  compact_kv_cache_kernel, launch_copy_blocks, launch_compact_kv_cache,
}
use cache_flow.Kernels.Blocks.Moved.{MovesBlocks}

abbrev pub none_skipped : ℕ → Bool
none_skipped k = false

pub run-MovesBlocks :
    (n elems : ℕ) (src dst : ℕ → ℕ) (skips : ℕ → Bool) (run ms : List Move)
    → Permᴰ run ms
    → MovesBlocks n elems src dst skips ms
    → MovesBlocks n elems src dst skips run
run-MovesBlocks n elems src dst skips run ms order m = record {
  all = λ k i lk li s. mem-run (Permᴰ.symm order) (m.all k i lk li s);
  only = λ mv i. m.only mv (mem-run order i);
}

-- The grid covers every element.
covered : (elems i : ℕ) → i < elems → i / num_threads < blocks_y elems
covered elems i l = omega arith

pub copy_blocks-MovesBlocks :
    (s : Shape) (mapping : ℕ → ℕ) (n : ℕ)
    → MovesBlocks n
        (elems_per_block s)
        (source_of mapping)
        (target_of mapping)
        none_skipped
        (launch_copy_blocks s mapping n)
unfolding launch_copy_blocks copy_blocks_kernel
copy_blocks-MovesBlocks s mapping n =
    let elems = elems_per_block s in
    record {
      all = λ k i lk li sk.
          let mv = block_move elems (source_of mapping k) (target_of mapping k) i in
          let at : i % num_threads + (i / num_threads) * num_threads ≡ i = omega arith in
          mem-for_each n k _ mv lk (
            mem-for_each (blocks_y elems) (i / num_threads) _ mv (covered elems i li) (
              mem-for_each num_threads (i % num_threads) _ mv (omega arith)
                (rw (at, lt→ltb i elems li) (Memᴰ.head refl))));
      only = λ mv m.
          let (k, lk, m1) = for_each-mem n _ mv m in
          let (y, ly, m2) = for_each-mem (blocks_y elems) _ mv m1 in
          let (t, lt, m3) = for_each-mem num_threads _ mv m2 in
          elim (Bool-cases (ltb (t + y * num_threads) elems)) [
            | inl e ↦ (
              k,
              t + y * num_threads,
              lk,
              ltb→lt (t + y * num_threads) elems e,
              refl,
              Memᴰ.eq_of_singleton (rw (e, copy_blocks_kernel) at m3),
            )
            | inr e ↦ absurd (Memᴰ.not-nil (rw (e, copy_blocks_kernel) at m3))
          ];
    }

-- One move for each index that the threads of a block meet.
pub threads-MovesBlocks :
    (elems n : ℕ) (src dst : ℕ → ℕ)
    → MovesBlocks n elems src dst none_skipped (
        for_each n (λ k.
          for_each num_threads (λ t.
            strided elems elems num_threads t (λ i. block_move elems (src k) (dst k) i ∷ []))))
threads-MovesBlocks elems n src dst = record {
  all = λ k i lk li sk.
      let mv = block_move elems (src k) (dst k) i in
      mem-for_each n k _ mv lk (
        mem-threads elems num_threads i (λ i'. block_move elems (src k) (dst k) i' ∷ []) mv li
          (omega arith) (Memᴰ.head refl));
  only = λ mv m.
      let (k, lk, m1) = for_each-mem n _ mv m in
      let (i, li, m2) =
        threads-mem elems num_threads (λ i'. block_move elems (src k) (dst k) i' ∷ []) mv m1 in
      (k, i, lk, li, refl, Memᴰ.eq_of_singleton m2);
}

pub compact_kv_cache-MovesBlocks :
    (s : Shape) (src dst : ℕ → ℕ) (n : ℕ)
    → 0 < elems_per_block s
    → MovesBlocks n
        (elems_per_block s)
        src
        dst
        (λ k. src k == dst k)
        (launch_compact_kv_cache s src dst n)
unfolding launch_compact_kv_cache compact_kv_cache_kernel
compact_kv_cache-MovesBlocks s src dst n z =
    let elems = elems_per_block s in
    let grid_y = blocks_y elems in
    let stride = num_threads * grid_y in
    record {
      all = λ k i lk li made.
          let mv = block_move elems (src k) (dst k) i in
          let z' : 0 < stride = omega (arith, z) in
          let start = i % stride in
          let at : start % num_threads + (start / num_threads) * num_threads ≡ start =
            omega arith in
          let round : start + (i / stride) * stride ≡ i = grind arith in
          let few : i / stride < elems = grind arith in
          mem-for_each n k _ mv lk (
            mem-for_each grid_y (start / num_threads) _ mv (omega (arith, mod-lt i z')) (
              mem-for_each num_threads (start % num_threads) _ mv (omega arith) (
                rw (made, at)
                  (mem-strided elems elems stride start (i / stride)
                    (λ i'. block_move elems (src k) (dst k) i' ∷ []) mv few
                    (omega (arith, round, li)) (rw round (Memᴰ.head refl))))));
      only = λ mv m.
          let (k, lk, m1) = for_each-mem n _ mv m in
          let (y, ly, m2) = for_each-mem grid_y _ mv m1 in
          let (t, lt, m3) = for_each-mem num_threads _ mv m2 in
          elim (Bool-cases (src k == dst k)) [
            | inl e ↦ absurd (Memᴰ.not-nil (rw (e, compact_kv_cache_kernel) at m3))
            | inr e ↦
                let (r, l, m4) =
                  strided-mem elems elems stride (t + y * num_threads)
                    (λ i'. block_move elems (src k) (dst k) i' ∷ []) mv
                    (rw (e, compact_kv_cache_kernel) at m3) in
                (k, (t + y * num_threads) + r * stride, lk, l, e, Memᴰ.eq_of_singleton m4)
          ];
    }
