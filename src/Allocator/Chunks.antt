-- ===== src/Allocator/Chunks.antt =====
-- `_S_chunk_alloc` and `_S_refill`: the blocks that they cut off the pool, with enough fuel.
use native.Mathlib.Nat.{mul-suc, mul-div-le, le-div_iff_mul-le}
use cpp_project.Base.{
  ℕ, zero, suc, ◌+◌, ◌-◌, ◌*◌, ◌/◌, ◌%◌, ◌^◌, ◌≤◌, ◌<◌, ◌≡◌, refl, ap, inl, inr, Bool-cases, true,
  false, List, [], leb, arith, Run, ok,
}
use cpp_project.Allocator.{Ptr, Alloc, nfreelists, alloc_bytes, grow, chunk_alloc}
use cpp_project.Allocator.Layout.{Blocks, size_of}
use cpp_project.Allocator.Chains.{Inv}
use cpp_project.Allocator.Linking.{span}
use cpp_project.Allocator.Growth.{Gives, alloc_bytes_lem, grow_lem}

span_lem : (n k : ℕ) → span n k ≡ n * k
span_lem n zero = omega arith
span_lem n (suc k) = omega (arith, span_lem n k, mul-suc n k)

-- `k` blocks of class `c` can be cut off the pool of `t`.
pub record Chunk (bs : Blocks) (c k : ℕ) (t : Alloc) (bs' : Blocks) : Type 0 where
  pub inv : Inv t bs'
  pub none_there : bs' c ≡ []
  pub used : (j : ℕ) → 16 ≤ j → bs' j ≡ bs j
  pub some_block : 1 ≤ k
  pub fits : span (size_of c) k ≤ t.end_free - t.start_free

abbrev pub cut_off : Alloc → ℕ → ℕ → Alloc
cut_off t c k = record t { start_free = t.start_free + span (size_of c) k }

-- With a block's bytes left, it cuts off as many of the 20 blocks as there is room for.
Chunk-at_once :
    (f : ℕ) (ms : List Ptr) (t : Alloc) (bs : Blocks) (c : ℕ)
    → Inv t bs
    → bs c ≡ []
    → size_of c ≤ t.end_free - t.start_free
    → (k : ℕ) × (chunk_alloc (suc f) ms t (size_of c) 20 ≡ ok (t.start_free, k, ms, cut_off t c k))
      × Chunk bs c k t bs
unfolding chunk_alloc
Chunk-at_once f ms t bs c v none_there h =
    let left_lem : (t.end_free + 2 ^ 64 - t.start_free) % 2 ^ 64 ≡ t.end_free - t.start_free =
      omega (arith, v.bounded, v.layout.ordered) in
    let small : size_of c ≤ 128 = omega arith in
    let n : ℕ = (t.end_free - t.start_free) / size_of c in
    elim (Bool-cases (leb (size_of c * 20 % 2 ^ 64) (t.end_free - t.start_free))) [
      | inl all ↦ (
        20,
        rw (chunk_alloc, left_lem, all)
            (ap (λ x. ok (t.start_free, 20, ms, record t { start_free = t.start_free + x }))
              (omega (arith, small))),
        record {
          inv = v;
          none_there = none_there;
          used = λ j l. refl;
          some_block = omega arith;
          fits = ground (arith, all);
        },
      )
      | inr few ↦
          let some_room : leb (size_of c) (t.end_free - t.start_free) ≡ true = ground (arith, h) in
          let at_least : 1 ≤ n =
            ((le-div_iff_mul-le {k = size_of c} {x = 1} {y = t.end_free - t.start_free}
                (omega arith)).1)
              (omega (arith, h)) in
          let room : size_of c * n ≤ t.end_free - t.start_free =
            mul-div-le (t.end_free - t.start_free) (size_of c) in
          let bytes = span_lem (size_of c) n in
          (
            n,
            rw (chunk_alloc, left_lem, few, some_room)
                (ap (λ x. ok (t.start_free, n, ms, record t { start_free = t.start_free + x }))
                  (omega (arith, room, bytes, v.bounded))),
            record {
              inv = v;
              none_there = none_there;
              used = λ j l. refl;
              some_block = at_least;
              fits = omega (arith, room, bytes);
            },
          )
    ]

-- After the last branch of `_S_chunk_alloc` it calls itself.
pub chunk_alloc_again :
    (f : ℕ) (ms ms' : List Ptr) (s t : Alloc) (size : ℕ) (r : Run (Ptr × ℕ × List Ptr × Alloc))
    → size * 20 < 2 ^ 64
    → 0 < size
    → s.start_free ≤ s.end_free
    → s.end_free < 2 ^ 64
    → s.end_free - s.start_free < size
    → grow ms s size (size * 20) (s.end_free - s.start_free) ≡ ok (ms', t)
    → chunk_alloc f ms' t size 20 ≡ r
    → chunk_alloc (suc f) ms s size 20 ≡ r
unfolding chunk_alloc
chunk_alloc_again f ms ms' s t size r total positive ordered bounded small run run' =
    let left_lem : (s.end_free + 2 ^ 64 - s.start_free) % 2 ^ 64 ≡ s.end_free - s.start_free =
      omega arith in
    let total_lem : size * 20 % 2 ^ 64 ≡ size * 20 = omega arith in
    let not_all : leb (size * 20) (s.end_free - s.start_free) ≡ false = ground arith in
    let not_one : leb size (s.end_free - s.start_free) ≡ false = ground arith in
    rw (chunk_alloc, left_lem, total_lem, not_all, not_one, run) run'

-- `_S_chunk_alloc` for 20 blocks returns, with fuel for one recursive call.
pub chunk_alloc_lem :
    (s : Alloc) (bs : Blocks) (c : ℕ) (ms : List Ptr)
    → Inv s bs
    → c < nfreelists
    → bs c ≡ []
    → Gives s (alloc_bytes s (size_of c * 20)) ms
    → (k : ℕ) × (ms' : List Ptr) × (t : Alloc) × (bs' : Blocks) × (chunk_alloc 3 ms s (size_of c) 20
        ≡ ok (t.start_free, k, ms', cut_off t c k))
      × Chunk bs c k t bs'
chunk_alloc_lem s bs c ms v in_range none_there gives =
    elim (Bool-cases (leb (size_of c) (s.end_free - s.start_free))) [
      | inl room ↦
          let (k, run, chunk) = Chunk-at_once 2 ms s bs c v none_there (ground (arith, room)) in
          (k, ms, s, bs, run, chunk)
      | inr small ↦
          let below : s.end_free - s.start_free < size_of c = ground (arith, small) in
          let (ms', t, bs', run, v', none_there', used, ends, _) =
            grow_lem s bs v c none_there (size_of c * 20) ms below in_range (omega arith)
              (omega arith) gives in
          let enough = (alloc_bytes_lem s (size_of c * 20) v.sized (omega arith) (omega arith)).0 in
          let (k, run', chunk) =
            Chunk-at_once 1 ms' t bs' c v' none_there' (omega (arith, ends, enough)) in
          (
            k,
            ms',
            t,
            bs',
            chunk_alloc_again 2 ms ms' s t (size_of c) (ok (t.start_free, k, ms', cut_off t c k))
                (omega arith) (omega arith) v.layout.ordered v.bounded below run run',
            record {
              inv = chunk.inv;
              none_there = chunk.none_there;
              used = used;
              some_block = chunk.some_block;
              fits = chunk.fits;
            },
          )
    ]
