-- ===== src/Codec/Seq/Blocks.antt =====
-- Blocks of sequence numbers (src/netlink/codec.rs): a batch index and its number determine each
-- other, and blocks that are reserved one after the other have no number in common.
use addrsyncd.Base.{ℕ, ◌+◌, ◌^◌, ◌≤◌, ◌<◌, ◌≡◌, ◌≢◌, some, arith}
use addrsyncd.Codec.Seq.{span, seq_with_offset, seq_to_batch_index, reserve_seq_block}

-- A number that the daemon sends is a u32 and not 0.
pub seq_with_offset_bounds :
    (first i : ℕ) → (0 < seq_with_offset first i) × (seq_with_offset first i < 2 ^ 32)
unfolding seq_with_offset
seq_with_offset_bounds first i = ground arith

-- For a first number below 2^32 and a block of at most 2^32 - 1 numbers, the index that is found for
-- the `i`-th number of the block is `i`, also where the numbers wrap past 2^32 - 1.
pub seq_to_batch_index-seq_with_offset :
    (first i n : ℕ)
    → first < 2 ^ 32
    → i < n
    → n ≤ span
    → seq_to_batch_index (seq_with_offset first i) first n ≡ some i
unfolding seq_to_batch_index seq_with_offset
seq_to_batch_index-seq_with_offset first i n hf hi hn = ground arith

-- An index is found for no other number: for a number and a first number below 2^32, an index that is
-- found is below the length of the block, and the number at it is the one that was looked up.
pub seq_to_batch_index_sound :
    (seq first n i : ℕ)
    → seq < 2 ^ 32
    → first < 2 ^ 32
    → seq_to_batch_index seq first n ≡ some i
    → (i < n) × (seq_with_offset first i ≡ seq)
unfolding seq_to_batch_index seq_with_offset
seq_to_batch_index_sound seq first n i hs hf e = ground arith

-- Each number of a block differs from each number of the block reserved after it, when the next number
-- is below 2^32 and both blocks together have at most 2^32 - 1 numbers.
pub reserve_seq_block_disjoint :
    (next n m i j : ℕ)
    → next < 2 ^ 32
    → i < n
    → j < m
    → n + m ≤ span
    → let (first, next') = reserve_seq_block n next in
      let (second, next'') = reserve_seq_block m next' in
      seq_with_offset first i ≢ seq_with_offset second j
unfolding reserve_seq_block seq_with_offset
reserve_seq_block_disjoint next n m i j hx hi hj h = ground arith
