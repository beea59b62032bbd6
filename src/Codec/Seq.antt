-- ===== src/Codec/Seq.antt =====
-- The sequence numbers of src/netlink/codec.rs: 1 to 2^32 - 1, and 0 is never used.
pub mod Blocks
use addrsyncd.Base.{ℕ, ◌+◌, ◌-◌, ◌%◌, ◌^◌, max, Option, none, some, ltb, leb, ◌==◌, if◌then◌else◌}

-- `u32::MAX as u64`, the number of sequence numbers in use.
abbrev pub span : ℕ
span = 2 ^ 32 - 1

unfoldable pub normalize_seq : ℕ → ℕ
normalize_seq value = if value == 0 then 1 else value

unfoldable pub seq_advance : ℕ → ℕ → ℕ
unfolding normalize_seq
seq_advance start steps =
    let start' = normalize_seq start in
    let offset = steps % span in ((start' - 1 + offset) % span + 1) % 2 ^ 32

unfoldable pub seq_with_offset : ℕ → ℕ → ℕ
unfolding seq_advance
seq_with_offset first_seq offset = seq_advance (normalize_seq first_seq) offset

unfoldable pub seq_to_batch_index : ℕ → ℕ → ℕ → Option ℕ
unfolding normalize_seq
seq_to_batch_index seq first_seq batch_len =
    let start = normalize_seq first_seq in
    let current = normalize_seq seq in
    let delta = if leb start current then current - start else span - (start - current) in
    if batch_len == 0
    then none
    else if seq == 0
    then none
    else if ltb delta batch_len
    then some delta
    else none

-- The thread's `NEXT_SEQ` cell is the argument; the result is the first number of the block and the
-- new cell.
unfoldable pub reserve_seq_block : ℕ → ℕ → ℕ × ℕ
unfolding seq_advance
reserve_seq_block count next =
    let steps = max count 1 in
    let current = normalize_seq next in (current, seq_advance current steps)

unfoldable pub next_seq : ℕ → ℕ × ℕ
unfolding reserve_seq_block
next_seq = reserve_seq_block 1
