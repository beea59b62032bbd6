-- ===== src/Codec/Nla.antt =====
-- The attributes of src/netlink/codec.rs: writing them behind a message and walking over them.
pub mod RoundTrip
pub mod Ends
use addrsyncd.Base.{
  ℕ, zero, suc, ◌+◌, ◌-◌, ◌*◌, ◌/◌, ◌%◌, ◌^◌, ◌||◌, List, [], ◌∷◌, ◌++◌, ltb, ◌==◌, if◌then◌else◌,
  Option, none, some, Result, ok, err, length, take, drop, replicate, slice, copy_at,
}
use addrsyncd.Base.Bytes.{le_bytes, le_value}
use addrsyncd.Error.{
  NetlinkError, invalid_nla_len, invalid_nla_step, trailing_nla_bytes, out_of_fuel,
}

abbrev pub nla_header_len : ℕ
nla_header_len = 4

-- `(n + 4 - 1) & !(4 - 1)`: the mask clears the two lowest bits.
unfoldable pub nla_align : ℕ → ℕ
nla_align n = (n + 4 - 1) / 4 * 4

unfoldable pub append_zeros : List ℕ → ℕ → List ℕ
append_zeros dst n = dst ++ replicate n 0

unfoldable pub append_nla : List ℕ → ℕ → List ℕ → List ℕ
unfolding nla_align append_zeros
append_nla dst typ payload =
    let nla_len = nla_header_len + length payload in
    let aligned = nla_align nla_len in
    let start = length dst in
    let zeroed = append_zeros dst aligned in
    let with_len = copy_at zeroed start (le_bytes 2 (nla_len % 2 ^ 16)) in
    let with_type = copy_at with_len (start + 2) (le_bytes 2 typ) in
    copy_at with_type (start + nla_header_len) payload

unfoldable pub append_nla_u32 : List ℕ → ℕ → ℕ → List ℕ
unfolding append_nla
append_nla_u32 dst typ value = append_nla dst typ (le_bytes 4 value)

-- The attribute at the front of `raw`, as its length, its type and its value; `none` at the end.
unfoldable pub read_nla : List ℕ → Result NetlinkError (Option (ℕ × ℕ × List ℕ))
read_nla raw =
    let nla_len = le_value (slice 0 2 raw) in
    let nla_type = le_value (slice 2 4 raw) in
    if ltb (length raw) nla_header_len
    then if length raw == 0 then ok none else err trailing_nla_bytes
    else if ltb nla_len nla_header_len || ltb (length raw) nla_len
    then err invalid_nla_len
    else ok (some (nla_len, nla_type, slice nla_header_len nla_len raw))

module _ {ℓ} {S : Type ℓ} where
  -- What follows the callback: an error of it ends the walk, else the walk steps on.
  unfoldable pub after_cb :
      (List ℕ → S → S × Result NetlinkError (Unit {0}))
      → ℕ
      → List ℕ
      → S × Result NetlinkError (Unit {0})
      → S × Result NetlinkError (Unit {0})
  after_cb walk nla_len raw (s, err e) = (s, err e)
  after_cb walk nla_len raw (s, ok _) =
      let step = nla_align nla_len in
      let rest = walk (drop step raw) s in
      if ltb (length raw) step then (s, err invalid_nla_step) else rest

  -- The callback changes the variables that it captures, here its state, and may fail. One round
  -- takes four bytes at least, so as many rounds as there are bytes, and one, are enough.
  unfoldable pub parse_nlas_loop :
      (S → ℕ → List ℕ → S × Result NetlinkError (Unit {0}))
      → ℕ
      → List ℕ
      → S
      → S × Result NetlinkError (Unit {0})
  unfolding after_cb
  parse_nlas_loop cb zero raw s = (s, err out_of_fuel)
  parse_nlas_loop cb (suc fuel) raw s = elim (read_nla raw) [
    | err e ↦ (s, err e)
    | ok none ↦ (s, ok tt)
    | ok (some (nla_len, nla_type, value)) ↦
        after_cb (parse_nlas_loop cb fuel) nla_len raw (cb s nla_type value)
  ]

  unfoldable pub parse_nlas :
      (S → ℕ → List ℕ → S × Result NetlinkError (Unit {0}))
      → List ℕ
      → S
      → S × Result NetlinkError (Unit {0})
  unfolding parse_nlas_loop
  parse_nlas cb raw s = parse_nlas_loop cb (suc (length raw)) raw s
