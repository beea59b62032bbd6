-- ===== src/Addr/Filters/Prefix.antt =====
-- `mask_v4` and `mask_v6` of src/netlink/addr.rs, and the first bits of an address.
use native.Mathlib.Nat.{one-le-pow, eq_of_mul-eq-mul_right}
use addrsyncd.Base.{
  ℕ, zero, suc, ◌-◌, ◌*◌, ◌/◌, ◌%◌, ◌^◌, ◌≤◌, ◌<◌, ◌≡◌, refl, ap, Bool, true, ◌&&◌, ◌==◌, ==_iff,
  Bool-cases, inl, inr, arith,
}
use addrsyncd.Base.Masks.{bit_and_high, quotient_lt}
use addrsyncd.Addr.Filters.{mask}

-- The shifted ones of a width: as many as the prefix says, before the other bits.
unfoldable pub ones_first : ℕ → ℕ → Bool
ones_first width prefix =
    ((((2 ^ width - 1) * 2 ^ (width - prefix)) % 2 ^ width)
      == (2 ^ prefix - 1) * 2 ^ (width - prefix))
    && (2 ^ width == 2 ^ prefix * 2 ^ (width - prefix))

unfoldable pub all_ones_first : ℕ → ℕ → Bool
all_ones_first width zero = true
all_ones_first width (suc n) = ones_first width n && all_ones_first width n

ones_first_below :
    (width n prefix : ℕ)
    → all_ones_first width n ≡ true
    → prefix < n
    → ones_first width prefix ≡ true
unfolding all_ones_first
ones_first_below width zero prefix h lt = absurd (omega arith)
ones_first_below width (suc n) prefix h lt = elim (Bool-cases (prefix == n)) [
  | inl last ↦ let same : prefix ≡ n = (==_iff prefix n).0 last in rw same (ground arith)
  | inr before ↦ ones_first_below width n prefix (ground arith) (ground arith)
]

abbrev pub IsWidth : ℕ → Type 0
IsWidth width = all_ones_first width (suc width) ≡ true

pub IsWidth-32 : IsWidth 32
unfolding all_ones_first ones_first
IsWidth-32 = refl

pub IsWidth-128 : IsWidth 128
unfolding all_ones_first ones_first
IsWidth-128 = refl

shifted_ones :
    (width prefix : ℕ)
    → IsWidth width
    → prefix ≤ width
    → (((2 ^ width - 1) * 2 ^ (width - prefix)) % 2 ^ width
        ≡ (2 ^ prefix - 1) * 2 ^ (width - prefix))
      × (2 ^ width ≡ 2 ^ prefix * 2 ^ (width - prefix))
unfolding ones_first
shifted_ones width prefix w p =
    let all = ones_first_below width (suc width) prefix w (omega arith) in
    (
      (==_iff (((2 ^ width - 1) * 2 ^ (width - prefix)) % 2 ^ width)
            ((2 ^ prefix - 1) * 2 ^ (width - prefix))).0
          (ground arith),
      (==_iff (2 ^ width) (2 ^ prefix * 2 ^ (width - prefix))).0 (ground arith),
    )

mask_prefix :
    (width value prefix : ℕ)
    → IsWidth width
    → prefix ≤ width
    → value < 2 ^ width
    → mask width value prefix ≡ value / 2 ^ (width - prefix) * 2 ^ (width - prefix)
unfolding mask
mask_prefix width value prefix w p v =
    let (ones, whole) = shifted_ones width prefix w p in
    elim (Bool-cases (prefix == 0)) [
      | inl none_kept ↦
          let zero_prefix : prefix ≡ 0 = (==_iff prefix 0).0 none_kept in
          let small = quotient_lt 0 width value (omega arith) in
          rw (none_kept, zero_prefix) (ground (arith, small))
      | inr some_kept ↦
          rw (some_kept, ones) (bit_and_high prefix (width - prefix) value (rw (← whole) v))
    ]

times_agree : (x y n : ℕ) → 0 < n → (x * n == y * n) ≡ (x == y)
times_agree x y n h = elim (Bool-cases (x * n == y * n)) [
  | inl same ↦
      let equal : x ≡ y = eq_of_mul-eq-mul_right n h x y ((==_iff (x * n) (y * n)).0 same) in
      rw equal (ground arith)
  | inr other ↦ elim (Bool-cases (x == y)) [
    | inl same ↦
        let equal : x ≡ y = (==_iff x y).0 same in
        absurd (ground (arith, ap (λ (t : ℕ). t * n) equal))
    | inr apart ↦ ground arith
  ]
]

-- Two values agree under the mask exactly when their first `prefix` bits agree.
pub mask_agree :
    (width a b prefix : ℕ)
    → IsWidth width
    → prefix ≤ width
    → a < 2 ^ width
    → b < 2 ^ width
    → (mask width a prefix == mask width b prefix)
      ≡ (a / 2 ^ (width - prefix) == b / 2 ^ (width - prefix))
mask_agree width a b prefix w p ha hb =
    rw (mask_prefix width a prefix w p ha, mask_prefix width b prefix w p hb)
      (times_agree (a / 2 ^ (width - prefix)) (b / 2 ^ (width - prefix)) (2 ^ (width - prefix))
        (one-le-pow (width - prefix) 2 (omega arith)))
