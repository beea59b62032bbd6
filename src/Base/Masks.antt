-- ===== src/Base/Masks.antt =====
-- `&` with a mask of high bits, as arithmetic. The native `bit_and` means a recursion on binary digits with
-- fuel; the lemmas go by that recursion, for any fuel that the number does not exceed.
use Prim.Native.Nat.{
  ℕ, zero, suc, ◌+◌, ◌-◌, ◌*◌, ◌/◌, ◌%◌, ◌^◌, ◌≤◌, ◌<◌, min, digits, bit_and, bit_and-bitwise,
}
use mathlib.Core.Path.{◌≡◌, refl, sym, ap, ◌∙◌}
use native.Mathlib.Nat.{pow-suc, one-le-pow, div-lt_iff_lt-mul}
use native.Mathlib.Omega.{arith}

-- The digits common to a number and a mask, with `fuel` rounds.
unfoldable masked : ℕ → ℕ → ℕ → ℕ
masked fuel mask a = digits (λ b. zero) min fuel a mask

masked-zero : (fuel mask : ℕ) → masked fuel mask 0 ≡ 0
unfolding masked
masked-zero zero mask = refl
masked-zero (suc fuel) mask = refl

masked_more :
    (fuel mask half a : ℕ)
    → a ≤ suc fuel
    → mask / 2 ≡ half
    → masked (suc fuel) mask a ≡ masked fuel half (a / 2) * 2 + min (a % 2) (mask % 2)
unfolding masked
masked_more fuel mask half zero h e = omega (arith, masked-zero fuel half)
masked_more fuel mask half (suc a) h e =
    ap (λ (m : ℕ). masked fuel m (suc a / 2) * 2 + min (suc a % 2) (mask % 2)) e

double_half : (k : ℕ) → (2 ^ suc k - 1) / 2 ≡ 2 ^ k - 1
double_half k = omega (arith, pow-suc 2 k, one-le-pow k 2)

masked_full : (k fuel a : ℕ) → a < 2 ^ k → a ≤ fuel → masked fuel (2 ^ k - 1) a ≡ a
masked_full k fuel zero h f = masked-zero fuel (2 ^ k - 1)
masked_full k zero (suc a) h f = absurd (omega arith)
masked_full zero (suc fuel) (suc a) h f = absurd (omega arith)
masked_full (suc k) (suc fuel) (suc a) h f =
    let rest = masked_full k fuel (suc a / 2) (omega (arith, pow-suc 2 k)) (omega arith) in
    let step = masked_more fuel (2 ^ suc k - 1) (2 ^ k - 1) (suc a) f (double_half k) in
    omega (arith, pow-suc 2 k, one-le-pow k 2)

shift_half : (m j : ℕ) → (m * 2 ^ suc j ≡ m * 2 ^ j * 2) × (m * 2 ^ suc j / 2 ≡ m * 2 ^ j)
shift_half m j =
    let twice : m * 2 ^ suc j ≡ m * 2 ^ j * 2 =
      omega (arith, ap (λ (t : ℕ). m * t) (pow-suc 2 j)) in
    (twice, omega arith)

-- Below the mask all is lost, and above it nothing.
masked_high :
    (k j fuel q r : ℕ)
    → q < 2 ^ k
    → r < 2 ^ j
    → q * 2 ^ j + r ≤ fuel
    → masked fuel ((2 ^ k - 1) * 2 ^ j) (q * 2 ^ j + r) ≡ q * 2 ^ j
masked_high k zero fuel q r hq hr f =
    let all = masked_full k fuel q hq (omega arith) in
    let none_below : r ≡ 0 = omega arith in ground (arith, all)
masked_high k (suc j) zero q r hq hr f =
    let mask : ℕ = (2 ^ k - 1) * 2 ^ suc j in
    let nothing : q * 2 ^ suc j + r ≡ 0 = omega arith in
    ap (masked 0 mask) nothing ∙ masked-zero 0 mask ∙ omega arith
masked_high k (suc j) (suc fuel) q r hq hr f =
    let (number, number') = shift_half q j in
    let (mask, mask') = shift_half (2 ^ k - 1) j in
    let half : (q * 2 ^ suc j + r) / 2 ≡ q * 2 ^ j + r / 2 = omega arith in
    let rest = masked_high k j fuel q (r / 2) hq (omega (arith, pow-suc 2 j)) (omega arith) in
    let step =
      masked_more fuel ((2 ^ k - 1) * 2 ^ suc j) ((2 ^ k - 1) * 2 ^ j) (q * 2 ^ suc j + r) f
        mask' in
    omega (arith, ap (masked fuel ((2 ^ k - 1) * 2 ^ j)) half)

pub quotient_lt : (k j a : ℕ) → a < 2 ^ k * 2 ^ j → a / 2 ^ j < 2 ^ k
quotient_lt k j a h = (div-lt_iff_lt-mul (one-le-pow j 2 (omega arith))).1 h

-- `k` ones before `j` zeros keep the digits from the `j`-th on.
pub bit_and_high :
    (k j a : ℕ) → a < 2 ^ k * 2 ^ j → bit_and a ((2 ^ k - 1) * 2 ^ j) ≡ a / 2 ^ j * 2 ^ j
unfolding masked
bit_and_high k j a h =
    let parts : a / 2 ^ j * 2 ^ j + a % 2 ^ j ≡ a = ground (arith, one-le-pow j 2) in
    bit_and-bitwise a ((2 ^ k - 1) * 2 ^ j)
    ∙ ap (λ (x : ℕ). masked a ((2 ^ k - 1) * 2 ^ j) x) (sym parts)
    ∙ masked_high k j a (a / 2 ^ j) (a % 2 ^ j) (quotient_lt k j a h)
        (ground (arith, one-le-pow j 2)) (omega arith)
