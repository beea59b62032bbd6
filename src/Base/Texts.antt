-- ===== src/Base/Texts.antt =====
-- Texts as lists of code points, with the functions of `str` that the program calls.
use Prim.Native.Char.{code}
use Prim.Native.String.{String}
use Prim.Native.Nat.{ℕ, zero, suc, ◌+◌, ◌-◌, ◌*◌, ◌<◌, ◌^◌}
use mathlib.Core.Path.{◌≡◌, refl}
use mathlib.Core.Logic.{◌↔◌, inl, inr}
use mathlib.Core.Bool.{Bool, true, false, ◌&&◌, ◌||◌}
use mathlib.Core.Option.{Option, none, some}
use mathlib.Core.List.{List, [], ◌∷◌}
use native.Mathlib.Omega.{arith}
use addrsyncd.Base.Tests.{ltb, leb, ◌==◌, if◌then◌else◌, Bool-cases}
use addrsyncd.Base.Lists.{length, slice}

abbrev pub Text : Type 0
Text = List ℕ

-- The code points of a constant of the source.
abbrev pub codes : String → Text
codes String.[] = []
codes (String.◌∷◌ c s) = code c ∷ codes s

unfoldable pub text_eq : Text → Text → Bool
text_eq [] [] = true
text_eq [] (y ∷ ys) = false
text_eq (x ∷ xs) [] = false
text_eq (x ∷ xs) (y ∷ ys) = (x == y) && text_eq xs ys

pub text_eq_refl : (s : Text) → text_eq s s ≡ true
unfolding text_eq
text_eq_refl [] = refl
text_eq_refl (x ∷ xs) = ground (arith, text_eq_refl xs)

pub text_eq_sound : (s t : Text) → text_eq s t ≡ true → s ≡ t
unfolding text_eq
text_eq_sound [] [] h = refl
text_eq_sound [] (y ∷ ys) h = absurd (ground arith)
text_eq_sound (x ∷ xs) [] h = absurd (ground arith)
text_eq_sound (x ∷ xs) (y ∷ ys) h = elim (Bool-cases (text_eq xs ys)) [
  | inl e ↦ let tails : xs ≡ ys = text_eq_sound xs ys e in let heads : x ≡ y = ground arith in cc
  | inr e ↦ absurd (ground arith)
]

-- `text_list.contains(s)`
unfoldable pub text_mem : Text → List Text → Bool
unfolding text_eq
text_mem s [] = false
text_mem s (x ∷ xs) = text_eq x s || text_mem s xs

abbrev pub is_empty_text : Text → Bool
is_empty_text [] = true
is_empty_text (c ∷ cs) = false

-- The characters with the property White_Space.
unfoldable pub is_white : ℕ → Bool
is_white c =
    (leb 9 c && leb c 13)
    || (c == 32
        || (c == 133
            || (c == 160
                || (c == 5760
                    || ((leb 8192 c && leb c 8202)
                        || (c == 8232
                            || (c == 8233 || (c == 8239 || (c == 8287 || c == 12288)))))))))

unfoldable pub trim_start : Text → Text
unfolding is_white
trim_start [] = []
trim_start (c ∷ cs) = let rest = trim_start cs in if is_white c then rest else c ∷ cs

unfoldable pub trim_end : Text → Text
unfolding is_white
trim_end [] = []
trim_end (c ∷ cs) =
    let rest = trim_end cs in if is_white c && is_empty_text rest then [] else c ∷ rest

unfoldable pub trim : Text → Text
unfolding trim_start trim_end
trim s = trim_end (trim_start s)

abbrev pub starts_with : ℕ → Text → Bool
starts_with c [] = false
starts_with c (x ∷ xs) = x == c

abbrev pub ends_with : ℕ → Text → Bool
ends_with c [] = false
ends_with c (x ∷ []) = x == c
ends_with c (x ∷ y ∷ rest) = ends_with c (y ∷ rest)

-- `&s[1..s.len() - 1]`, for a text of two ASCII ends at least.
abbrev pub inside : Text → Text
inside s = slice 1 (length s - 1) s

abbrev add_front : ℕ → Option (Text × Text) → Option (Text × Text)
add_front c none = none
add_front c (some (before, after)) = some (c ∷ before, after)

unfoldable pub split_once : ℕ → Text → Option (Text × Text)
split_once sep [] = none
split_once sep (c ∷ cs) =
    let rest = add_front c (split_once sep cs) in if c == sep then some ([], cs) else rest

abbrev add_first : ℕ → List Text → List Text
add_first c [] = (c ∷ []) ∷ []
add_first c (part ∷ parts) = (c ∷ part) ∷ parts

unfoldable pub split : ℕ → Text → List Text
split sep [] = [] ∷ []
split sep (c ∷ cs) = let rest = split sep cs in if c == sep then [] ∷ rest else add_first c rest

unfoldable pub strip_cr : Text → Text
strip_cr [] = []
strip_cr (c ∷ []) = if c == b'\r' then [] else c ∷ []
strip_cr (c ∷ d ∷ rest) = c ∷ strip_cr (d ∷ rest)

unfoldable pub end_lines : List Text → List Text
unfolding strip_cr
end_lines [] = []
end_lines (last ∷ []) = if is_empty_text last then [] else last ∷ []
end_lines (line ∷ next ∷ rest) = strip_cr line ∷ end_lines (next ∷ rest)

-- `str::lines`: a line ends with a newline, after a carriage return or not.
unfoldable pub lines : Text → List Text
unfolding end_lines split
lines s = end_lines (split b'\n' s)

-- The digits of a number in base ten; `none` for another character.
unfoldable pub digits_value : ℕ → Text → Option ℕ
digits_value acc [] = some acc
digits_value acc (c ∷ cs) =
    let rest = digits_value (acc * 10 + (c - b'0')) cs in
    if leb b'0' c && leb c b'9' then rest else none

abbrev below : ℕ → Option ℕ → Option ℕ
below bound none = none
below bound (some n) = if ltb n bound then some n else none

digits_below : ℕ → Text → Option ℕ
unfolding digits_value
digits_below bound s = if is_empty_text s then none else below bound (digits_value 0 s)

-- `str::parse` of an unsigned integer below `bound`.
unfoldable pub parse_unsigned : ℕ → Text → Option ℕ
unfolding digits_below
parse_unsigned bound [] = none
parse_unsigned bound (c ∷ cs) =
    if c == b'+' then digits_below bound cs else digits_below bound (c ∷ cs)

pub data ℤ : Type 0 where
  pos negsuc : ℕ → ℤ

abbrev negated : Option ℕ → Option ℤ
negated none = none
negated (some zero) = some (pos 0)
negated (some (suc n)) = some (negsuc n)

abbrev positive : Option ℕ → Option ℤ
positive none = none
positive (some n) = some (pos n)

-- `str::parse::<i64>`
unfoldable pub parse_i64 : Text → Option ℤ
unfolding digits_below parse_unsigned
parse_i64 [] = none
parse_i64 (c ∷ cs) =
    if c == b'-'
    then negated (digits_below (2 ^ 63 + 1) cs)
    else positive (parse_unsigned (2 ^ 63) (c ∷ cs))

below_lt : (bound n : ℕ) (o : Option ℕ) → below bound o ≡ some n → n < bound
below_lt bound n none e = cc
below_lt bound n (some m) e = ground arith

digits_below_lt : (bound n : ℕ) (s : Text) → digits_below bound s ≡ some n → n < bound
unfolding digits_below
digits_below_lt bound n s e = ground (arith, below_lt bound n (digits_value 0 s))

pub parse_unsigned_lt : (bound n : ℕ) (s : Text) → parse_unsigned bound s ≡ some n → n < bound
unfolding parse_unsigned
parse_unsigned_lt bound n [] e = cc
parse_unsigned_lt bound n (c ∷ cs) e =
    ground (arith, digits_below_lt bound n cs, digits_below_lt bound n (c ∷ cs))

pub text_eq_iff : (s t : Text) → (text_eq s t ≡ true) ↔ (s ≡ t)
text_eq_iff s t = (text_eq_sound s t, λ e. rw e (text_eq_refl t))
