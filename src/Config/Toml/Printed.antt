-- ===== src/Config/Toml/Printed.antt =====
-- Printing string entries as src/config.rs reads them, and what its line functions make of the print.
pub mod Lines
pub mod RoundTrip
pub mod Whole
use addrsyncd.Base.{
  ℕ, zero, suc, ◌+◌, ◌-◌, ◌≡◌, refl, ap, ◌∙◌, Bool, true, false, not, ◌&&◌, ◌||◌, List, [], ◌∷◌,
  ◌++◌, arith, ltb, ◌==◌, if◌then◌else◌, none, some, Option, Bool-cases, inl, inr, ok, length,
  length-append, take-append_of_length, slice, take, drop,
}
use mathlib.Core.List.{append_assoc}
use addrsyncd.Base.Texts.{
  Text, codes, text_eq, is_empty_text, is_white, trim_start, trim_end, trim, starts_with, ends_with,
  inside, split_once,
}
use addrsyncd.Config.{str_value}
use addrsyncd.Config.Comment.{next_quote, strip_from, strip_comment}
use addrsyncd.Config.Value.{unescaped, unescape_string, is_quoted, parse_value}

-- A character that a printed name may have.
unfoldable pub is_plain : ℕ → Bool
is_plain c =
    not (is_white c)
    && not (c == b'"' || (c == b'\'' || (c == b'#' || (c == b'=' || (c == b'[' || c == b']')))))

unfoldable pub all_plain : Text → Bool
unfolding is_plain
all_plain [] = true
all_plain (c ∷ cs) = is_plain c && all_plain cs

unfoldable pub plain_name : Text → Bool
unfolding all_plain
plain_name s = not (is_empty_text s) && all_plain s

unfoldable pub escape : Text → Text
escape [] = []
escape (c ∷ cs) =
    let rest = escape cs in
    if c == b'\\' || c == b'"'
    then b'\\' ∷ c ∷ rest
    else if c == b'\n'
    then b'\\' ∷ b'n' ∷ rest
    else c ∷ rest

unfoldable pub print_string : Text → Text
unfolding escape
print_string s = b'"' ∷ escape s ++ (b'"' ∷ [])

unfoldable pub print_entry : Text → Text → Text
unfolding print_string
print_entry key s = key ++ (b' ' ∷ b'=' ∷ b' ' ∷ print_string s)

unfoldable pub print_header : Text → Text
print_header name = b'[' ∷ name ++ (b']' ∷ [])

unescape_string_plain :
    (c : ℕ) (rest : Text)
    → (c == b'\\') ≡ false
    → unescape_string (c ∷ rest) ≡ c ∷ unescape_string rest
unfolding unescape_string
unescape_string_plain c [] h = refl
unescape_string_plain c (d ∷ rest) h = ground arith

unescape_string_pair :
    (c : ℕ) (rest : Text) → unescape_string (b'\\' ∷ c ∷ rest) ≡ unescaped c ++ unescape_string rest
unfolding unescape_string
unescape_string_pair c rest = refl

unescaped_self : (c : ℕ) → (c == b'\\' || c == b'"') ≡ true → unescaped c ≡ c ∷ []
unfolding unescaped
unescaped_self c h = ground arith

unescaped_newline : (c : ℕ) → (c == b'\n') ≡ true → unescaped b'n' ≡ c ∷ []
unfolding unescaped
unescaped_newline c h = ground arith

-- What is escaped for a quoted string, the parser takes back.
pub unescape_string-escape : (s : Text) → unescape_string (escape s) ≡ s
unfolding escape
unescape_string-escape [] = unfold unescape_string in refl
unescape_string-escape (c ∷ cs) =
    let tail = unescape_string-escape cs in
    elim (Bool-cases (c == b'\\' || c == b'"')) [
      | inl special ↦
          rw (special, unescape_string_pair c (escape cs), unescaped_self c special, tail) refl
      | inr common ↦ elim (Bool-cases (c == b'\n')) [
        | inl newline ↦
            rw
              (
                common,
                newline,
                unescape_string_pair b'n' (escape cs),
                unescaped_newline c newline,
                tail,
              )
              refl
        | inr other ↦
            rw (common, other, unescape_string_plain c (escape cs) (ground arith), tail) refl
      ]
    ]

strip_from-escape :
    (s rest : Text)
    → strip_from (some b'"') false (escape s ++ (b'"' ∷ rest))
      ≡ escape s ++ (b'"' ∷ strip_from none false rest)
unfolding strip_from escape
strip_from-escape [] rest = refl
strip_from-escape (c ∷ cs) rest = ground (arith, strip_from-escape cs rest)

pub strip_from_plain :
    (key rest : Text)
    → all_plain key ≡ true
    → strip_from none false (key ++ rest) ≡ key ++ strip_from none false rest
unfolding strip_from all_plain
strip_from_plain [] rest h = refl
strip_from_plain (c ∷ cs) rest h = ground (arith, strip_from_plain cs rest)

pub strip_comment-print_entry :
    (key s : Text) → all_plain key ≡ true → strip_comment (print_entry key s) ≡ print_entry key s
unfolding strip_comment print_entry print_string strip_from
strip_comment-print_entry key s h =
    rw (strip_from_plain key (b' ' ∷ b'=' ∷ b' ' ∷ print_string s) h, strip_from-escape s []) refl

pub append_not_empty : (s : Text) (c : ℕ) → is_empty_text (s ++ (c ∷ [])) ≡ false
append_not_empty [] c = refl
append_not_empty (x ∷ xs) c = refl

pub trim_end-append :
    (s : Text) (c : ℕ) → is_white c ≡ false → trim_end (s ++ (c ∷ [])) ≡ s ++ (c ∷ [])
unfolding trim_end
trim_end-append [] c h = ground arith
trim_end-append (x ∷ xs) c h = ground (arith, trim_end-append xs c h, append_not_empty xs c)

pub trim_end_space : (s : Text) → all_plain s ≡ true → trim_end (s ++ (b' ' ∷ [])) ≡ s
unfolding trim_end all_plain
trim_end_space [] h = refl
trim_end_space (c ∷ cs) h = ground (arith, trim_end_space cs)

pub trim_start_plain : (s rest : Text) → plain_name s ≡ true → trim_start (s ++ rest) ≡ s ++ rest
unfolding plain_name trim_start
trim_start_plain [] rest h = cc
trim_start_plain (c ∷ cs) rest h = ground arith

pub split_once_plain :
    (key rest : Text)
    → all_plain key ≡ true
    → split_once b'=' (key ++ (b' ' ∷ b'=' ∷ rest)) ≡ some (key ++ (b' ' ∷ []), rest)
unfolding split_once all_plain
split_once_plain [] rest h = refl
split_once_plain (c ∷ cs) rest h = ground (arith, split_once_plain cs rest)

pub ends_with-append : (s : Text) (c : ℕ) → ends_with c (s ++ (c ∷ [])) ≡ true
ends_with-append [] c = ground arith
ends_with-append (x ∷ []) c = ground arith
ends_with-append (x ∷ y ∷ s) c = ends_with-append (y ∷ s) c

pub inside-append : (a b : ℕ) (s : Text) → inside (a ∷ s ++ (b ∷ [])) ≡ s
inside-append a b s = take-append_of_length _ s (b ∷ []) (omega (arith, length-append s (b ∷ [])))

pub parse_value-print_string :
    (s : Text) (n : ℕ) → parse_value (print_string s) n ≡ ok (str_value s)
unfolding parse_value print_string is_quoted text_eq
parse_value-print_string s n =
    let last = ends_with-append (b'"' ∷ escape s) b'"' in
    let long = length-append (escape s) (b'"' ∷ []) in
    ground (arith, inside-append b'"' b'"' (escape s), unescape_string-escape s)
