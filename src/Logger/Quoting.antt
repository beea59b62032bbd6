-- ===== src/Logger/Quoting.antt =====
-- Texts in a line of the log, src/logger.rs, read back.
use addrsyncd.Base.{
  ℕ, ◌≡◌, refl, sym, ◌∙◌, ap, Bool, true, false, not, ◌&&◌, [], ◌∷◌, ◌++◌, arith, ◌==◌,
  if◌then◌else◌, Option, none, some, Option-cases, Bool-cases, inl, inr, drop,
}
use mathlib.Core.List.{append_assoc, append-nil}
use addrsyncd.Base.Texts.{Text, starts_with}
use addrsyncd.Logger.{
  is_ascii_whitespace, any_special, needs_quote, escaped, quote_loop, copied, append_quoted_text,
}

abbrev pub escaped_or : ℕ → Option Text → Text → Text
escaped_or b (some text) rest = text ++ rest
escaped_or b none rest = b ∷ rest

-- The text with its escapes, byte by byte.
unfoldable pub escape_text : Text → Text
escape_text [] = []
escape_text (b ∷ bs) = escaped_or b (escaped b) (escape_text bs)

escape_text_plain :
    (b : ℕ) (bs : Text) → escaped b ≡ none → escape_text (b ∷ bs) ≡ b ∷ escape_text bs
unfolding escape_text
escape_text_plain b bs e = ap (λ (o : Option Text). escaped_or b o (escape_text bs)) e

escape_text-escaped :
    (b : ℕ) (bs text : Text) → escaped b ≡ some text → escape_text (b ∷ bs) ≡ text ++ escape_text bs
unfolding escape_text
escape_text-escaped b bs text e = ap (λ (o : Option Text). escaped_or b o (escape_text bs)) e

pub quote_loop-escape_text :
    (out pending value : Text)
    → quote_loop out pending value ≡ (out ++ pending) ++ escape_text value
unfolding quote_loop
quote_loop-escape_text out pending [] = unfold escape_text in sym (append-nil (out ++ pending))
quote_loop-escape_text out pending (b ∷ bs) = elim (Option-cases (escaped b)) [
  | inl e ↦
      ap (λ (o : Option Text). quote_loop (copied out pending b o).0 (copied out pending b o).1 bs)
        e
      ∙ quote_loop-escape_text out (pending ++ (b ∷ [])) bs
      ∙ rw (escape_text_plain b bs e) (simp (append_assoc, append-nil))
  | inr (text, e) ↦
      ap (λ (o : Option Text). quote_loop (copied out pending b o).0 (copied out pending b o).1 bs)
        e
      ∙ quote_loop-escape_text ((out ++ pending) ++ text) [] bs
      ∙ rw (escape_text-escaped b bs text e) (simp (append_assoc, append-nil))
]

unfoldable pub unescaped_byte : ℕ → ℕ
unescaped_byte b = if b == 110 then 10 else if b == 114 then 13 else if b == 116 then 9 else b

abbrev add_front : ℕ → Option (Text × Text) → Option (Text × Text)
add_front c none = none
add_front c (some (text, rest)) = some (c ∷ text, rest)

unfoldable pub is_quote : ℕ → Bool
is_quote b = b == 34

unfoldable pub is_backslash : ℕ → Bool
is_backslash b = b == 92

abbrev quoted_step : Bool → Bool → Bool → ℕ → Text → Option (Text × Text) → Option (Text × Text)
quoted_step true q k c cs rest = add_front (unescaped_byte c) rest
quoted_step false true k c cs rest = some ([], cs)
quoted_step false false true c cs rest = rest
quoted_step false false false c cs rest = add_front c rest

-- A quoted text up to the quote that ends it, and what follows.
unfoldable read_quoted : Bool → Text → Option (Text × Text)
read_quoted escapes [] = none
read_quoted escapes (c ∷ cs) =
    quoted_step escapes (is_quote c) (is_backslash c) c cs
      (read_quoted (not escapes && is_backslash c) cs)

-- A text without quotes up to white space.
unfoldable read_plain : Text → Text × Text
unfolding is_ascii_whitespace
read_plain [] = ([], [])
read_plain (c ∷ cs) =
    let (text, rest) = read_plain cs in
    if is_ascii_whitespace c then ([], c ∷ cs) else (c ∷ text, rest)

unfoldable pub read_text : Text → Option (Text × Text)
unfolding read_quoted read_plain
read_text s = if starts_with 34 s then read_quoted false (drop 1 s) else some (read_plain s)

-- Nothing follows, or white space does.
abbrev pub ends_here : Text → Bool
ends_here [] = true
ends_here (c ∷ cs) = is_ascii_whitespace c

abbrev letter : ℕ → ℕ
letter b = if b == 10 then 110 else if b == 13 then 114 else if b == 9 then 116 else b

escaped-letter :
    (b : ℕ) (text : Text)
    → escaped b ≡ some text
    → (text ≡ 92 ∷ letter b ∷ []) × (unescaped_byte (letter b) ≡ b)
unfolding escaped unescaped_byte
escaped-letter b text e = (ground arith, ground arith)

escaped-none : (b : ℕ) → escaped b ≡ none → (is_quote b ≡ false) × (is_backslash b ≡ false)
unfolding escaped is_quote is_backslash
escaped-none b e = (ground arith, ground arith)

read_quoted_plain :
    (b : ℕ) (rest : Text)
    → is_quote b ≡ false
    → is_backslash b ≡ false
    → read_quoted false (b ∷ rest) ≡ add_front b (read_quoted false rest)
unfolding read_quoted
read_quoted_plain b rest q k = rw (q, k) refl

read_quoted_pair :
    (b : ℕ) (rest : Text)
    → read_quoted false (92 ∷ b ∷ rest) ≡ add_front (unescaped_byte b) (read_quoted false rest)
unfolding read_quoted is_quote is_backslash
read_quoted_pair b rest = refl

read_quoted-escape_text :
    (value rest : Text) → read_quoted false (escape_text value ++ (34 ∷ rest)) ≡ some (value, rest)
read_quoted-escape_text [] rest = unfold read_quoted escape_text is_quote in refl
read_quoted-escape_text (b ∷ bs) rest = elim (Option-cases (escaped b)) [
  | inl e ↦
      let (no_quote, no_backslash) = escaped-none b e in
      let after : Text = escape_text bs ++ (34 ∷ rest) in
      ap (λ (s : Text). read_quoted false (s ++ (34 ∷ rest))) (escape_text_plain b bs e)
      ∙ read_quoted_plain b after no_quote no_backslash
      ∙ ap (add_front b) (read_quoted-escape_text bs rest)
  | inr (text, e) ↦
      let (pair, back) = escaped-letter b text e in
      let after : Text = escape_text bs ++ (34 ∷ rest) in
      ap (λ (s : Text). read_quoted false (s ++ (34 ∷ rest)))
        (escape_text-escaped b bs text e ∙ ap (λ (t : Text). t ++ escape_text bs) pair)
      ∙ read_quoted_pair (letter b) after
      ∙ ap (λ (c : ℕ). add_front c (read_quoted false after)) back
      ∙ ap (add_front b) (read_quoted-escape_text bs rest)
]

read_plain-append :
    (value rest : Text)
    → any_special value ≡ false
    → ends_here rest ≡ true
    → read_plain (value ++ rest) ≡ (value, rest)
unfolding read_plain any_special
read_plain-append [] [] h r = refl
read_plain-append [] (c ∷ cs) h r = ground arith
read_plain-append (b ∷ bs) rest h r = ground (arith, read_plain-append bs rest)

read_text_quoted :
    (value rest : Text)
    → read_text ((34 ∷ (escape_text value ++ (34 ∷ []))) ++ rest) ≡ some (value, rest)
unfolding read_text
read_text_quoted value rest =
    ap (read_quoted false) (append_assoc (escape_text value) (34 ∷ []) rest)
    ∙ read_quoted-escape_text value rest

read_text_plain :
    (b : ℕ) (bs rest : Text)
    → any_special (b ∷ bs) ≡ false
    → ends_here rest ≡ true
    → read_text ((b ∷ bs) ++ rest) ≡ some (b ∷ bs, rest)
unfolding read_text
read_text_plain b bs rest p r =
    let unquoted : (b == 34) ≡ false = unfold any_special in ground arith in
    rw (unquoted, read_plain-append (b ∷ bs) rest p r) refl

plain_read :
    (value rest : Text)
    → needs_quote value ≡ false
    → ends_here rest ≡ true
    → read_text (value ++ rest) ≡ some (value, rest)
unfolding needs_quote
plain_read [] rest p r = absurd (ground arith)
plain_read (b ∷ bs) rest p r = read_text_plain b bs rest p r

pub append_quoted :
    (out value : Text)
    → needs_quote value ≡ true
    → append_quoted_text out value ≡ (out ++ (34 ∷ [])) ++ (escape_text value ++ (34 ∷ []))
unfolding append_quoted_text
append_quoted out value q =
    rw (q, quote_loop-escape_text (out ++ (34 ∷ [])) [] value) (simp (append_assoc, append-nil))

pub append_plain :
    (out value : Text) → needs_quote value ≡ false → append_quoted_text out value ≡ out ++ value
unfolding append_quoted_text
append_plain out value q = rw q refl

-- A text in a line reads back: quoted where it must be and plain where it need not, it is found again
-- with what follows, when the line ends there or white space follows.
pub read_text-append_quoted_text :
    (value rest : Text)
    → ends_here rest ≡ true
    → read_text (append_quoted_text [] value ++ rest) ≡ some (value, rest)
read_text-append_quoted_text value rest r = elim (Bool-cases (needs_quote value)) [
  | inl q ↦
      ap (λ (s : Text). read_text (s ++ rest)) (append_quoted [] value q)
      ∙ read_text_quoted value rest
  | inr p ↦
      ap (λ (s : Text). read_text (s ++ rest)) (append_plain [] value p) ∙ plain_read value rest p r
]
