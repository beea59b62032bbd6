-- ===== src/Config/Toml/Printed/Lines.antt =====
-- `parse_line` of src/config.rs on the lines that are printed: a section header and a string entry.
use addrsyncd.Base.{ℕ, ◌≡◌, refl, ◌∙◌, true, false, [], ◌∷◌, ◌++◌, arith, if◌then◌else◌, some, ok}
use mathlib.Core.List.{append_assoc, append-nil}
use addrsyncd.Base.Texts.{
  Text, is_empty_text, is_white, trim_start, trim_end, trim, starts_with, split_once,
}
use addrsyncd.Config.{Section, TomlValue, str_value, get, contains_key, put}
use addrsyncd.Config.Comment.{strip_from, strip_comment}
use addrsyncd.Config.Value.{parse_value}
use addrsyncd.Config.Toml.{Parser, parse_section, store, parse_key_value, parse_line}
use addrsyncd.Config.Toml.Printed.{
  is_plain, all_plain, plain_name, escape, print_string, print_entry, print_header,
  strip_from_plain, strip_comment-print_entry, trim_end-append, trim_end_space, trim_start_plain,
  split_once_plain, ends_with-append, inside-append, parse_value-print_string,
}

trim_end_plain : (s : Text) → all_plain s ≡ true → trim_end s ≡ s
unfolding trim_end all_plain
trim_end_plain [] h = refl
trim_end_plain (c ∷ cs) h = ground (arith, trim_end_plain cs)

plain_all : (s : Text) → plain_name s ≡ true → all_plain s ≡ true
unfolding plain_name
plain_all s h = ground arith

trim_plain : (s : Text) → plain_name s ≡ true → trim s ≡ s
unfolding trim
trim_plain s h =
    let start : trim_start s ≡ s = simp append-nil at (trim_start_plain s [] h) in
    rw start (trim_end_plain s (plain_all s h))

section_line :
    (n : ℕ) (raw line : Text) (p : Parser)
    → trim (strip_comment raw) ≡ line
    → is_empty_text line ≡ false
    → starts_with b'[' line ≡ true
    → parse_line n raw p ≡ parse_section n line p
unfolding parse_line
section_line n raw line p e h k = ground arith

entry_line :
    (n : ℕ) (raw line key val_str : Text) (p : Parser)
    → trim (strip_comment raw) ≡ line
    → is_empty_text line ≡ false
    → starts_with b'[' line ≡ false
    → split_once b'=' line ≡ some (key, val_str)
    → parse_line n raw p ≡ parse_key_value n (trim key) (trim val_str) p
unfolding parse_line
entry_line n raw line key val_str p e h k f = ground arith

print_header_kept :
    (name : Text)
    → plain_name name ≡ true
    → trim (strip_comment (print_header name)) ≡ print_header name
unfolding trim strip_comment strip_from print_header trim_start is_white
print_header_kept name h =
    rw (strip_from_plain name (b']' ∷ []) (plain_all name h))
      (trim_end-append (b'[' ∷ name) b']' refl)

pub parse_line-print_header :
    (n : ℕ) (name : Text) (p : Parser)
    → plain_name name ≡ true
    → parse_line n (print_header name) p
      ≡ ok (record p {
        table = if contains_key name p.table then p.table else put name [] p.table;
        current_section = some name;
      })
unfolding print_header
parse_line-print_header n name p h =
    let ends = ends_with-append (b'[' ∷ name) b']' in
    let within = inside-append b'[' b']' name in
    let bare = trim_plain name h in
    let named : is_empty_text name ≡ false = unfold plain_name in ground arith in
    section_line n (print_header name) (print_header name) p (print_header_kept name h) refl refl
    ∙ (unfold parse_section in rw (within, bare, ends, named) refl)

trim_end_entry :
    (key s : Text)
    → trim_end (key ++ (b' ' ∷ b'=' ∷ b' ' ∷ print_string s))
      ≡ key ++ (b' ' ∷ b'=' ∷ b' ' ∷ print_string s)
unfolding print_string is_white
trim_end_entry key s =
    let whole = append_assoc key (b' ' ∷ b'=' ∷ b' ' ∷ b'"' ∷ escape s) (b'"' ∷ []) in
    rw (← whole) (trim_end-append (key ++ (b' ' ∷ b'=' ∷ b' ' ∷ b'"' ∷ escape s)) b'"' refl)

print_entry_kept :
    (key s : Text)
    → plain_name key ≡ true
    → trim (strip_comment (print_entry key s)) ≡ print_entry key s
unfolding trim print_entry print_string
print_entry_kept key s h =
    rw
      (
        strip_comment-print_entry key s (plain_all key h),
        trim_start_plain key (b' ' ∷ b'=' ∷ b' ' ∷ print_string s) h,
      )
      (trim_end_entry key s)

print_entry_parts :
    (key s : Text)
    → plain_name key ≡ true
    → split_once b'=' (print_entry key s) ≡ some (key ++ (b' ' ∷ []), b' ' ∷ print_string s)
unfolding print_entry
print_entry_parts key s h = split_once_plain key (b' ' ∷ print_string s) (plain_all key h)

trim-print_string : (s : Text) → trim (b' ' ∷ print_string s) ≡ print_string s
unfolding trim print_string trim_start is_white
trim-print_string s = trim_end-append (b'"' ∷ escape s) b'"' refl

trim_key : (key : Text) → plain_name key ≡ true → trim (key ++ (b' ' ∷ [])) ≡ key
unfolding trim
trim_key key h = rw (trim_start_plain key (b' ' ∷ []) h) (trim_end_space key (plain_all key h))

print_entry_not_empty : (key s : Text) → is_empty_text (print_entry key s) ≡ false
unfolding print_entry
print_entry_not_empty [] s = refl
print_entry_not_empty (c ∷ cs) s = refl

print_entry_no_section :
    (key s : Text) → plain_name key ≡ true → starts_with b'[' (print_entry key s) ≡ false
unfolding print_entry plain_name all_plain is_plain
print_entry_no_section [] s h = refl
print_entry_no_section (c ∷ cs) s h = ground arith

parse_key_value_stores :
    (n : ℕ) (key val_str name : Text) (value : TomlValue) (section : Section) (p : Parser)
    → is_empty_text key ≡ false
    → is_empty_text name ≡ false
    → p.current_section ≡ some name
    → get name p.table ≡ some section
    → contains_key key section ≡ false
    → parse_value val_str n ≡ ok value
    → parse_key_value n key val_str p
      ≡ ok (record p { table = put name (put key value section) p.table })
unfolding parse_key_value store
parse_key_value_stores n key val_str name value section p hk hn c g f v = ground arith

pub parse_line-print_entry :
    (n : ℕ) (key s name : Text) (section : Section) (p : Parser)
    → plain_name key ≡ true
    → plain_name name ≡ true
    → p.current_section ≡ some name
    → get name p.table ≡ some section
    → contains_key key section ≡ false
    → parse_line n (print_entry key s) p
      ≡ ok (record p { table = put name (put key (str_value s) section) p.table })
parse_line-print_entry n key s name section p hk hn c g f =
    let bare = trim_key key hk in
    let named : is_empty_text name ≡ false = unfold plain_name in ground arith in
    let keyed : is_empty_text key ≡ false = unfold plain_name in ground arith in
    entry_line n (print_entry key s) (print_entry key s) (key ++ (b' ' ∷ []))
      (b' ' ∷ print_string s) p (print_entry_kept key s hk) (print_entry_not_empty key s)
      (print_entry_no_section key s hk) (print_entry_parts key s hk)
    ∙ rw (bare, trim-print_string s)
        (parse_key_value_stores n key (print_string s) name (str_value s) section p keyed named c g
          f (parse_value-print_string s n))
