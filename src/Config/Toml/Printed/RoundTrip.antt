-- ===== src/Config/Toml/Printed/RoundTrip.antt =====
-- A printed configuration is read back by `parse_toml` of src/config.rs as it was written.
use addrsyncd.Base.{
  ℕ, ◌+◌, ◌≡◌, refl, ap, ◌∙◌, Bool, true, false, ◌&&◌, ◌||◌, List, [], ◌∷◌, ◌++◌, arith, Option,
  some, ok,
}
use mathlib.Core.List.{append_assoc, append-nil}
use addrsyncd.Base.Texts.{Text, text_eq_iff}
use addrsyncd.Config.{Section, TomlTable, str_value, get, contains_key, put}
use addrsyncd.Config.Toml.{Parser, parse_line, parse_lines}
use addrsyncd.Config.Toml.Tables.{distinct_keys}
use addrsyncd.Config.Toml.Errors.{parse_lines_cons}
use addrsyncd.Config.Toml.Printed.{plain_name, print_entry, print_header}
use addrsyncd.Config.Toml.Printed.Lines.{parse_line-print_header, parse_line-print_entry}

-- The entries of a section, and a configuration, as names and strings.
abbrev pub Entries : Type 0
Entries = List (Text × Text)

abbrev pub Document : Type 0
Document = List (Text × Entries)

unfoldable pub print_entries : Entries → List Text
print_entries [] = []
print_entries ((key, s) ∷ entries) = print_entry key s ∷ print_entries entries

unfoldable pub print_document : Document → List Text
unfolding print_entries
print_document [] = []
print_document ((name, entries) ∷ doc) =
    print_header name ∷ print_entries entries ++ print_document doc

unfoldable pub section_of : Entries → Section
section_of [] = []
section_of ((key, s) ∷ entries) = (key, str_value s) ∷ section_of entries

unfoldable pub table_of : Document → TomlTable
unfolding section_of
table_of [] = []
table_of ((name, entries) ∷ doc) = (name, section_of entries) ∷ table_of doc

unfoldable pub plain_keys {ℓ} : {V : Type ℓ} → List (Text × V) → Bool
unfolding plain_name
plain_keys [] = true
plain_keys ((key, v) ∷ entries) = plain_name key && plain_keys entries

-- Whether a document can be written: its names are plain, and none occurs twice.
unfoldable pub sections_writable : Document → Bool
unfolding plain_keys section_of distinct_keys
sections_writable [] = true
sections_writable ((name, entries) ∷ doc) =
    plain_keys entries && (distinct_keys (section_of entries) && sections_writable doc)

module _ {ℓ} {V : Type ℓ} where
  put_last :
      (k : Text) (v w : V) (m : List (Text × V))
      → contains_key k m ≡ false
      → put k v (m ++ ((k, w) ∷ [])) ≡ m ++ ((k, v) ∷ [])
  unfolding put contains_key
  put_last k v w [] h = ground (arith, text_eq_iff k k)
  put_last k v w ((i, u) ∷ m) h = ground (arith, put_last k v w m)

  put_new :
      (k : Text) (v : V) (m : List (Text × V))
      → contains_key k m ≡ false
      → put k v m ≡ m ++ ((k, v) ∷ [])
  unfolding put contains_key
  put_new k v [] h = refl
  put_new k v ((i, u) ∷ m) h = ground (arith, put_new k v m)

  get_last :
      (k : Text) (w : V) (m : List (Text × V))
      → contains_key k m ≡ false
      → get k (m ++ ((k, w) ∷ [])) ≡ some w
  unfolding get contains_key
  get_last k w [] h = ground (arith, text_eq_iff k k)
  get_last k w ((i, u) ∷ m) h = ground (arith, get_last k w m)

  contains_key-append :
      (k : Text) (m n : List (Text × V))
      → contains_key k (m ++ n) ≡ (contains_key k m || contains_key k n)
  unfolding contains_key
  contains_key-append k [] n = refl
  contains_key-append k ((i, u) ∷ m) n = ground (arith, contains_key-append k m n)

  -- A name in the middle of distinct names is not before it.
  distinct_keys_before :
      (k : Text) (v : V) (m n : List (Text × V))
      → distinct_keys (m ++ ((k, v) ∷ n)) ≡ true
      → contains_key k m ≡ false
  unfolding distinct_keys contains_key
  distinct_keys_before k v [] n h = refl
  distinct_keys_before k v ((i, u) ∷ m) n h = ground (
    arith,
    contains_key-append i m ((k, v) ∷ n),
    text_eq_iff i k,
    text_eq_iff k i,
    distinct_keys_before k v m n,
  )

abbrev open_at : TomlTable → Text → Section → Parser
open_at before name section = record {
  table = before ++ ((name, section) ∷ []);
  current_section = some name;
}

-- The lines of entries fill the open section; what follows is read with the section filled.
parse_lines-print_entries :
    (n : ℕ) (entries : Entries) (rest : List Text) (before : TomlTable) (name : Text)
    (section : Section) (q : Parser)
    → plain_keys entries ≡ true
    → plain_name name ≡ true
    → contains_key name before ≡ false
    → distinct_keys (section ++ section_of entries) ≡ true
    → ((m : ℕ) → parse_lines m rest (open_at before name (section ++ section_of entries)) ≡ ok q)
    → parse_lines n (print_entries entries ++ rest) (open_at before name section) ≡ ok q
unfolding print_entries section_of plain_keys
parse_lines-print_entries n [] rest before name section q hp hn hb hd next =
    simp append-nil at (next n)
parse_lines-print_entries n ((key, s) ∷ entries) rest before name section q hp hn hb hd next =
    let entry : Section = (key, str_value s) ∷ [] in
    let fresh = distinct_keys_before key (str_value s) section (section_of entries) hd in
    let whole = append_assoc section entry (section_of entries) in
    let filled : put name (put key (str_value s) section) (before ++ ((name, section) ∷ []))
        ≡ before ++ ((name, section ++ entry) ∷ []) =
      rw (put_new key (str_value s) section fresh)
        (put_last name (section ++ entry) section before hb) in
    let first =
      parse_line-print_entry n key s name section (open_at before name section) (ground arith) hn
        refl (get_last name section before hb) fresh in
    let stored : parse_line n (print_entry key s) (open_at before name section)
        ≡ ok (open_at before name (section ++ entry)) =
      first
      ∙ ap (λ (t : TomlTable). ok (record { table = t; current_section = some name })) filled in
    parse_lines_cons n (print_entry key s) (print_entries entries ++ rest)
      (open_at before name section) (open_at before name (section ++ entry)) q stored
      (parse_lines-print_entries (n + 1) entries rest before name (section ++ entry) q
        (ground arith) hn hb (rw whole hd) (λ m. rw whole (next m)))

unfoldable pub last_section : Option Text → Document → Option Text
last_section current [] = current
last_section current ((name, entries) ∷ doc) = last_section (some name) doc

pub parse_lines-print_document :
    (n : ℕ) (doc : Document) (before : TomlTable) (current : Option Text)
    → plain_keys doc ≡ true
    → sections_writable doc ≡ true
    → distinct_keys (before ++ table_of doc) ≡ true
    → parse_lines n (print_document doc) (record { table = before; current_section = current })
      ≡ ok (record { table = before ++ table_of doc; current_section = last_section current doc })
unfolding print_document table_of plain_keys sections_writable last_section
parse_lines-print_document n [] before current hp hw hd = unfold parse_lines in simp append-nil
parse_lines-print_document n ((name, entries) ∷ doc) before current hp hw hd =
    let section : TomlTable = (name, section_of entries) ∷ [] in
    let final : Parser = record {
      table = before ++ table_of ((name, entries) ∷ doc);
      current_section = last_section (some name) doc;
    } in
    let fresh = distinct_keys_before name (section_of entries) before (table_of doc) hd in
    let header =
      parse_line-print_header n name (record { table = before; current_section = current })
        (ground arith) in
    let opened : parse_line n (print_header name)
          (record { table = before; current_section = current })
        ≡ ok (open_at before name []) =
      rw fresh at header
      ∙ ap (λ (t : TomlTable). ok (record { table = t; current_section = some name }))
          (put_new name [] before fresh) in
    let whole = append_assoc before section (table_of doc) in
    parse_lines_cons n (print_header name) (print_entries entries ++ print_document doc)
      (record { table = before; current_section = current }) (open_at before name []) final opened
      (parse_lines-print_entries (n + 1) entries (print_document doc) before name [] final
        (ground arith) (ground arith) fresh (ground arith)
        (λ m. rw (← whole) (
          parse_lines-print_document m doc (before ++ section) (some name) (ground arith)
            (ground arith) (rw whole hd))))
