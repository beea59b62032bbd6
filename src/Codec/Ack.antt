-- ===== src/Codec/Ack.antt =====
-- The acknowledgements of src/netlink/codec.rs.
use addrsyncd.Base.{
  ℕ, ◌+◌, ◌-◌, ◌%◌, ◌^◌, min, Bool, true, ◌&&◌, ◌||◌, List, [], ◌∷◌, ltb, leb, ◌==◌, if◌then◌else◌,
  Result, ok, err, ◌>>=◌, Option, none, some, length, take, drop, replicate, slice, reverse,
  copy_at,
}
use addrsyncd.Base.Bytes.{le_value}
use addrsyncd.Error.{NetlinkError, short_nlmsg_error}
use addrsyncd.Codec.Nla.{parse_nlas}
use addrsyncd.Codec.Message.{nlmsg_align}

abbrev pub ext_ack_text_max : ℕ
ext_ack_text_max = 96

pub record ExtAckText : Type 0 where
  pub len : ℕ
  pub bytes : List ℕ

-- `char::is_whitespace`, on code points.
is_whitespace : ℕ → Bool
is_whitespace c =
    (leb 9 c && leb c 13)
    || (c == 0x20)
    || (c == 0x85)
    || (c == 0xa0)
    || (c == 0x1680)
    || (leb 0x2000 c && leb c 0x200a)
    || (c == 0x2028)
    || (c == 0x2029)
    || (c == 0x202f)
    || (c == 0x205f)
    || (c == 0x3000)

trim_start : List ℕ → List ℕ
trim_start [] = []
trim_start (c ∷ cs) = if is_whitespace c then trim_start cs else c ∷ cs

-- `str::trim`
trim : List ℕ → List ℕ
unfolding trim_start is_whitespace
trim cs = reverse (trim_start (reverse (trim_start cs)))

is_ascii : List ℕ → Bool
is_ascii [] = true
is_ascii (c ∷ cs) = ltb c 128 && is_ascii cs

-- The text is its code points; those of an ASCII text are its bytes.
unfoldable pub ext_ack_text : List ℕ → Option ExtAckText
unfolding trim is_ascii
ext_ack_text value =
    let trimmed = trim value in
    let count = min (length trimmed) ext_ack_text_max in
    if length trimmed == 0
    then none
    else if is_ascii trimmed
    then some (record {
      len = count;
      bytes = copy_at (replicate ext_ack_text_max 0) 0 (take count trimmed);
    })
    else none

unfoldable pub as_str : ExtAckText → List ℕ
as_str t = take t.len t.bytes

-- An `errno: i32` is its 32 bits, in two's complement: 17 is 17, and -17 is 2^32 - 17.
pub record AckErrorInfo : Type 0 where
  pub errno : ℕ
  pub ext_msg : Option ExtAckText
  pub ext_offset : Option ℕ

-- `-code` wraps at `i32::MIN`, as the release build does.
unfoldable pub parse_ack_errno : List ℕ → Result NetlinkError (Option ℕ)
parse_ack_errno body =
    let code = le_value (slice 0 4 body) in
    if ltb (length body) 4
    then err short_nlmsg_error
    else if code == 0
    then ok none
    else ok (some ((2 ^ 32 - code) % 2 ^ 32))

-- `value[..position of the first 0]`, or all of it.
until_nul : List ℕ → List ℕ
until_nul [] = []
until_nul (b ∷ bs) = if b == 0 then [] else b ∷ until_nul bs

-- `from_utf8` is the standard library's decoder: the code points of valid UTF-8.
module _ (from_utf8 : List ℕ → Option (List ℕ)) where
  text_of : List ℕ → Option ExtAckText
  unfolding until_nul ext_ack_text
  text_of value = elim (from_utf8 (until_nul value)) [ none ↦ none | some text ↦ ext_ack_text text ]

  -- The attributes' callback; its state is `ext_msg` and `ext_offset`.
  note_ext :
      Option ExtAckText × Option ℕ
      → ℕ
      → List ℕ
      → (Option ExtAckText × Option ℕ) × Result NetlinkError (Unit {0})
  unfolding text_of
  note_ext (ext_msg, ext_offset) typ value =
      let read : Option ExtAckText = elim (text_of value) [
        | none ↦ ext_msg
        | some text ↦ some text
      ] in
      let offset = some (le_value (slice 0 4 value)) in
      if typ == 1
      then ((read, ext_offset), ok tt)
      else if (typ == 2) && leb 4 (length value)
      then ((ext_msg, offset), ok tt)
      else ((ext_msg, ext_offset), ok tt)

  -- The walk's own error is dropped, and what it noted before stays.
  unfoldable pub parse_ack_error_info : List ℕ → Result NetlinkError (Option AckErrorInfo)
  unfolding parse_ack_errno note_ext nlmsg_align parse_nlas
  parse_ack_error_info body = do
    errno ← parse_ack_errno body
    elim errno [
      | none ↦ ok none
      | some code ↦
          let attrs = drop (nlmsg_align (4 + 16)) body in
          let noted = (parse_nlas note_ext attrs (none, none)).0 in
          ok (some (record { errno = code; ext_msg = noted.0; ext_offset = noted.1 }))
    ]
