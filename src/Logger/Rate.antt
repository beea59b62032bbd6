-- ===== src/Logger/Rate.antt =====
-- How often a line with the same key is written, `RateLimiter` of src/logger.rs. The slots in use are a
-- list, `entries[..len]`; the slots behind are empty. A time is a number of nanoseconds.
pub mod Slots
pub mod Ideal
use addrsyncd.Base.{
  ℕ, zero, suc, ◌+◌, ◌-◌, ◌≤◌, ◌<◌, ◌≡◌, refl, ◌∙◌, ap, Bool, true, false, not, ◌&&◌, ◌||◌, List,
  [], ◌∷◌, ◌++◌, arith, ltb, ◌==◌, if◌then◌else◌, Option, none, some, Option-cases, Bool-cases, inl,
  inr, length, set, All,
}
use addrsyncd.Base.Texts.{Text, text_eq, text_mem, is_empty_text}

pub record RateEntry : Type 0 where
  pub key : Text
  pub at : ℕ

abbrev pub behind : RateEntry → Option (Bool × List RateEntry) → Option (Bool × List RateEntry)
behind entry none = none
behind entry (some (allowed, entries)) = some (allowed, entry ∷ entries)

-- The loop over the slots in use: the answer and the slots if one of them has the key.
unfoldable pub known_slot : List RateEntry → Text → ℕ → ℕ → Option (Bool × List RateEntry)
known_slot [] key interval now = none
known_slot (entry ∷ entries) key interval now =
    let rest = known_slot entries key interval now in
    if not (text_eq entry.key key)
    then behind entry rest
    else if ltb (now - entry.at) interval
    then some (false, entry ∷ entries)
    else some (true, record { key = key; at = now } ∷ entries)

-- The loop for the oldest slot, from slot `idx` on.
unfoldable pub oldest_from : ℕ → ℕ → ℕ → List RateEntry → ℕ
oldest_from idx oldest_idx oldest_at [] = oldest_idx
oldest_from idx oldest_idx oldest_at (entry ∷ entries) =
    if ltb entry.at oldest_at
    then oldest_from (suc idx) idx entry.at entries
    else oldest_from (suc idx) oldest_idx oldest_at entries

unfoldable pub oldest_slot : List RateEntry → ℕ
unfolding oldest_from
oldest_slot [] = 0
oldest_slot (entry ∷ entries) = oldest_from 1 0 entry.at entries

unfoldable pub new_slot : List RateEntry → Text → ℕ → List RateEntry
unfolding oldest_slot
new_slot entries key now =
    let fresh : RateEntry = record { key = key; at = now } in
    if ltb (length entries) 16
    then entries ++ (fresh ∷ [])
    else set entries (oldest_slot entries) fresh

abbrev pub known_or_new : Option (Bool × List RateEntry) → List RateEntry → Bool × List RateEntry
known_or_new none entries = (true, entries)
known_or_new (some known) entries = known

unfoldable pub should_log : List RateEntry → Text → ℕ → ℕ → Bool × List RateEntry
unfolding known_slot new_slot
should_log entries key interval now =
    known_or_new (known_slot entries key interval now) (new_slot entries key now)

-- A key that is empty and an interval of zero are not limited.
unfoldable pub should_log_now : List RateEntry → Text → ℕ → ℕ → Bool × List RateEntry
unfolding should_log
should_log_now entries key interval now =
    if is_empty_text key || interval == 0
    then (true, entries)
    else should_log entries key interval now

-- The slots and the number of keys, of `known`, that have none.
unfoldable pub has_slot : List RateEntry → Text → Bool
has_slot [] key = false
has_slot (entry ∷ entries) key = text_eq entry.key key || has_slot entries key

unfoldable pub slots_wanted : List RateEntry → List Text → ℕ
unfolding has_slot
slots_wanted entries [] = 0
slots_wanted entries (key ∷ known) =
    let rest = slots_wanted entries known in if has_slot entries key then rest else suc rest

-- The time of the last line with the key.
unfoldable pub last_at : List RateEntry → Text → Option ℕ
last_at [] key = none
last_at (entry ∷ entries) key =
    let rest = last_at entries key in if text_eq entry.key key then some entry.at else rest

-- What the limiter is to answer.
unfoldable pub allowed : Option ℕ → ℕ → ℕ → Bool
allowed none interval now = true
allowed (some at) interval now = not (ltb (now - at) interval)

abbrev pub Call : Type 0
Call = Text × (ℕ × ℕ)

unfoldable pub answers : List RateEntry → List Call → List Bool
unfolding should_log_now
answers entries [] = []
answers entries ((key, (interval, now)) ∷ calls) =
    let (agreed, entries') = should_log_now entries key interval now in
    agreed ∷ answers entries' calls

-- The same with a time kept for every key there is.
abbrev pub remembered : Bool → (Text → Option ℕ) → Text → ℕ → Text → Option ℕ
remembered true last key now other = if text_eq key other then some now else last other
remembered false last key now other = last other

unfoldable pub ideal_answers : (Text → Option ℕ) → List Call → List Bool
unfolding allowed
ideal_answers last [] = []
ideal_answers last ((key, (interval, now)) ∷ calls) =
    if is_empty_text key || interval == 0
    then true ∷ ideal_answers last calls
    else (let agreed = allowed (last key) interval now in
        agreed ∷ ideal_answers (remembered agreed last key now) calls)
