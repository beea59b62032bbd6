-- ===== src/Logger/Rate/Slots.antt =====
-- The slots of `RateLimiter`, src/logger.rs, keep the time of the last line of each key.
use addrsyncd.Base.{
  ℕ, ◌-◌, ◌≤◌, ◌<◌, ◌≡◌, refl, Bool, true, false, ◌||◌, List, [], ◌∷◌, ◌++◌, arith, ltb, none, some,
  Option-cases, Bool-cases, inl, inr, length,
}
use addrsyncd.Base.Texts.{Text, text_eq, text_eq_sound, text_eq_refl, text_mem}
use addrsyncd.Logger.Rate.{
  RateEntry, known_slot, has_slot, slots_wanted, last_at, allowed, remembered,
}

pub known_slot-none :
    (entries : List RateEntry) (key : Text) (interval now : ℕ)
    → known_slot entries key interval now ≡ none
    → (has_slot entries key ≡ false) × (last_at entries key ≡ none)
unfolding known_slot has_slot last_at
known_slot-none [] key interval now e = (refl, refl)
known_slot-none (entry ∷ entries) key interval now e =
    elim (Option-cases (known_slot entries key interval now)) [
      | inl n ↦
          let (no_slot, no_time) = known_slot-none entries key interval now n in
          (ground (arith, no_slot), ground (arith, no_time))
      | inr (found, f) ↦ (ground arith, ground arith)
    ]

-- The slots after an answer from the slot of the key.
pub record IsAnswered (entries entries' : List RateEntry) (key : Text) (interval now : ℕ)
    (agreed : Bool) : Type 0 where
  pub had : has_slot entries key ≡ true
  pub answered : agreed ≡ allowed (last_at entries key) interval now
  pub as_many : length entries' ≡ length entries
  pub same_keys : (other : Text) → has_slot entries' other ≡ has_slot entries other
  pub times :
      (other : Text) → last_at entries' other ≡ remembered agreed (last_at entries) key now other

refused_here :
    (entry : RateEntry) (entries : List RateEntry) (key : Text) (interval now : ℕ)
    → text_eq entry.key key ≡ true
    → ltb (now - entry.at) interval ≡ true
    → IsAnswered (entry ∷ entries) (entry ∷ entries) key interval now false
unfolding has_slot last_at allowed
refused_here entry entries key interval now here early = record {
  had = ground arith;
  answered = ground arith;
  as_many = refl;
  same_keys = λ o. refl;
  times = λ o. refl;
}

agreed_here :
    (entry : RateEntry) (entries : List RateEntry) (key : Text) (interval now : ℕ)
    → text_eq entry.key key ≡ true
    → ltb (now - entry.at) interval ≡ false
    → IsAnswered (entry ∷ entries) (record { key = key; at = now } ∷ entries) key interval now true
unfolding has_slot last_at allowed
agreed_here entry entries key interval now here late =
    let same = text_eq_sound entry.key key here in
    record {
      had = ground arith;
      answered = ground arith;
      as_many = refl;
      same_keys = λ o. rw same refl;
      times = λ o. rw same (ground arith);
    }

remembered_below :
    (entry : RateEntry) (entries rest : List RateEntry) (key other : Text) (now : ℕ) (agreed : Bool)
    → text_eq entry.key key ≡ false
    → last_at rest other ≡ remembered agreed (last_at entries) key now other
    → last_at (entry ∷ rest) other ≡ remembered agreed (last_at (entry ∷ entries)) key now other
unfolding last_at
remembered_below entry entries rest key other now false away h = rw h refl
remembered_below entry entries rest key other now true away h =
    elim (Bool-cases (text_eq key other)) [
      | inl same ↦
          let apart : text_eq entry.key other ≡ false = rw (← text_eq_sound key other same) away in
          ground (arith, h)
      | inr different ↦ ground (arith, h)
    ]

IsAnswered-below :
    (entry : RateEntry) (entries rest : List RateEntry) (key : Text) (interval now : ℕ)
    (agreed : Bool)
    → text_eq entry.key key ≡ false
    → IsAnswered entries rest key interval now agreed
    → IsAnswered (entry ∷ entries) (entry ∷ rest) key interval now agreed
IsAnswered-below entry entries rest key interval now agreed away below = record {
  had = unfold has_slot in ground (arith, below.had);
  answered = unfold last_at in rw (away) below.answered;
  as_many = ground (arith, below.as_many);
  same_keys = λ o. unfold has_slot in rw (below.same_keys o) refl;
  times = λ o. remembered_below entry entries rest key o now agreed away (below.times o);
}

pub known_slot-IsAnswered :
    (entries entries' : List RateEntry) (key : Text) (interval now : ℕ) (agreed : Bool)
    → known_slot entries key interval now ≡ some (agreed, entries')
    → IsAnswered entries entries' key interval now agreed
known_slot-IsAnswered [] entries' key interval now agreed e =
    absurd (unfold known_slot in ground arith)
known_slot-IsAnswered (entry ∷ entries) entries' key interval now agreed e =
    elim (Bool-cases (text_eq entry.key key)) [
      | inl here ↦ elim (Bool-cases (ltb (now - entry.at) interval)) [
        | inl early ↦
            let r : agreed ≡ false = unfold known_slot in ground arith in
            let s : entries' ≡ entry ∷ entries = unfold known_slot in ground arith in
            rw (r, s) (refused_here entry entries key interval now here early)
        | inr late ↦
            let r : agreed ≡ true = unfold known_slot in ground arith in
            let s : entries' ≡ record { key = key; at = now } ∷ entries =
              unfold known_slot in ground arith in
            rw (r, s) (agreed_here entry entries key interval now here late)
      ]
      | inr away ↦ elim (Option-cases (known_slot entries key interval now)) [
        | inl n ↦ absurd (unfold known_slot in ground arith)
        | inr ((agreed', rest), f) ↦
            let r : agreed ≡ agreed' = unfold known_slot in ground arith in
            let s : entries' ≡ entry ∷ rest = unfold known_slot in ground arith in
            rw (r, s)
              (IsAnswered-below entry entries rest key interval now agreed' away
                (known_slot-IsAnswered entries rest key interval now agreed' f))
      ]
    ]

has_slot-append :
    (entries : List RateEntry) (fresh : RateEntry) (other : Text)
    → has_slot (entries ++ (fresh ∷ [])) other ≡ (has_slot entries other || text_eq fresh.key other)
unfolding has_slot
has_slot-append [] fresh other = ground arith
has_slot-append (entry ∷ entries) fresh other = ground (arith, has_slot-append entries fresh other)

pub last_at-append_new :
    (entries : List RateEntry) (fresh : RateEntry) (other : Text)
    → text_eq fresh.key other ≡ false
    → last_at (entries ++ (fresh ∷ [])) other ≡ last_at entries other
unfolding last_at
last_at-append_new [] fresh other h = ground arith
last_at-append_new (entry ∷ entries) fresh other h =
    ground (arith, last_at-append_new entries fresh other)

pub last_at-append_first :
    (entries : List RateEntry) (fresh : RateEntry)
    → last_at entries fresh.key ≡ none
    → text_eq fresh.key fresh.key ≡ true
    → last_at (entries ++ (fresh ∷ [])) fresh.key ≡ some fresh.at
unfolding last_at
last_at-append_first [] fresh n h = ground arith
last_at-append_first (entry ∷ entries) fresh n h =
    ground (arith, last_at-append_first entries fresh)

pub slots_wanted_same :
    (entries entries' : List RateEntry) (known : List Text)
    → ((other : Text) → has_slot entries' other ≡ has_slot entries other)
    → slots_wanted entries' known ≡ slots_wanted entries known
unfolding slots_wanted
slots_wanted_same entries entries' [] h = refl
slots_wanted_same entries entries' (key ∷ known) h =
    ground (arith, h key, slots_wanted_same entries entries' known h)

slots_wanted_le :
    (entries : List RateEntry) (fresh : RateEntry) (known : List Text)
    → slots_wanted (entries ++ (fresh ∷ [])) known ≤ slots_wanted entries known
unfolding slots_wanted
slots_wanted_le entries fresh [] = omega arith
slots_wanted_le entries fresh (key ∷ known) =
    ground (arith, has_slot-append entries fresh key, slots_wanted_le entries fresh known)

pub slots_wanted_lt :
    (entries : List RateEntry) (fresh : RateEntry) (known : List Text)
    → has_slot entries fresh.key ≡ false
    → text_mem fresh.key known ≡ true
    → slots_wanted (entries ++ (fresh ∷ [])) known < slots_wanted entries known
unfolding slots_wanted text_mem
slots_wanted_lt entries fresh [] n h = absurd (ground arith)
slots_wanted_lt entries fresh (key ∷ known) n h = elim (Bool-cases (text_eq key fresh.key)) [
  | inl same ↦
      let whole = text_eq_sound key fresh.key same in
      let absent : has_slot entries key ≡ false = rw whole n in
      let here : text_eq fresh.key key ≡ true = rw whole (text_eq_refl fresh.key) in
      ground (arith, has_slot-append entries fresh key, slots_wanted_le entries fresh known)
  | inr other ↦
      ground (arith, has_slot-append entries fresh key, slots_wanted_lt entries fresh known)
]
