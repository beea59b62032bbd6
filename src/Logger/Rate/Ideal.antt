-- ===== src/Logger/Rate/Ideal.antt =====
-- `RateLimiter` of src/logger.rs against a limiter with room for every key.
use addrsyncd.Base.{
  ℕ, ◌+◌, ◌≤◌, ◌<◌, ◌≡◌, refl, ◌∙◌, ap, Bool, true, false, ◌||◌, List, [], ◌∷◌, ◌++◌, arith, ◌==◌,
  Option, none, some, Option-cases, Bool-cases, inl, inr, length, length-append, All,
}
use addrsyncd.Base.Texts.{Text, text_eq, text_eq_sound, text_eq_refl, text_mem, is_empty_text}
use addrsyncd.Logger.Rate.{
  RateEntry, known_slot, new_slot, known_or_new, should_log, should_log_now, slots_wanted, last_at,
  allowed, Call, answers, remembered, ideal_answers,
}
use addrsyncd.Logger.Rate.Slots.{
  known_slot-none, known_slot-IsAnswered, last_at-append_new, last_at-append_first,
  slots_wanted_same, slots_wanted_lt,
}

-- An answer as it is to be, with the time remembered and room left for the known keys.
record IsKept (entries entries' : List RateEntry) (known : List Text) (key : Text)
    (interval now : ℕ) (agreed : Bool) : Type 0 where
  pub answered : agreed ≡ allowed (last_at entries key) interval now
  pub times :
      (other : Text) → last_at entries' other ≡ remembered agreed (last_at entries) key now other
  pub room : length entries' + slots_wanted entries' known ≤ 16

fresh_times :
    (entries : List RateEntry) (key other : Text) (now : ℕ)
    → last_at entries key ≡ none
    → last_at (entries ++ (record { key = key; at = now } ∷ [])) other
      ≡ remembered true (last_at entries) key now other
fresh_times entries key other now e = elim (Bool-cases (text_eq key other)) [
  | inl same ↦
      rw (same, ← text_eq_sound key other same)
        (last_at-append_first entries (record { key = key; at = now }) e (text_eq_refl key))
  | inr apart ↦ rw apart (last_at-append_new entries (record { key = key; at = now }) other apart)
]

new_slot_room :
    (entries : List RateEntry) (key : Text) (now : ℕ)
    → length entries < 16
    → new_slot entries key now ≡ entries ++ (record { key = key; at = now } ∷ [])
unfolding new_slot
new_slot_room entries key now h = ground arith

should_log_known :
    (entries : List RateEntry) (key : Text) (interval now : ℕ) (r : Bool × List RateEntry)
    → known_slot entries key interval now ≡ some r
    → should_log entries key interval now ≡ r
unfolding should_log
should_log_known entries key interval now r e =
    ap (λ o. known_or_new o (new_slot entries key now)) e

should_log_new :
    (entries : List RateEntry) (key : Text) (interval now : ℕ)
    → known_slot entries key interval now ≡ none
    → should_log entries key interval now ≡ (true, new_slot entries key now)
unfolding should_log
should_log_new entries key interval now e = ap (λ o. known_or_new o (new_slot entries key now)) e

should_log-IsKept :
    (entries : List RateEntry) (known : List Text) (key : Text) (interval now : ℕ)
    → text_mem key known ≡ true
    → length entries + slots_wanted entries known ≤ 16
    → let r = should_log entries key interval now in IsKept entries r.1 known key interval now r.0
should_log-IsKept entries known key interval now k h =
    elim (Option-cases (known_slot entries key interval now)) [
      | inl n ↦
          let fresh : RateEntry = record { key = key; at = now } in
          let (no_slot, no_time) = known_slot-none entries key interval now n in
          let fewer = slots_wanted_lt entries fresh known no_slot k in
          let longer = length-append entries (fresh ∷ []) in
          rw
            (should_log_new entries key interval now n, new_slot_room entries key now (omega arith))
            record {
              answered = unfold allowed in rw no_time refl;
              times = λ o. fresh_times entries key o now no_time;
              room = omega arith;
            }
      | inr ((agreed, entries'), f) ↦
          let ok = known_slot-IsAnswered entries entries' key interval now agreed f in
          let same = slots_wanted_same entries entries' known ok.same_keys in
          rw (should_log_known entries key interval now (agreed, entries') f)
            record { answered = ok.answered; times = ok.times; room = ground (arith, ok.as_many) }
    ]

remembered_same :
    (agreed : Bool) (last last' : Text → Option ℕ) (key other : Text) (now : ℕ)
    → last other ≡ last' other
    → remembered agreed last key now other ≡ remembered agreed last' key now other
remembered_same false last last' key other now h = h
remembered_same true last last' key other now h = rw h refl

answers_unlimited :
    (entries : List RateEntry) (key : Text) (interval now : ℕ) (calls : List Call)
    → (is_empty_text key || interval == 0) ≡ true
    → answers entries ((key, (interval, now)) ∷ calls) ≡ true ∷ answers entries calls
unfolding answers should_log_now
answers_unlimited entries key interval now calls e = rw e refl

answers_limited :
    (entries : List RateEntry) (key : Text) (interval now : ℕ) (calls : List Call)
    → (is_empty_text key || interval == 0) ≡ false
    → let r = should_log entries key interval now in
      answers entries ((key, (interval, now)) ∷ calls) ≡ r.0 ∷ answers r.1 calls
unfolding answers should_log_now
answers_limited entries key interval now calls e = rw e refl

answers-kept :
    (entries : List RateEntry) (last : Text → Option ℕ) (known : List Text) (calls : List Call)
    → ((other : Text) → last_at entries other ≡ last other)
    → length entries + slots_wanted entries known ≤ 16
    → All (λ (call : Call). text_mem call.0 known ≡ true) calls
    → answers entries calls ≡ ideal_answers last calls
answers-kept entries last known [] t h k = unfold answers ideal_answers in refl
answers-kept entries last known ((key, (interval, now)) ∷ calls) t h k =
    elim (Bool-cases (is_empty_text key || interval == 0)) [
      | inl free ↦
          answers_unlimited entries key interval now calls free
          ∙ ap (λ (rest : List Bool). true ∷ rest) (answers-kept entries last known calls t h k.1)
          ∙ (unfold ideal_answers in rw free refl)
      | inr limited ↦
          let r = should_log entries key interval now in
          let kept = should_log-IsKept entries known key interval now k.0 h in
          let agreed : r.0 ≡ allowed (last key) interval now =
            kept.answered ∙ ap (λ (at : Option ℕ). allowed at interval now) (t key) in
          answers_limited entries key interval now calls limited
          ∙ ap (λ (rest : List Bool). r.0 ∷ rest)
              (answers-kept r.1 (remembered r.0 last key now) known calls
                (λ o. kept.times o ∙ remembered_same r.0 (last_at entries) last key o now (t o))
                kept.room k.1)
          ∙ (unfold ideal_answers in rw (limited, agreed) refl)
    ]

slots_wanted_all : (known : List Text) → slots_wanted [] known ≡ length known
unfolding slots_wanted
slots_wanted_all [] = refl
slots_wanted_all (key ∷ known) = ground (arith, slots_wanted_all known)

-- Sixteen slots are enough for sixteen keys: while no other keys than these are used, the limiter answers
-- every call as one does that remembers for each key there is when it last agreed.
pub answers-ideal_answers :
    (known : List Text) (calls : List Call)
    → length known ≤ 16
    → All (λ (call : Call). text_mem call.0 known ≡ true) calls
    → answers [] calls ≡ ideal_answers (λ (key : Text). none) calls
answers-ideal_answers known calls h k =
    let all = slots_wanted_all known in
    answers-kept [] (λ (key : Text). none) known calls (λ o. unfold last_at in refl)
      (ground (arith, all)) k
