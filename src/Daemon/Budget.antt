-- ===== src/Daemon/Budget.antt =====
-- `RouteBudgetState::update`, src/daemon/service.rs: how many packets a round may read.
use addrsyncd.Base.{
  ℕ, ◌+◌, ◌*◌, ◌/◌, ◌≤◌, ◌<◌, Bool, true, false, List, [], ◌∷◌, arith, leb, if◌then◌else◌, min, max,
}
use addrsyncd.Daemon.{RouteBudgetState, default_route_budget}

-- `u8::saturating_add(1)`
abbrev pub saturating_incr_u8 : ℕ → ℕ
saturating_incr_u8 n = min (n + 1) 255

unfoldable pub update : RouteBudgetState → ℕ → Bool → RouteBudgetState
update b processed true =
    let full = saturating_incr_u8 b.full_streak in
    if leb 2 full
    then record { current = min (b.current * 2) 1024; full_streak = 0; low_streak = 0 }
    else record { current = b.current; full_streak = full; low_streak = 0 }
update b processed false =
    let low_threshold = max (b.current / 4) 1 in
    let low = saturating_incr_u8 b.low_streak in
    if leb processed low_threshold
    then if leb 8 low
      then record { current = max (b.current / 2) 64; full_streak = 0; low_streak = 0 }
      else record { current = b.current; full_streak = 0; low_streak = low }
    else record { current = b.current; full_streak = 0; low_streak = 0 }

-- The rounds so far: how many packets each read, and whether it hit the budget.
unfoldable pub updates : RouteBudgetState → List (ℕ × Bool) → RouteBudgetState
unfolding update
updates b [] = b
updates b ((processed, hit) ∷ rounds) = updates (update b processed hit) rounds

pub record InBounds (b : RouteBudgetState) : Type 0 where
  pub at_least : 64 ≤ b.current
  pub at_most : b.current ≤ 1024
  pub full_small : b.full_streak < 2
  pub low_small : b.low_streak < 8

update-InBounds :
    (b : RouteBudgetState) (n : ℕ) (hit : Bool) → InBounds b → InBounds (update b n hit)
unfolding update
update-InBounds b n true v = ground arith
update-InBounds b n false v = ground arith

updates-keep :
    (b : RouteBudgetState) (rounds : List (ℕ × Bool)) → InBounds b → InBounds (updates b rounds)
unfolding updates
updates-keep b [] v = v
updates-keep b ((n, hit) ∷ rounds) v =
    updates-keep (update b n hit) rounds (update-InBounds b n hit v)

-- However the rounds go, the budget that starts with the default stays between 64 and 1024 packets,
-- and the streaks stay below the lengths that change it.
pub updates-InBounds : (rounds : List (ℕ × Bool)) → InBounds (updates default_route_budget rounds)
updates-InBounds rounds = updates-keep default_route_budget rounds (ground arith)
