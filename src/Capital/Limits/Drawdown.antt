-- ===== src/Capital/Limits/Drawdown.antt =====
-- What an allowed bet says of the balances seen so far (src/capital/in-memory-limits.ts).
use crash.Prelude.{
  ℕ, ◌+◌, ◌-◌, ◌*◌, ◌≤◌, ◌<◌, ◌≡◌, refl, sym, ap, ◌∙◌, ◌↔◌, true, false, Bool-cases, List, [], ◌∷◌,
  ◌++◌, none, arith, inl, inr,
}
use crash.Capital.Limits.{
  Guard, evaluate, update_balance, can_place_bet, update_all, raise_peak, share_reached,
}

-- The balance is above the floor, and it has fallen from the peak by less than either limit.
abbrev pub IsWithin : Guard → Type 0
IsWithin g =
    (g.config.panic_balance_floor < g.current_bankroll)
    × (g.peak_bankroll < g.current_bankroll + g.config.max_drawdown_abs)
    × (0 < g.peak_bankroll
        → (g.peak_bankroll - g.current_bankroll) * 10000
          < g.config.max_drawdown_pct * g.peak_bankroll)

evaluate-IsWithin : (g : Guard) → (evaluate g).locked ≡ false → IsWithin (evaluate g)
unfolding evaluate share_reached
evaluate-IsWithin g h = (ground arith, ground arith, λ p. ground arith)

evaluate-locked : (g : Guard) → g.locked ≡ true → (evaluate g).locked ≡ true
unfolding evaluate
evaluate-locked g h = ground arith

update_balance-locked : (b : ℕ) (g : Guard) → g.locked ≡ true → (update_balance b g).locked ≡ true
unfolding update_balance raise_peak
update_balance-locked b g h = evaluate-locked (raise_peak b g) (ground arith)

update_all-locked : (bs : List ℕ) (g : Guard) → g.locked ≡ true → (update_all g bs).locked ≡ true
unfolding update_all
update_all-locked [] g h = h
update_all-locked (b ∷ bs) g h =
    update_all-locked bs (update_balance b g) (update_balance-locked b g h)

update_all-append :
    (bs cs : List ℕ) (g : Guard) → update_all g (bs ++ cs) ≡ update_all (update_all g bs) cs
unfolding update_all
update_all-append [] cs g = refl
update_all-append (b ∷ bs) cs g = update_all-append bs cs (update_balance b g)

allowed-unlocked : (stake : ℕ) (g : Guard) → can_place_bet stake g ≡ none → g.locked ≡ false
unfolding can_place_bet
allowed-unlocked stake g h = ground arith

-- A bet is allowed exactly when the guard is not locked, the stake is within its limit, and the
-- balance covers both the stake and the floor.
pub can_place_bet_iff :
    (stake : ℕ) (g : Guard)
    → (can_place_bet stake g ≡ none) ↔ (
        (g.locked ≡ false)
        × (stake ≤ g.config.max_stake)
        × (stake + g.config.panic_balance_floor ≤ g.current_bankroll))
unfolding can_place_bet
can_place_bet_iff stake g = (λ h. ground arith, λ h. ground arith)

-- When a bet is allowed after a series of balances with no override by the operator, then the
-- guard was within all its limits after every one of them, not only after the last.
pub allowed-IsWithin :
    (stake b : ℕ) (bs cs : List ℕ) (g : Guard)
    → can_place_bet stake (update_all g (bs ++ b ∷ cs)) ≡ none
    → IsWithin (update_balance b (update_all g bs))
unfolding update_all update_balance
allowed-IsWithin stake b bs cs g h =
    let g' = update_balance b (update_all g bs) in
    let u =
      allowed-unlocked stake (update_all g' cs)
        (ap (can_place_bet stake) (sym (update_all-append bs (b ∷ cs) g)) ∙ h) in
    elim (Bool-cases g'.locked) [
      | inl t ↦ let v = update_all-locked cs g' t in cc
      | inr t ↦ evaluate-IsWithin (raise_peak b (update_all g bs)) t
    ]
