-- ===== src/Capital/Examples.antt =====
-- The theorems about the limits on capital at concrete inputs (src/capital/in-memory-limits.ts).
use crash.Prelude.{refl, [], ◌∷◌}
use crash.Capital.Limits.{
  CapitalLimitsConfig, create, evaluate, update_balance, update_all, can_place_bet,
}
use crash.Capital.Limits.Drawdown.{IsWithin, allowed-IsWithin}

abbrev config : CapitalLimitsConfig
config = record {
  max_drawdown_abs = 50000;
  max_drawdown_pct = 3000;
  panic_balance_floor = 10000;
  max_stake = 70000;
  starting_bankroll = 200000;
}

allowed-IsWithin_example :
    IsWithin (update_balance 170000 (update_all (create config) (210000 ∷ [])))
unfolding create update_all update_balance evaluate can_place_bet
allowed-IsWithin_example =
    allowed-IsWithin 70000 170000 (210000 ∷ []) (190000 ∷ []) (create config) refl
