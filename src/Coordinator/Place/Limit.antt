-- ===== src/Coordinator/Place/Limit.antt =====
-- The limit of the day under a placement and over rounds (src/betting/betting-coordinator.ts):
-- from the reservation to the end of `tryPlaceBet`.
use crash.Prelude.{
  ℕ, String, ◌≡◌, ◌&&◌, Bool, true, false, Bool-cases, inl, inr, Option, none, some, get_or_else,
}
use crash.Machine.Dates.{Dates}
use crash.Daily.Types.{find_entry}
use crash.Daily.Ledger.Counts.{Counted}
use crash.Daily.Ledger.Slots.{reserve-HasStatus, reserve-Counted}
use crash.Executor.Outside.{PlaceBetRequest}
use crash.Coordinator.Outside.{Options, Coordinator, Quota, allowed, denied, Placing, Outside}
use crash.Coordinator.Place.{
  refuse_slot, reserve_slot, prepare, check_quota, bind_executor, try_place_bet, reservation,
  is_live, is_passive, browser_blocks,
}
use crash.Coordinator.Place.Slots.{submit-Counted}

-- The bet is new to the day, and the callback of a confirmed entry does not throw.
pub record IsQuiet {X : Type 0} (o : Outside) (c : Coordinator X) : Type 0 where
  pub fresh : find_entry o.bet_id c.day.entries ≡ none
  pub confirms : o.on_entry_confirmed ≡ none

module _ {X : Type 0} (place_live_bet : PlaceBetRequest → X → X × Placing) (d : Dates)
    (opts : Options) (o : Outside) (round_id : String) where
  reserve-Limited :
      (f : Option String) (target : ℕ) (c : Coordinator X)
      → IsQuiet o c
      → Counted opts.max_daily_entries c.day
      → Counted opts.max_daily_entries
          (reserve_slot place_live_bet d opts f o round_id target c).0.day
  unfolding reserve_slot refuse_slot
  reserve-Limited (some thrown) target c q k = k
  reserve-Limited none target c q k =
      let session = get_or_else c.session_id "unknown" in
      let counted = reserve-Counted opts.max_daily_entries o.bet_id session c.day k in
      elim (Bool-cases (reservation place_live_bet d opts o c).1.success) [
        | inl s ↦ rw s (
            submit-Counted place_live_bet d opts o opts.max_daily_entries true round_id target _
              q.confirms
              ((
                counted,
                reserve-HasStatus opts.max_daily_entries o.bet_id session c.day q.fresh s,
              )))
        | inr s ↦ rw s counted
      ]

  prepare-Limited :
      (c : Coordinator X)
      → IsQuiet o c
      → Counted opts.max_daily_entries c.day
      → Counted opts.max_daily_entries (prepare place_live_bet d opts o round_id c).0.day
  unfolding prepare
  prepare-Limited c q k = elim (Bool-cases (opts.has_daily_ledger && is_live opts.mode)) [
    | inl e ↦
        rw e (reserve-Limited o.reserving _ _ (record { fresh = q.fresh; confirms = q.confirms }) k)
    | inr e ↦ rw e (
        submit-Counted place_live_bet d opts o opts.max_daily_entries false round_id _ _ q.confirms
          k)
  ]

  bind-Limited :
      (b : Bool) (c : Coordinator X)
      → IsQuiet o c
      → Counted opts.max_daily_entries c.day
      → Counted opts.max_daily_entries (bind_executor place_live_bet d opts b o round_id c).0.day
  unfolding bind_executor
  bind-Limited true c q k = prepare-Limited c q k
  bind-Limited false c q k = k

  quota-Limited :
      (p : Quota) (c : Coordinator X)
      → IsQuiet o c
      → Counted opts.max_daily_entries c.day
      → Counted opts.max_daily_entries (check_quota place_live_bet d opts p o round_id c).0.day
  unfolding check_quota
  quota-Limited (denied reason) c q k = k
  quota-Limited allowed c q k = bind-Limited opts.has_executor c q k

  pub try_place_bet-Limited :
      (c : Coordinator X)
      → IsQuiet o c
      → Counted opts.max_daily_entries c.day
      → Counted opts.max_daily_entries (try_place_bet place_live_bet d opts o round_id c).0.day
  unfolding try_place_bet
  try_place_bet-Limited c q k = elim (Bool-cases (is_passive opts.mode)) [
    | inl e ↦ rw e k
    | inr e ↦ elim (Bool-cases (browser_blocks opts o)) [
      | inl f ↦ rw (e, f) k
      | inr f ↦
          rw (e, f) (quota-Limited o.quota _ (record { fresh = q.fresh; confirms = q.confirms }) k)
    ]
  ]
