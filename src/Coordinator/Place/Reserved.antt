-- ===== src/Coordinator/Place/Reserved.antt =====
-- Placements in live mode that reserve an entry of the day (tryPlaceBet,
-- src/betting/betting-coordinator.ts): the way to the submission of the bet.
use crash.Prelude.{ℕ, String, ◌≡◌, refl, ◌&&◌, Bool, true, false, Option, none, some, remove, arith}
use crash.Machine.Types.{entry_checks_passed}
use crash.Machine.Dates.{Dates}
use crash.Machine.Send.{send}
use crash.Executor.Outside.{PlaceBetRequest}
use crash.Coordinator.Outside.{
  Options, Coordinator, Quota, allowed, denied, Placing, checking, Outside,
}
use crash.Coordinator.Place.{
  submit, reserve_slot, prepare, check_quota, bind_executor, try_place_bet, reservation,
  round_target, is_live, is_passive, browser_blocks,
}

module _ {X : Type 0} (place_live_bet : PlaceBetRequest → X → X × Placing) (d : Dates)
    (opts : Options) where
  -- Live mode with a ledger, an executor and a quota that allows the bet, where the browser does
  -- not block it, and an entry of the day is granted.
  pub record IsReserving (o : Outside) (c : Coordinator X) : Type 0 where
    pub live_mode : is_live opts.mode ≡ true
    pub ledger : opts.has_daily_ledger ≡ true
    pub bound : opts.has_executor ≡ true
    pub unblocked : browser_blocks opts o ≡ false
    pub in_quota : o.quota ≡ allowed
    pub answers : o.reserving ≡ none
    pub granted : (reservation place_live_bet d opts o c).1.success ≡ true

  -- The coordinator when it submits such a bet.
  abbrev pub submitting_at : Outside → String → Coordinator X → Coordinator X
  submitting_at o round_id c = record c {
    machine = (send d (o.at checking) c.machine entry_checks_passed).machine;
    last_cash_out_target_by_round = remove round_id c.last_cash_out_target_by_round;
    day = (reservation place_live_bet d opts o c).0;
  }

  module _ (P : Coordinator X → Type 0) where
    reserve_slot-submits :
        (f : Option String) (o : Outside) (round_id : String) (target : ℕ) (c : Coordinator X)
        → f ≡ none
        → (reservation place_live_bet d opts o c).1.success ≡ true
        → P (
            submit place_live_bet d opts true o round_id target
              (record c { day = (reservation place_live_bet d opts o c).0 }))
        → P (reserve_slot place_live_bet d opts f o round_id target c).0
    unfolding reserve_slot
    reserve_slot-submits (some thrown) o round_id target c e granted h = cc
    reserve_slot-submits none o round_id target c e granted h = rw granted h

    prepare-submits :
        (o : Outside) (round_id : String) (c : Coordinator X)
        → (opts.has_daily_ledger && is_live opts.mode) ≡ true
        → P
            (reserve_slot place_live_bet d opts o.reserving o round_id
              (round_target place_live_bet d opts round_id c)
              (record c {
                last_cash_out_target_by_round = remove round_id c.last_cash_out_target_by_round;
              })).0
        → P (prepare place_live_bet d opts o round_id c).0
    unfolding prepare
    prepare-submits o round_id c both h = rw both h

    bind-submits :
        (b : Bool) (o : Outside) (round_id : String) (c : Coordinator X)
        → b ≡ true
        → P (prepare place_live_bet d opts o round_id c).0
        → P (bind_executor place_live_bet d opts b o round_id c).0
    unfolding bind_executor
    bind-submits true o round_id c e h = h
    bind-submits false o round_id c e h = cc

    quota-submits :
        (q : Quota) (o : Outside) (round_id : String) (c : Coordinator X)
        → q ≡ allowed
        → P (bind_executor place_live_bet d opts opts.has_executor o round_id c).0
        → P (check_quota place_live_bet d opts q o round_id c).0
    unfolding check_quota
    quota-submits allowed o round_id c e h = h
    quota-submits (denied reason) o round_id c e h = cc

    unpassive : is_live opts.mode ≡ true → is_passive opts.mode ≡ false
    unpassive h = ground arith

    -- What holds of the submission holds of the placement.
    pub try_place_bet-submits :
        (o : Outside) (round_id : String) (c : Coordinator X)
        → IsReserving o c
        → P (
            submit place_live_bet d opts true o round_id
              (round_target place_live_bet d opts round_id c)
              (submitting_at o round_id c))
        → P (try_place_bet place_live_bet d opts o round_id c).0
    unfolding try_place_bet
    try_place_bet-submits o round_id c h k =
        rw (unpassive h.live_mode, h.unblocked)
          (quota-submits o.quota o round_id _ h.in_quota (
            bind-submits opts.has_executor o round_id _ h.bound (
              prepare-submits o round_id _ (rw (h.ledger, h.live_mode) refl)
                (reserve_slot-submits o.reserving o round_id _ _ h.answers h.granted k))))
