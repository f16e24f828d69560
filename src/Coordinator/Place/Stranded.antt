-- ===== src/Coordinator/Place/Stranded.antt =====
-- Placements that end before the executor is asked, and leave the entry pending (tryPlaceBet,
-- src/betting/betting-coordinator.ts).
use crash.Prelude.{ℕ, String, ◌≡◌, refl, ◌⊎◌, true, false, inl, inr}
use crash.Machine.Types.{entry_checks_passed, bet_submitted, risk_rejected}
use crash.Machine.Dates.{Dates}
use crash.Machine.Send.Pending.{is_pending, send-pending}
use crash.Daily.Types.{Day}
use crash.Coordinator.Place.Reserved.{IsReserving, submitting_at, try_place_bet-submits}
use crash.Executor.Outside.{PlaceBetRequest}
use crash.Coordinator.Outside.{
  Options, Coordinator, allowed, Placing, checking, submitting, expiring, Outside,
}
use crash.Coordinator.Place.{
  try_place_bet, check_quota, bind_executor, submit, reservation, expired, is_passive,
  browser_blocks,
}

-- The entry is still pending, the executor has not been asked, and the day is the given one.
pub record IsLeft {X : Type 0} (x : X) (day : Day) (c : Coordinator X) : Type 0 where
  pub pending : is_pending c.machine.state ≡ true
  pub unasked : c.executor ≡ x
  pub same_day : c.day ≡ day

module _ {X : Type 0} (place_live_bet : PlaceBetRequest → X → X × Placing) (d : Dates)
    (opts : Options) where
  -- No executor is asked: the mode has no live placement, or the browser blocks it, or the quota
  -- allows the bet and no executor is bound.
  abbrev pub IsUnserved : Outside → Type 0
  IsUnserved o =
      (is_passive opts.mode ≡ true)
      ⊎ ((is_passive opts.mode ≡ false) × (browser_blocks opts o ≡ true))
      ⊎ ((is_passive opts.mode ≡ false)
          × (browser_blocks opts o ≡ false)
          × (o.quota ≡ allowed)
          × (opts.has_executor ≡ false))

  pub unserved-IsLeft :
      (o : Outside) (round_id : String) (c : Coordinator X)
      → is_pending c.machine.state ≡ true
      → IsUnserved o
      → IsLeft c.executor c.day (try_place_bet place_live_bet d opts o round_id c).0
  unfolding try_place_bet check_quota bind_executor
  unserved-IsLeft o round_id c p (inl a) =
      rw a (record { pending = p; unasked = refl; same_day = refl })
  unserved-IsLeft o round_id c p (inr (inl (a, b))) =
      rw (a, b) (record { pending = p; unasked = refl; same_day = refl })
  unserved-IsLeft o round_id c p (inr (inr (a, b, q, x))) =
      rw (a, b, q, x)
        (record {
          pending = send-pending d (o.at checking) c.machine entry_checks_passed p refl;
          unasked = refl;
          same_day = refl;
        })

  submit-late :
      (o : Outside) (round_id : String) (target : ℕ) (c : Coordinator X)
      → is_pending c.machine.state ≡ true
      → expired c.last_signal_expires_at (o.at expiring) ≡ true
      → IsLeft c.executor c.day (submit place_live_bet d opts true o round_id target c)
  unfolding submit
  submit-late o round_id target c p late =
      let k = send-pending d (o.at submitting) c.machine (bet_submitted o.bet_id) p refl in
      rw late (record {
        pending = send-pending d (o.at expiring) _ (risk_rejected "SIGNAL_EXPIRED") k refl;
        unasked = refl;
        same_day = refl;
      })

  -- The entry of the day is reserved before the expiry of the signal is looked at.
  pub expired-IsLeft :
      (o : Outside) (round_id : String) (c : Coordinator X)
      → is_pending c.machine.state ≡ true
      → IsReserving place_live_bet d opts o c
      → expired c.last_signal_expires_at (o.at expiring) ≡ true
      → IsLeft c.executor
          (reservation place_live_bet d opts o c).0
          (try_place_bet place_live_bet d opts o round_id c).0
  expired-IsLeft o round_id c p h late =
      try_place_bet-submits place_live_bet d opts
        (IsLeft c.executor (reservation place_live_bet d opts o c).0) o round_id c h
        (submit-late o round_id _ (submitting_at place_live_bet d opts o round_id c)
          (send-pending d (o.at checking) c.machine entry_checks_passed p refl) late)
