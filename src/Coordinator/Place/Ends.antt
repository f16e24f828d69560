-- ===== src/Coordinator/Place/Ends.antt =====
-- How a placement ends, by what the executor answers (tryPlaceBet,
-- src/betting/betting-coordinator.ts).
use crash.Prelude.{
  ℕ, String, ◌≡◌, refl, ap, ◌∙◌, inl, inr, Bool, true, false, is_falsy, Bool-cases, Option, none,
  some, get_or_else, ◌⊎◌,
}
use crash.Machine.Types.{BettingState, bet_placement_failed}
use crash.Machine.Dates.{Dates}
use crash.Machine.Guards.Entry.{IsSafeEntry}
use crash.Machine.Send.{send}
use crash.Machine.Send.Placing.{
  send_checked, send_confirmed, send_failed, send_failed-open, send_submitted,
}
use crash.Daily.Types.{Status, reserved, confirmed, released, find_entry}
use crash.Daily.Ledger.Slots.{HasStatus, reserve-HasStatus, confirm-HasStatus, release-HasStatus}
use crash.Executor.Outside.{PlaceBetRequest}
use crash.Coordinator.Outside.{
  Options, Coordinator, Placing, placing_throws, is_placed, not_placed, Outside, checking,
  submitting, expiring, ending,
}
use crash.Coordinator.Place.{
  catch_placing, resolve, notify_placed, confirm_placed, confirm_slot, succeed, fail, conclude, ask,
  submit, try_place_bet, request, round_target, expired,
}
use crash.Coordinator.Place.Reserved.{IsReserving, submitting_at, try_place_bet-submits}

-- The state of the machine and the status of the entry of the day, by what the executor answers
-- and what the callback of a confirmed entry throws.
abbrev pub end_state : Placing → BettingState
end_state is_placed = BettingState.bet_active
end_state _ = BettingState.error

abbrev pub end_status : Placing → Option String → Status
end_status is_placed none = confirmed
end_status _ _ = released

-- The ledger answers a confirmation and a release.
pub record IsAnswering (o : Outside) : Type 0 where
  pub confirms : o.confirming ≡ none
  pub releases : o.releasing ≡ none
  pub releases_again : o.releasing_again ≡ false

module _ {X : Type 0} (place_live_bet : PlaceBetRequest → X → X × Placing) (d : Dates)
    (opts : Options) (o : Outside) where
  -- The coordinator ends in a state of the machine, with an entry of the bet in a status, and with
  -- what the executor has made of its own state.
  pub record IsEnd (s : BettingState) (t : Status) (x : X) (c : Coordinator X) : Type 0 where
    pub state : c.machine.state ≡ s
    pub slot : HasStatus t o.bet_id c.day
    pub executor : c.executor ≡ x

  catch-IsEnd :
      (s : Status) (reason : String) (c : Coordinator X)
      → o.releasing_again ≡ false
      → (s ≡ reserved) ⊎ (s ≡ confirmed)
      → HasStatus s o.bet_id c.day
      → (state : BettingState)
      → (send d (o.at ending) c.machine (bet_placement_failed reason)).machine.state ≡ state
      → IsEnd state released c.executor (catch_placing place_live_bet d opts true o reason c)
  catch-IsEnd s reason c r e h state k =
      rw r (record {
        state = k;
        slot = release-HasStatus s o.bet_id reason c.day e h;
        executor = refl;
      })

  resolve-IsEnd :
      (p : Option String) (round_id : String) (crash_point target : ℕ) (executed : Bool)
      (s : BettingState) (t : Status) (x : X) (c : Coordinator X)
      → IsEnd s t x c
      → IsEnd s t x (resolve place_live_bet d opts p round_id crash_point target executed c)
  resolve-IsEnd none round_id crash_point target executed s t x c h = h
  resolve-IsEnd (some id) round_id crash_point target executed s t x c h =
      elim (Bool-cases (is_falsy (some id))) [
        | inl e ↦ rw e h
        | inr e ↦ rw e (record { state = h.state; slot = h.slot; executor = h.executor })
      ]

  notify-IsEnd :
      (f : Option String) (round_id : String) (target : ℕ) (c : Coordinator X)
      → IsAnswering o
      → IsEnd BettingState.bet_active confirmed c.executor c
      → IsEnd BettingState.bet_active
          (end_status is_placed f)
          c.executor
          (notify_placed place_live_bet d opts f true o round_id target c)
  unfolding notify_placed
  notify-IsEnd none round_id target c a h =
      resolve-IsEnd c.last_prediction_id round_id 0 target true BettingState.bet_active confirmed
        c.executor c h
  notify-IsEnd (some reason) round_id target c a h =
      catch-IsEnd confirmed reason c a.releases_again (inr refl) h.slot BettingState.bet_active
        (ap (λ m. m.state) (send_failed-open d (o.at ending) c.machine reason h.state) ∙ h.state)

  confirm-IsEnd :
      (f : Option String) (round_id : String) (target : ℕ) (c : Coordinator X)
      → f ≡ none
      → IsAnswering o
      → c.machine.state ≡ BettingState.bet_placing
      → HasStatus reserved o.bet_id c.day
      → let (c', thrown) = confirm_slot place_live_bet d opts true f o c in
        IsEnd BettingState.bet_active
          (end_status is_placed o.on_entry_confirmed)
          c.executor
          (confirm_placed place_live_bet d opts thrown true o round_id target c')
  unfolding confirm_slot confirm_placed
  confirm-IsEnd (some thrown) round_id target c f a e h = cc
  confirm-IsEnd none round_id target c f a e h =
      let (fine, k) = confirm-HasStatus o.bet_id c.day h in
      rw fine (
        notify-IsEnd o.on_entry_confirmed round_id target _ a (record {
          state = (send_confirmed d (o.at ending) c.machine o.bet_id e).0;
          slot = k;
          executor = refl;
        }))

  succeed-IsEnd :
      (round_id : String) (target : ℕ) (c : Coordinator X)
      → IsAnswering o
      → c.machine.state ≡ BettingState.bet_placing
      → HasStatus reserved o.bet_id c.day
      → IsEnd BettingState.bet_active
          (end_status is_placed o.on_entry_confirmed)
          c.executor
          (succeed place_live_bet d opts true o round_id target c)
  unfolding succeed
  succeed-IsEnd round_id target c a e h =
      confirm-IsEnd o.confirming round_id target _ a.confirms a e h

  fail-IsEnd :
      (f : Option String) (reason : String) (c : Coordinator X)
      → f ≡ none
      → c.machine.state ≡ BettingState.bet_placing
      → HasStatus reserved o.bet_id c.day
      → IsEnd BettingState.error released c.executor (fail place_live_bet d opts f true o reason c)
  unfolding fail
  fail-IsEnd (some thrown) reason c r e h = cc
  fail-IsEnd none reason c r e h = record {
    state = send_failed d (o.at ending) c.machine reason e;
    slot = release-HasStatus reserved o.bet_id reason c.day (inl refl) h;
    executor = refl;
  }

  conclude-IsEnd :
      (p : Placing) (round_id : String) (target : ℕ) (c : Coordinator X)
      → IsAnswering o
      → c.machine.state ≡ BettingState.bet_placing
      → HasStatus reserved o.bet_id c.day
      → IsEnd
          (end_state p)
          (end_status p o.on_entry_confirmed)
          c.executor
          (conclude place_live_bet d opts p true o round_id target c)
  unfolding conclude
  conclude-IsEnd (placing_throws reason) round_id target c a e h =
      catch-IsEnd reserved reason c a.releases_again (inl refl) h BettingState.error
        (send_failed d (o.at ending) c.machine reason e)
  conclude-IsEnd is_placed round_id target c a e h = succeed-IsEnd round_id target c a e h
  conclude-IsEnd (not_placed error) round_id target c a e h =
      fail-IsEnd o.releasing _ c a.releases e h

  submit-IsEnd :
      (round_id : String) (target : ℕ) (c : Coordinator X)
      → IsAnswering o
      → expired c.last_signal_expires_at (o.at expiring) ≡ false
      → c.machine.state ≡ BettingState.bet_placing
      → HasStatus reserved o.bet_id c.day
      → let (x, p) =
          place_live_bet (request place_live_bet d opts o round_id target c) c.executor in
        IsEnd
          (end_state p)
          (end_status p o.on_entry_confirmed)
          x
          (submit place_live_bet d opts true o round_id target c)
  unfolding submit ask
  submit-IsEnd round_id target c a late e h = rw (late) (
      conclude-IsEnd _ round_id target _ a
        (ap (λ m. m.state) (send_submitted d (o.at submitting) c.machine o.bet_id e) ∙ e) h)

  -- A live placement that is granted an entry of the day, of a safe entry whose signal has not
  -- expired, asks the executor once and ends by its answer: a placed bet is active and its entry
  -- is confirmed, or released all the same where the callback of the entry throws; any other answer
  -- is an error of the machine and releases the entry. The ledger is taken to answer.
  pub try_place_bet-IsEnd :
      (round_id : String) (c : Coordinator X)
      → IsReserving place_live_bet d opts o c
      → IsAnswering o
      → find_entry o.bet_id c.day.entries ≡ none
      → expired c.last_signal_expires_at (o.at expiring) ≡ false
      → c.machine.state ≡ BettingState.entry_approved
      → IsSafeEntry d (o.at checking) c.machine.context none
      → let target = round_target place_live_bet d opts round_id c in
        let (x, p) =
          place_live_bet (request place_live_bet d opts o round_id target c) c.executor in
        IsEnd
          (end_state p)
          (end_status p o.on_entry_confirmed)
          x
          (try_place_bet place_live_bet d opts o round_id c).0
  try_place_bet-IsEnd round_id c h a fresh late e s =
      let target = round_target place_live_bet d opts round_id c in
      let (x, p) = place_live_bet (request place_live_bet d opts o round_id target c) c.executor in
      try_place_bet-submits place_live_bet d opts
        (IsEnd (end_state p) (end_status p o.on_entry_confirmed) x) o round_id c h
        (submit-IsEnd round_id target (submitting_at place_live_bet d opts o round_id c) a late
          (send_checked d (o.at checking) c.machine e s)
          (reserve-HasStatus opts.max_daily_entries o.bet_id (get_or_else c.session_id "unknown")
            c.day fresh h.granted))
