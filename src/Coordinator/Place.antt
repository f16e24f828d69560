-- ===== src/Coordinator/Place.antt =====
-- The method `tryPlaceBet` of src/betting/betting-coordinator.ts. The executor is a parameter: what
-- a request does to its state, and what comes of it.
pub mod Slots
pub mod Reserved
pub mod Ends
pub mod Asks
pub mod Limit
pub mod Stranded
use crash.Prelude.{
  ℕ, String, Bool, true, false, not, ◌&&◌, ltb, is_falsy, is_some, if◌then◌else◌, get_or_else, ◌∷◌,
  Option, none, some, lookup, remove,
}
use crash.Machine.Types.{
  Event, entry_checks_passed, bet_submitted, bet_confirmed, bet_placement_failed, risk_rejected,
}
use crash.Machine.Dates.{Dates}
use crash.Machine.Send.{send}
use crash.Daily.Types.{Reservation, Day}
use crash.Daily.Ledger.{LedgerError, reserve, confirm, release}
use crash.Risk.Breaker.{record_success, record_failure}
use crash.Risk.Engine.{Mode, observe_only, dry_run, live, maintenance}
use crash.Executor.Outside.{PlaceBetRequest}
use crash.Coordinator.Browser.{
  assert_browser_policy_for_live, resolve_browser_product_mode, is_remote,
}
use crash.Coordinator.Browser.Health.{is_open}
use crash.Coordinator.Outside.{
  Options, outcome_resolved, Coordinator, Quota, allowed, denied, Placing, placing_throws,
  is_placed, not_placed, Moment, checking, submitting, expiring, ending, Outside,
}

abbrev pub is_live : Mode → Bool
is_live live = true
is_live _ = false

abbrev pub is_dry : Mode → Bool
is_dry dry_run = true
is_dry _ = false

-- The modes without live placement.
abbrev pub is_passive : Mode → Bool
is_passive observe_only = true
is_passive maintenance = true
is_passive _ = false

-- In live mode the browser's policy must not throw, nor the worker's circuit be open.
abbrev pub browser_blocks : Options → Outside → Bool
browser_blocks opts o =
    is_live opts.mode
    && (if is_some (assert_browser_policy_for_live o.environment)
        then true
        else is_remote (resolve_browser_product_mode o.environment)
          && is_open (o.at checking) o.worker)

-- A signal whose expiry lies in the past.
abbrev pub expired : Option ℕ → ℕ → Bool
expired none now = false
expired (some t) now = ltb t now

module _ {X : Type 0} (place_live_bet : PlaceBetRequest → X → X × Placing) (d : Dates)
    (opts : Options) where
  abbrev pub tell : Event → Moment → Outside → Coordinator X → Coordinator X
  tell e m o c = record c { machine = (send d (o.at m) c.machine e).machine }

  abbrev pub release_slot : Bool → Outside → String → Coordinator X → Coordinator X
  release_slot reserved o reason c =
      if reserved then record c { day = release o.bet_id reason c.day } else c

  -- The `catch` of the placement; what a second release throws is logged.
  abbrev pub catch_placing : Bool → Outside → String → Coordinator X → Coordinator X
  catch_placing reserved o reason c =
      tell (bet_placement_failed reason) ending o
        (release_slot (reserved && not o.releasing_again) o reason c)

  abbrev pub resolve : Option String → String → ℕ → ℕ → Bool → Coordinator X → Coordinator X
  resolve none round_id crash_point target executed c = c
  resolve (some id) round_id crash_point target executed c =
      if is_falsy (some id)
      then c
      else record c { told = outcome_resolved id round_id crash_point target executed ∷ c.told }

  notify_placed : Option String → Bool → Outside → String → ℕ → Coordinator X → Coordinator X
  notify_placed (some reason) reserved o round_id target c = catch_placing reserved o reason c
  notify_placed none reserved o round_id target c =
      resolve c.last_prediction_id round_id 0 target true c

  -- From `BET_CONFIRMED` on.
  confirm_placed : Option String → Bool → Outside → String → ℕ → Coordinator X → Coordinator X
  unfolding notify_placed
  confirm_placed (some reason) reserved o round_id target c = catch_placing reserved o reason c
  confirm_placed none reserved o round_id target c =
      notify_placed o.on_entry_confirmed reserved o round_id target
        (tell (bet_confirmed o.bet_id) ending o c)

  -- What `confirm` throws: an error of the database, or its own.
  abbrev pub thrown_text : Outside → Option LedgerError → Option String
  thrown_text o none = none
  thrown_text o (some e) = some (o.ledger_text e)

  confirm_slot : Bool → Option String → Outside → Coordinator X → Coordinator X × Option String
  confirm_slot false f o c = (c, none)
  confirm_slot true (some reason) o c = (c, some reason)
  confirm_slot true none o c =
      let (day, e) = confirm o.bet_id c.day in (record c { day = day }, thrown_text o e)

  succeed : Bool → Outside → String → ℕ → Coordinator X → Coordinator X
  unfolding confirm_placed confirm_slot
  succeed reserved o round_id target c =
      let (c', thrown) =
        confirm_slot reserved o.confirming o
          (record c { breaker = (record_success c.breaker).breaker }) in
      confirm_placed thrown reserved o round_id target c'

  -- The placement has not gone through; the release comes first, and may throw.
  fail : Option String → Bool → Outside → String → Coordinator X → Coordinator X
  fail (some thrown) true o reason c = catch_placing true o thrown c
  fail _ reserved o reason c =
      let c' = release_slot reserved o reason c in
      tell (bet_placement_failed reason) ending o
        (record c' { breaker = (record_failure (o.at ending) c'.breaker).breaker })

  conclude : Placing → Bool → Outside → String → ℕ → Coordinator X → Coordinator X
  unfolding succeed fail
  conclude (placing_throws reason) reserved o round_id target c = catch_placing reserved o reason c
  conclude is_placed reserved o round_id target c = succeed reserved o round_id target c
  conclude (not_placed error) reserved o round_id target c =
      fail o.releasing reserved o (get_or_else error "placement failed") c

  abbrev pub request : Outside → String → ℕ → Coordinator X → PlaceBetRequest
  request o round_id target c = record {
    bet_id = o.bet_id;
    round_id = round_id;
    session_id = get_or_else c.session_id "unknown";
    stake = get_or_else opts.stake_per_entry 70000;
    target = target;
    dry_run = is_dry opts.mode;
  }

  -- The executor is asked.
  unfoldable pub ask : Bool → Outside → String → ℕ → Coordinator X → Coordinator X
  unfolding conclude
  ask reserved o round_id target c =
      let (x, p) = place_live_bet (request o round_id target c) c.executor in
      conclude p reserved o round_id target (record c { executor = x })

  -- From `BET_SUBMITTED` on: the signal may have expired.
  unfoldable pub submit : Bool → Outside → String → ℕ → Coordinator X → Coordinator X
  submit reserved o round_id target c =
      let c' = tell (bet_submitted o.bet_id) submitting o c in
      if expired c'.last_signal_expires_at (o.at expiring)
      then tell (risk_rejected "SIGNAL_EXPIRED") expiring o c'
      else ask reserved o round_id target c'

  abbrev pub reservation : Outside → Coordinator X → Day × Reservation
  reservation o c =
      reserve opts.max_daily_entries o.bet_id (get_or_else c.session_id "unknown") c.day

  refuse_slot : Outside → Coordinator X → Coordinator X
  refuse_slot o c =
      tell (bet_placement_failed (get_or_else o.reservation_text "daily_limit_reservation_failed"))
        submitting o c

  -- The reservation of an entry of the day. The second part is what escapes to the caller.
  reserve_slot :
      Option String → Outside → String → ℕ → Coordinator X → Coordinator X × Option String
  unfolding submit refuse_slot
  reserve_slot (some thrown) o round_id target c = (c, some thrown)
  reserve_slot none o round_id target c =
      let (day, r) = reservation o c in
      if not r.success
      then (refuse_slot o (record c { day = day }), none)
      else (submit true o round_id target (record c { day = day }), none)

  abbrev pub round_target : String → Coordinator X → ℕ
  round_target round_id c =
      get_or_else (lookup round_id c.last_cash_out_target_by_round) c.last_cash_out_target

  prepare : Outside → String → Coordinator X → Coordinator X × Option String
  unfolding submit reserve_slot
  prepare o round_id c =
      let target = round_target round_id c in
      let c' = record c {
        last_cash_out_target_by_round = remove round_id c.last_cash_out_target_by_round;
      } in
      if opts.has_daily_ledger && is_live opts.mode
      then reserve_slot o.reserving o round_id target c'
      else (submit false o round_id target c', none)

  -- `if (!this.liveBetExecutor)`.
  bind_executor : Bool → Outside → String → Coordinator X → Coordinator X × Option String
  unfolding prepare
  bind_executor false o round_id c = (c, none)
  bind_executor true o round_id c = prepare o round_id c

  check_quota : Quota → Outside → String → Coordinator X → Coordinator X × Option String
  unfolding bind_executor
  check_quota (denied reason) o round_id c =
      (tell (bet_placement_failed (get_or_else reason "tenant_quota_denied")) checking o c, none)
  check_quota allowed o round_id c = bind_executor opts.has_executor o round_id c

  -- The coordinator after the method, and what the method throws, if anything.
  unfoldable pub try_place_bet : Outside → String → Coordinator X → Coordinator X × Option String
  unfolding check_quota
  try_place_bet o round_id c =
      if is_passive opts.mode
      then (c, none)
      else if browser_blocks opts o
      then (c, none)
      else check_quota o.quota o round_id (tell entry_checks_passed checking o c)
