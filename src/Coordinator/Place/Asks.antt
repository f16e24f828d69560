-- ===== src/Coordinator/Place/Asks.antt =====
-- When a placement asks the executor (tryPlaceBet, src/betting/betting-coordinator.ts).
use crash.Prelude.{
  remove, ℕ, String, ◌≡◌, refl, ◌∙◌, ◌⊎◌, inl, inr, ◌&&◌, Bool, true, false, not, is_falsy,
  Bool-cases, Option, none, some, false≢true, sym,
}
use crash.Machine.Types.{entry_checks_passed}
use crash.Machine.Dates.{Dates}
use crash.Executor.Outside.{PlaceBetRequest}
use crash.Coordinator.Outside.{
  Options, Coordinator, Quota, allowed, denied, Placing, placing_throws, is_placed, not_placed,
  Outside, expiring, checking,
}
use crash.Coordinator.Place.{
  release_slot, catch_placing, resolve, notify_placed, confirm_placed, confirm_slot, succeed, fail,
  conclude, ask, submit, refuse_slot, reserve_slot, prepare, check_quota, bind_executor,
  try_place_bet, reservation, request, round_target, expired, is_live, is_passive, browser_blocks,
  send,
}

-- The executor's state is as it was, or the condition holds and it is what the request makes of it.
abbrev pub Asks : {X : Type 0} → Type 0 → X → X → X → Type 0
Asks S before asked after = (after ≡ before) ⊎ (S × (after ≡ asked))

Asks-map :
    {X : Type 0} {S T : Type 0} {before asked after : X}
    → (S → T)
    → Asks S before asked after
    → Asks T before asked after
Asks-map f (inl e) = inl e
Asks-map f (inr (s, e)) = inr (f s, e)

module _ {X : Type 0} (place_live_bet : PlaceBetRequest → X → X × Placing) (d : Dates)
    (opts : Options) (o : Outside) where
  release_slot-executor :
      (b : Bool) (reason : String) (c : Coordinator X)
      → (release_slot place_live_bet d opts b o reason c).executor ≡ c.executor
  release_slot-executor true reason c = refl
  release_slot-executor false reason c = refl

  catch-executor :
      (b : Bool) (reason : String) (c : Coordinator X)
      → (catch_placing place_live_bet d opts b o reason c).executor ≡ c.executor
  catch-executor b reason c = release_slot-executor (b && not o.releasing_again) reason c

  resolve-executor :
      (p : Option String) (round_id : String) (crash_point target : ℕ) (executed : Bool)
      (c : Coordinator X)
      → (resolve place_live_bet d opts p round_id crash_point target executed c).executor
        ≡ c.executor
  resolve-executor none round_id crash_point target executed c = refl
  resolve-executor (some id) round_id crash_point target executed c =
      elim (Bool-cases (is_falsy (some id))) [ inl e ↦ rw e refl | inr e ↦ rw e refl ]

  notify-executor :
      (f : Option String) (b : Bool) (round_id : String) (target : ℕ) (c : Coordinator X)
      → (notify_placed place_live_bet d opts f b o round_id target c).executor ≡ c.executor
  unfolding notify_placed
  notify-executor none b round_id target c =
      resolve-executor c.last_prediction_id round_id 0 target true c
  notify-executor (some reason) b round_id target c = catch-executor b reason c

  confirm-executor :
      (f : Option String) (b : Bool) (round_id : String) (target : ℕ) (c : Coordinator X)
      → (confirm_placed place_live_bet d opts f b o round_id target c).executor ≡ c.executor
  unfolding confirm_placed
  confirm-executor none b round_id target c =
      notify-executor o.on_entry_confirmed b round_id target _
  confirm-executor (some reason) b round_id target c = catch-executor b reason c

  slot-executor :
      (b : Bool) (f : Option String) (c : Coordinator X)
      → (confirm_slot place_live_bet d opts b f o c).0.executor ≡ c.executor
  unfolding confirm_slot
  slot-executor false f c = refl
  slot-executor true (some reason) c = refl
  slot-executor true none c = refl

  fail-executor :
      (f : Option String) (b : Bool) (reason : String) (c : Coordinator X)
      → (fail place_live_bet d opts f b o reason c).executor ≡ c.executor
  unfolding fail
  fail-executor (some thrown) true reason c = catch-executor true thrown c
  fail-executor (some thrown) false reason c = refl
  fail-executor none b reason c = release_slot-executor b reason c

  conclude-executor :
      (p : Placing) (b : Bool) (round_id : String) (target : ℕ) (c : Coordinator X)
      → (conclude place_live_bet d opts p b o round_id target c).executor ≡ c.executor
  unfolding conclude succeed
  conclude-executor (placing_throws reason) b round_id target c = catch-executor b reason c
  conclude-executor is_placed b round_id target c =
      confirm-executor _ b round_id target _ ∙ slot-executor b o.confirming _
  conclude-executor (not_placed error) b round_id target c = fail-executor o.releasing b _ c

  -- What the executor makes of the one request.
  abbrev pub asked : String → ℕ → Coordinator X → X
  asked round_id target c =
      (place_live_bet (request place_live_bet d opts o round_id target c) c.executor).0

  submit-Asks :
      (b : Bool) (round_id : String) (target : ℕ) (c : Coordinator X)
      → Asks
          (expired c.last_signal_expires_at (o.at expiring) ≡ false)
          c.executor
          (asked round_id target c)
          (submit place_live_bet d opts b o round_id target c).executor
  unfolding submit ask
  submit-Asks b round_id target c =
      elim (Bool-cases (expired c.last_signal_expires_at (o.at expiring))) [
        | inl e ↦ rw e (inl refl)
        | inr e ↦ rw e (inr (refl, conclude-executor _ b round_id target _))
      ]

  abbrev checked : Coordinator X → Coordinator X
  checked c = record c { machine = (send d (o.at checking) c.machine entry_checks_passed).machine }

  -- An entry of the day is granted, where one is needed, and the signal has not expired.
  pub record IsTimely (c : Coordinator X) : Type 0 where
    pub in_time : expired c.last_signal_expires_at (o.at expiring) ≡ false
    pub granted :
        (opts.has_daily_ledger && is_live opts.mode) ≡ true
        → (reservation place_live_bet d opts o c).1.success ≡ true

  reserve-Asks :
      (f : Option String) (round_id : String) (target : ℕ) (c : Coordinator X)
      → Asks
          (IsTimely c)
          c.executor
          (asked round_id target c)
          (reserve_slot place_live_bet d opts f o round_id target c).0.executor
  unfolding reserve_slot refuse_slot
  reserve-Asks (some thrown) round_id target c = inl refl
  reserve-Asks none round_id target c =
      elim (Bool-cases (reservation place_live_bet d opts o c).1.success) [
        | inr e ↦ rw e (inl refl)
        | inl e ↦ rw e (
            Asks-map
              (λ (t : expired c.last_signal_expires_at (o.at expiring) ≡ false). record {
                in_time = t;
                granted = λ l. e;
              })
              (submit-Asks true round_id target
                (record c { day = (reservation place_live_bet d opts o c).0 })))
      ]

  abbrev taken : String → Coordinator X → Coordinator X
  taken round_id c = record c {
    last_cash_out_target_by_round = remove round_id c.last_cash_out_target_by_round;
  }

  prepare-Asks :
      (round_id : String) (c : Coordinator X)
      → Asks
          (IsTimely c)
          c.executor
          (asked round_id (round_target place_live_bet d opts round_id c) c)
          (prepare place_live_bet d opts o round_id c).0.executor
  unfolding prepare
  prepare-Asks round_id c = elim (Bool-cases (opts.has_daily_ledger && is_live opts.mode)) [
    | inl e ↦ rw e (
        Asks-map
          (λ (t : IsTimely (taken round_id c)). record { in_time = t.in_time; granted = t.granted })
          (reserve-Asks o.reserving round_id (round_target place_live_bet d opts round_id c)
            (taken round_id c)))
    | inr e ↦ rw e (
        Asks-map
          (λ (t : expired c.last_signal_expires_at (o.at expiring) ≡ false). record {
            in_time = t;
            granted = λ l. absurd (false≢true (sym e ∙ l));
          })
          (submit-Asks false round_id (round_target place_live_bet d opts round_id c)
            (taken round_id c)))
  ]

  -- All that the placement asks for before it asks the executor.
  pub record IsServed (c : Coordinator X) : Type 0 where
    pub active : is_passive opts.mode ≡ false
    pub unblocked : browser_blocks opts o ≡ false
    pub in_quota : o.quota ≡ allowed
    pub bound : opts.has_executor ≡ true
    pub in_time : expired c.last_signal_expires_at (o.at expiring) ≡ false
    pub granted :
        (opts.has_daily_ledger && is_live opts.mode) ≡ true
        → (reservation place_live_bet d opts o c).1.success ≡ true

  bind-Asks :
      (b : Bool) (round_id : String) (c : Coordinator X)
      → Asks
          ((b ≡ true) × IsTimely c)
          c.executor
          (asked round_id (round_target place_live_bet d opts round_id c) c)
          (bind_executor place_live_bet d opts b o round_id c).0.executor
  unfolding bind_executor
  bind-Asks false round_id c = inl refl
  bind-Asks true round_id c = Asks-map (λ (t : IsTimely c). (refl, t)) (prepare-Asks round_id c)

  quota-Asks :
      (q : Quota) (round_id : String) (c : Coordinator X)
      → Asks
          ((q ≡ allowed) × (opts.has_executor ≡ true) × IsTimely c)
          c.executor
          (asked round_id (round_target place_live_bet d opts round_id c) c)
          (check_quota place_live_bet d opts q o round_id c).0.executor
  unfolding check_quota
  quota-Asks (denied reason) round_id c = inl refl
  quota-Asks allowed round_id c =
      Asks-map (λ (t : (opts.has_executor ≡ true) × IsTimely c). (refl, t.0, t.1))
        (bind-Asks opts.has_executor round_id c)

  -- A placement asks the executor once at most, and only where the mode places bets, the browser
  -- does not block it, the quota allows it, an executor is bound, the signal has not expired and,
  -- in live mode with a ledger, an entry of the day is granted.
  pub try_place_bet-Asks :
      (round_id : String) (c : Coordinator X)
      → Asks
          (IsServed c)
          c.executor
          (asked round_id (round_target place_live_bet d opts round_id c) c)
          (try_place_bet place_live_bet d opts o round_id c).0.executor
  unfolding try_place_bet
  try_place_bet-Asks round_id c = elim (Bool-cases (is_passive opts.mode)) [
    | inl e ↦ rw e (inl refl)
    | inr e ↦ elim (Bool-cases (browser_blocks opts o)) [
      | inl f ↦ rw (e, f) (inl refl)
      | inr f ↦
          rw (e, f)
            (Asks-map
              (λ (t : (o.quota ≡ allowed) × (opts.has_executor ≡ true) × IsTimely (checked c)).
                record {
                  active = e;
                  unblocked = f;
                  in_quota = t.0;
                  bound = t.1;
                  in_time = t.2.in_time;
                  granted = t.2.granted;
                })
              (quota-Asks o.quota round_id (checked c)))
    ]
  ]
