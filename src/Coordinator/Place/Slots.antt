-- ===== src/Coordinator/Place/Slots.antt =====
-- The entry of the day under a placement (tryPlaceBet, src/betting/betting-coordinator.ts).
use crash.Prelude.{
  ℕ, String, ◌≡◌, refl, sym, subst, inl, inr, Bool, true, false, is_falsy, Bool-cases, Option, none,
  some,
}
use crash.Machine.Dates.{Dates}
use crash.Daily.Types.{Day, reserved}
use crash.Daily.Ledger.Counts.{Counted}
use crash.Daily.Ledger.Slots.{HasStatus, confirm-HasStatus, release-Counted, confirm-Counted}
use crash.Executor.Outside.{PlaceBetRequest}
use crash.Coordinator.Outside.{
  Options, Coordinator, Placing, placing_throws, is_placed, not_placed, Outside, Moment,
}
use crash.Coordinator.Place.{
  catch_placing, resolve, notify_placed, confirm_placed, confirm_slot, succeed, fail, conclude, ask,
  submit, expired,
}

-- What a placement keeps of the day, once its entry is reserved, or without a reservation.
abbrev pub Kept : String → ℕ → Bool → Day → Type 0
Kept bet max true day = Counted max day × HasStatus reserved bet day
Kept bet max false day = Counted max day

module _ {X : Type 0} (place_live_bet : PlaceBetRequest → X → X × Placing) (d : Dates)
    (opts : Options) where
  -- Resolving an outcome leaves the day alone.
  resolve-day :
      (p : Option String) (round_id : String) (crash_point target : ℕ) (executed : Bool)
      (c : Coordinator X)
      → (resolve place_live_bet d opts p round_id crash_point target executed c).day ≡ c.day
  resolve-day none round_id crash_point target executed c = refl
  resolve-day (some id) round_id crash_point target executed c =
      elim (Bool-cases (is_falsy (some id))) [ inl e ↦ rw e refl | inr e ↦ rw e refl ]

  module _ (o : Outside) (max : ℕ) where
    Kept-Counted : (b : Bool) (day : Day) → Kept o.bet_id max b day → Counted max day
    Kept-Counted true day k = k.0
    Kept-Counted false day k = k

    catch-Counted :
        (b : Bool) (reason : String) (c : Coordinator X)
        → Kept o.bet_id max b c.day
        → Counted max (catch_placing place_live_bet d opts b o reason c).day
    catch-Counted false reason c k = k
    catch-Counted true reason c k = elim (Bool-cases o.releasing_again) [
      | inl e ↦ rw e k.0
      | inr e ↦ rw e (release-Counted max reserved o.bet_id reason c.day (λ x. cc) k.1 k.0)
    ]

    fail-Counted :
        (f : Option String) (b : Bool) (reason : String) (c : Coordinator X)
        → Kept o.bet_id max b c.day
        → Counted max (fail place_live_bet d opts f b o reason c).day
    unfolding fail
    fail-Counted (some thrown) true reason c k = catch-Counted true thrown c k
    fail-Counted (some thrown) false reason c k = k
    fail-Counted none true reason c k =
        release-Counted max reserved o.bet_id reason c.day (λ x. cc) k.1 k.0
    fail-Counted none false reason c k = k

    notify-Counted :
        (f : Option String) (b : Bool) (round_id : String) (target : ℕ) (c : Coordinator X)
        → f ≡ none
        → Counted max c.day
        → Counted max (notify_placed place_live_bet d opts f b o round_id target c).day
    unfolding notify_placed
    notify-Counted (some reason) b round_id target c e k = cc
    notify-Counted none b round_id target c e k =
        subst (Counted max) (sym (resolve-day c.last_prediction_id round_id 0 target true c)) k

    confirm-keeps :
        (f : Option String) (round_id : String) (target : ℕ) (c : Coordinator X)
        → o.on_entry_confirmed ≡ none
        → Kept o.bet_id max true c.day
        → let (c', thrown) = confirm_slot place_live_bet d opts true f o c in
          Counted max (confirm_placed place_live_bet d opts thrown true o round_id target c').day
    unfolding confirm_slot confirm_placed
    confirm-keeps (some reason) round_id target c e k = catch-Counted true reason c k
    confirm-keeps none round_id target c e k = rw ((confirm-HasStatus o.bet_id c.day k.1).0) (
        notify-Counted o.on_entry_confirmed true round_id target _ e
          (confirm-Counted max o.bet_id c.day k.0))

    succeed-Counted :
        (b : Bool) (round_id : String) (target : ℕ) (c : Coordinator X)
        → o.on_entry_confirmed ≡ none
        → Kept o.bet_id max b c.day
        → Counted max (succeed place_live_bet d opts b o round_id target c).day
    unfolding succeed
    succeed-Counted true round_id target c e k = confirm-keeps o.confirming round_id target _ e k
    succeed-Counted false round_id target c e k =
        unfold confirm_slot confirm_placed in
        notify-Counted o.on_entry_confirmed false round_id target _ e k

    conclude-Counted :
        (p : Placing) (b : Bool) (round_id : String) (target : ℕ) (c : Coordinator X)
        → o.on_entry_confirmed ≡ none
        → Kept o.bet_id max b c.day
        → Counted max (conclude place_live_bet d opts p b o round_id target c).day
    unfolding conclude
    conclude-Counted (placing_throws reason) b round_id target c e k = catch-Counted b reason c k
    conclude-Counted is_placed b round_id target c e k = succeed-Counted b round_id target c e k
    conclude-Counted (not_placed error) b round_id target c e k = fail-Counted o.releasing b _ c k

    pub submit-Counted :
        (b : Bool) (round_id : String) (target : ℕ) (c : Coordinator X)
        → o.on_entry_confirmed ≡ none
        → Kept o.bet_id max b c.day
        → Counted max (submit place_live_bet d opts b o round_id target c).day
    unfolding submit ask
    submit-Counted b round_id target c e k =
        elim (Bool-cases (expired c.last_signal_expires_at (o.at Moment.expiring))) [
          | inl x ↦ rw x (Kept-Counted b c.day k)
          | inr x ↦ rw x (conclude-Counted _ b round_id target _ e k)
        ]
