-- ===== src/Executor/Place/Clicks.antt =====
-- When the bet button is clicked, and how often (src/betting/live-executor.ts).
use crash.Prelude.{
  ℕ, zero, suc, ◌+◌, ◌≤◌, ◌≡◌, ◌≢◌, refl, String, Bool, true, false, Option, none, some, arith, ◌∷◌,
}
use crash.Capital.Limits as Limits
use crash.Capital.Limits.{can_place_bet}
use crash.Settlement.Engine as Engine
use crash.Idempotency.Redis as Redis
use crash.Idempotency.Redis.{Commands, Client}
use crash.Executor.Gate.{real_execution_block_reason, BlockReason}
use crash.Executor.Safeguards.{SafeguardsConfig, check_pre_flight, Refusal}
use crash.Executor.Place.{
  PlaceBetRequest, Meets, Outside, World, live_error, Looped, ends, escapes, fails_after,
  attempt_placement, attempt_all, next, conclude, place_row, place_reserved, reserve_round,
  place_booked, place_ordered, bet_rows, place_allowed, place_checked, place_unblocked,
  place_live_bet, mark_unknown, new_bet, get_count, order_intent, place_running, place_present,
}

module _ {S : Type 0} (redis : Commands S) (client : Client) (r : PlaceBetRequest) where
  -- An attempt clicks at most once, and not at all where it fails before the click.
  attempt_placement-clicked :
      (m : Meets) (w : World S)
      → let (w', e) = attempt_placement redis client r m w in
        (w'.clicked ≤ suc w.clicked)
        × (e ≡ live_error → m.dom ≢ fails_after → w'.clicked ≡ w.clicked)
  unfolding attempt_placement mark_unknown
  attempt_placement-clicked m w = (ground arith, λ e d. ground arith)

  -- The bounds on the clicks of a loop, or of a placement, with some retries.
  abbrev pub Bounded : ℕ → (ℕ → Meets) → ℕ → ℕ → Type 0
  Bounded retries meets before after =
      (after ≤ before + suc retries)
      × (((i : ℕ) → (meets i).dom ≢ fails_after) → after ≤ suc before)

  attempt_all-Bounded :
      (left retry : ℕ) (meets : ℕ → Meets) (w : World S)
      → Bounded left meets w.clicked (attempt_all redis client r left retry meets w).0.clicked
  unfolding attempt_all next
  attempt_all-Bounded zero retry meets w =
      let a = attempt_placement-clicked (meets retry) w in (ground arith, λ n. ground arith)
  attempt_all-Bounded (suc left) retry meets w =
      let (w', e) = attempt_placement redis client r (meets retry) w in
      let (a, b) = attempt_placement-clicked (meets retry) w in
      let (c, d) = attempt_all-Bounded left (suc retry) meets w' in
      (ground arith, λ n. let x = n retry in let y = d n in ground arith)

  conclude-clicked :
      (o : Outside) (w : World S) (l : Looped)
      → (conclude redis client r o (w, l)).0.clicked ≡ w.clicked
  unfolding conclude mark_unknown
  conclude-clicked o w (ends result) = refl
  conclude-clicked o w (escapes retry f) = ground arith

  place_row-Bounded :
      (retries : ℕ) (o : Outside) (id : Option String) (w : World S)
      → Bounded retries o.attempts w.clicked (place_row redis client r retries o id w).0.clicked
  unfolding place_row
  place_row-Bounded retries o none w = (omega arith, λ n. omega arith)
  place_row-Bounded retries o (some id) w =
      let v = record w { bets = new_bet redis client r id ∷ w.bets } in
      let (w', l) = attempt_all redis client r retries 0 o.attempts v in
      let q = conclude-clicked o w' l in
      let (a, b) = attempt_all-Bounded retries 0 o.attempts v in
      (omega arith, λ n. let c = b n in omega arith)

  -- The bounds, and a condition of every click.
  abbrev Gated : ℕ → (ℕ → Meets) → Type 0 → ℕ → ℕ → Type 0
  Gated retries meets P before after = Bounded retries meets before after × (after ≢ before → P)

  unclicked : (retries : ℕ) (meets : ℕ → Meets) (P : Type 0) (n : ℕ) → Gated retries meets P n n
  unclicked retries meets P n = ((omega arith, λ d. omega arith), λ d. absurd (d refl))

  place_reserved-Gated :
      (retries : ℕ) (o : Outside) (w : World S) (ok : Bool)
      → Gated retries o.attempts
          (ok ≡ true)
          w.clicked
          (place_reserved redis client r retries o (w, ok)).0.clicked
  unfolding place_reserved
  place_reserved-Gated retries o w false = unclicked retries o.attempts (false ≡ true) w.clicked
  place_reserved-Gated retries o w true =
      let v = record w { counter = (get_count o.later_key w.counter).0 } in
      (place_row-Bounded retries o o.row_id v, λ d. refl)

  -- The reservation of the round succeeds.
  abbrev pub Reserves : Outside → World S → Type 0
  Reserves o w =
      (Redis.reserve redis client o.now r.session_id r.round_id r.bet_id w.store).1 ≡ true

  place_booked-Gated :
      (retries : ℕ) (o : Outside) (cid : String) (b : Engine.Outcome ℕ) (w : World S)
      → Gated retries o.attempts
          (Reserves o w)
          w.clicked
          (place_booked redis client r retries o cid b w).0.clicked
  unfolding place_booked reserve_round
  place_booked-Gated retries o cid (Engine.thrown db e) w =
      unclicked retries o.attempts (Reserves o w) w.clicked
  place_booked-Gated retries o cid (Engine.committed db id) w =
      let v = record w { books = Engine.mark_dispatched db cid } in
      place_reserved-Gated retries o (reserve_round redis client r o v).0
        (reserve_round redis client r o v).1
  place_booked-Gated retries o cid (Engine.rolled_back db id) w =
      let v = record w { books = Engine.mark_dispatched db cid } in
      place_reserved-Gated retries o (reserve_round redis client r o v).0
        (reserve_round redis client r o v).1

  place_ordered-Gated :
      (retries : ℕ) (o : Outside) (cid : Option String) (w : World S)
      → Gated retries o.attempts
          (Reserves o w)
          w.clicked
          (place_ordered redis client r retries o cid w).0.clicked
  unfolding place_ordered reserve_round
  place_ordered-Gated retries o none w =
      place_reserved-Gated retries o (reserve_round redis client r o w).0
        (reserve_round redis client r o w).1
  place_ordered-Gated retries o (some cid) w =
      place_booked-Gated retries o cid
        (Engine.create_order_intent (bet_rows redis client r w.bets) w.books
          (order_intent redis client r cid))
        w

  place_allowed-Gated :
      (retries : ℕ) (o : Outside) (c : Option Limits.Reason) (w : World S)
      → Gated retries o.attempts
          ((c ≡ none) × Reserves o w)
          w.clicked
          (place_allowed redis client r retries o c w).0.clicked
  unfolding place_allowed
  place_allowed-Gated retries o (some reason) w =
      unclicked retries o.attempts ((some reason ≡ none) × Reserves o w) w.clicked
  place_allowed-Gated retries o none w =
      let (a, d) = place_ordered-Gated retries o o.client_order_id w in (a, λ x. (refl, d x))

  place_checked-Gated :
      (retries : ℕ) (o : Outside) (f : Option Refusal) (w : World S)
      → Gated retries o.attempts
          ((f ≡ none) × (can_place_bet r.stake w.guard ≡ none) × Reserves o w)
          w.clicked
          (place_checked redis client r retries o f w).0.clicked
  unfolding place_checked
  place_checked-Gated retries o (some f) w = unclicked retries o.attempts _ w.clicked
  place_checked-Gated retries o none w =
      let (a, d) = place_allowed-Gated retries o (can_place_bet r.stake w.guard) w in
      (a, λ x. let (p, q) = d x in (refl, p, q))

  -- What holds whenever the bet button is clicked.
  pub record IsCleared (c : SafeguardsConfig) (o : Outside) (w : World S) : Type 0 where
    pub running : w.stopped ≡ false
    pub unblocked : real_execution_block_reason o.environment r.dry_run ≡ none
    pub selectors : o.selectors_present ≡ true
    pub pre_flight : (check_pre_flight c o.day_key o.tracker r.stake o.history w.counter).1 ≡ none
    pub capital : can_place_bet r.stake w.guard ≡ none
    pub reserves : Reserves o w

  place_present-Gated :
      (c : SafeguardsConfig) (retries : ℕ) (o : Outside) (b : Bool) (w : World S)
      → w.stopped ≡ false
      → real_execution_block_reason o.environment r.dry_run ≡ none
      → o.selectors_present ≡ b
      → Gated retries o.attempts
          (IsCleared c o w)
          w.clicked
          (place_present redis client r c retries o b w).0.clicked
  unfolding place_present
  place_present-Gated c retries o false w s e t =
      unclicked retries o.attempts (IsCleared c o w) w.clicked
  place_present-Gated c retries o true w s e t =
      let (counter, f) = check_pre_flight c o.day_key o.tracker r.stake o.history w.counter in
      let (a, d) = place_checked-Gated retries o f (record w { counter = counter }) in
      (
        a,
        λ x.
            let (p, q, z) = d x in
            record {
              running = s;
              unblocked = e;
              selectors = t;
              pre_flight = p;
              capital = q;
              reserves = z;
            },
      )

  place_unblocked-Gated :
      (c : SafeguardsConfig) (retries : ℕ) (o : Outside) (b : Option BlockReason) (w : World S)
      → w.stopped ≡ false
      → real_execution_block_reason o.environment r.dry_run ≡ b
      → Gated retries o.attempts
          (IsCleared c o w)
          w.clicked
          (place_unblocked redis client r c retries o b w).0.clicked
  unfolding place_unblocked
  place_unblocked-Gated c retries o (some b) w s e =
      unclicked retries o.attempts (IsCleared c o w) w.clicked
  place_unblocked-Gated c retries o none w s e =
      place_present-Gated c retries o o.selectors_present w s e refl

  place_running-Gated :
      (c : SafeguardsConfig) (retries : ℕ) (o : Outside) (b : Bool) (w : World S)
      → w.stopped ≡ b
      → Gated retries o.attempts
          (IsCleared c o w)
          w.clicked
          (place_running redis client r c retries o b w).0.clicked
  unfolding place_running
  place_running-Gated c retries o true w s =
      unclicked retries o.attempts (IsCleared c o w) w.clicked
  place_running-Gated c retries o false w s =
      place_unblocked-Gated c retries o (real_execution_block_reason o.environment r.dry_run) w s
        refl

  -- A placement clicks the bet button only where every check has passed: the executor is not
  -- stopped, real execution is allowed, the selectors are there, the checks before the placement
  -- and the guard of the capital approve, and the round has been reserved. It clicks once at most,
  -- if no attempt fails after its click, and at most once more than the retries else.
  pub place_live_bet-clicked :
      (c : SafeguardsConfig) (retries : ℕ) (o : Outside) (w : World S)
      → let w' = (place_live_bet redis client r c retries o w).0 in
        Bounded retries o.attempts w.clicked w'.clicked × (w'.clicked ≢ w.clicked → IsCleared c o w)
  unfolding place_live_bet
  place_live_bet-clicked c retries o w = place_running-Gated c retries o w.stopped w refl
