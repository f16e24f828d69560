-- ===== src/Executor/Place/Rows.antt =====
-- The row of a bet (src/betting/live-executor.ts, src/persistence/repositories/bet-repo.ts).
use text.Mathlib.Text.{◌==◌ as str_eq}
use text.Mathlib.TextPositions.{eq_refl}
use text.Mathlib.TextEquality.{eq_iff}
use crash.Prelude.{
  ℕ, zero, suc, ◌≡◌, refl, ap, ◌∙◌, String, Bool, true, false, Bool-cases, Option, none, some,
  arith, List, [], ◌∷◌, inl, inr,
}
use crash.Idempotency.Redis as Redis
use crash.Idempotency.Redis.{Commands, Client}
use crash.Daily.Counter.{get_count}
use crash.Executor.Safeguards.{SafeguardsConfig}
use crash.Executor.Bets.{Bet, find_bet, update_bet, reserved, placed}
use crash.Executor.Place.{
  PlaceBetRequest, Meets, Outside, World, Ending, Looped, ends, escapes, attempt_placement,
  attempt_all, next, conclude, place_row, place_reserved, reserve_round, place_ordered,
  place_live_bet, mark_unknown, new_bet, as_unknown, in_state, gives, live_error, throws, timeout,
  fault, text_of, Fault, settle_placed, observe, reserve_row, click, tell, uncertain, Dom, Seen,
  observed, unseen, observation_fails, clicks, fails_before, fails_after,
}
use crash.Executor.Place.Passes.{Passes, counted, place_live_bet-eq-place_ordered}

find_bet-update_bet :
    (id k : String) (f : Bet → Bet) (bs : List Bet)
    → ((b : Bet) → (f b).id ≡ b.id)
    → str_eq k id ≡ false
    → find_bet id (update_bet k f bs) ≡ find_bet id bs
unfolding update_bet
find_bet-update_bet id k f [] h n = refl
find_bet-update_bet id k f (b ∷ bs) h n =
    let ih = find_bet-update_bet id k f bs h n in
    elim (Bool-cases (str_eq b.id k)) [
      | inl t ↦
          let q = (eq_iff b.id k).0 t in
          let u = ap (λ j. str_eq j id) (h b ∙ q) ∙ n in
          let v = ap (λ j. str_eq j id) q ∙ n in ground arith
      | inr t ↦ ground arith
    ]

module _ {S : Type 0} (redis : Commands S) (client : Client) (r : PlaceBetRequest) (id : String)
    (other : str_eq r.bet_id id ≡ false) where
  mark_unknown-find_bet :
      (t : Bool) (now : ℕ) (reason : String) (w : World S)
      → find_bet id (mark_unknown redis client r t now reason w).bets ≡ find_bet id w.bets
  unfolding mark_unknown
  mark_unknown-find_bet true now reason w = refl
  mark_unknown-find_bet false now reason w =
      find_bet-update_bet id r.bet_id (as_unknown reason) w.bets (λ b. refl) other

  tell-find_bet :
      (t : Option Fault) (w : World S)
      → find_bet id (tell redis client r t w).0.bets ≡ find_bet id w.bets
  unfolding tell
  tell-find_bet none w = refl
  tell-find_bet (some f) w = refl

  settle_placed-find_bet :
      (t : Option Fault) (m : Meets) (w : World S)
      → find_bet id (settle_placed redis client r t m w).0.bets ≡ find_bet id w.bets
  unfolding settle_placed
  settle_placed-find_bet (some f) m w = refl
  settle_placed-find_bet none m w =
      tell-find_bet m.telling _
      ∙ find_bet-update_bet id r.bet_id (in_state placed) w.bets (λ b. refl) other

  observe-find_bet :
      (v : Seen) (m : Meets) (w : World S)
      → find_bet id (observe redis client r v m w).0.bets ≡ find_bet id w.bets
  unfolding observe uncertain
  observe-find_bet observed m w = settle_placed-find_bet m.placing m w
  observe-find_bet unseen m w = mark_unknown-find_bet m.marking_throws m.now _ w
  observe-find_bet (observation_fails reason) m w =
      mark_unknown-find_bet m.marking_throws m.now reason w

  click-find_bet :
      (d : Dom) (m : Meets) (w : World S)
      → find_bet id (click redis client r d m w).0.bets ≡ find_bet id w.bets
  unfolding click
  click-find_bet fails_before m w = refl
  click-find_bet fails_after m w = refl
  click-find_bet clicks m w = observe-find_bet m.seen m (record w { clicked = suc w.clicked })

  reserve_row-find_bet :
      (t : Option Fault) (m : Meets) (w : World S)
      → find_bet id (reserve_row redis client r t m w).0.bets ≡ find_bet id w.bets
  unfolding reserve_row
  reserve_row-find_bet (some f) m w = refl
  reserve_row-find_bet none m w =
      click-find_bet m.dom m _
      ∙ find_bet-update_bet id r.bet_id (in_state reserved) w.bets (λ b. refl) other

  attempt_placement-find_bet :
      (m : Meets) (w : World S)
      → find_bet id (attempt_placement redis client r m w).0.bets ≡ find_bet id w.bets
  unfolding attempt_placement
  attempt_placement-find_bet m w = let a = reserve_row-find_bet m.reserving m w in ground arith

  next-find_bet :
      (n : ℕ) (w w' : World S) (e : Ending) (rest : World S × Looped)
      → find_bet id w'.bets ≡ find_bet id w.bets
      → find_bet id rest.0.bets ≡ find_bet id w.bets
      → find_bet id (next redis client r n (w', e) rest).0.bets ≡ find_bet id w.bets
  unfolding next
  next-find_bet n w w' (gives result) rest h k = h
  next-find_bet n w w' (throws (timeout reason)) rest h k = h
  next-find_bet n w w' (throws (fault reason)) rest h k = h
  next-find_bet n w w' live_error rest h k = k

  attempt_all-find_bet :
      (left retry : ℕ) (meets : ℕ → Meets) (w : World S)
      → find_bet id (attempt_all redis client r left retry meets w).0.bets ≡ find_bet id w.bets
  unfolding attempt_all
  attempt_all-find_bet zero retry meets w =
      let (w', e) = attempt_placement redis client r (meets retry) w in
      let h = attempt_placement-find_bet (meets retry) w in next-find_bet retry w w' e _ h h
  attempt_all-find_bet (suc left) retry meets w =
      let (w', e) = attempt_placement redis client r (meets retry) w in
      let h = attempt_placement-find_bet (meets retry) w in
      next-find_bet retry w w' e _ h (attempt_all-find_bet left (suc retry) meets w' ∙ h)

  conclude-find_bet :
      (o : Outside) (w : World S) (l : Looped)
      → find_bet id (conclude redis client r o (w, l)).0.bets ≡ find_bet id w.bets
  unfolding conclude
  conclude-find_bet o w (ends result) = refl
  conclude-find_bet o w (escapes retry f) =
      mark_unknown-find_bet o.marking_throws o.failed_at (text_of f) w

  place_row-find_bet :
      (retries : ℕ) (o : Outside) (w : World S)
      → find_bet id (place_row redis client r retries o (some id) w).0.bets
        ≡ some (new_bet redis client r id)
  unfolding place_row
  place_row-find_bet retries o w =
      let v = record w { bets = new_bet redis client r id ∷ w.bets } in
      let (w', l) = attempt_all redis client r retries 0 o.attempts v in
      let e = eq_refl id in
      conclude-find_bet o w' l ∙ attempt_all-find_bet retries 0 o.attempts v ∙ ground arith

  place_reserved-find_bet :
      (retries : ℕ) (o : Outside) (w : World S) (ok : Bool)
      → ok ≡ true
      → o.row_id ≡ some id
      → find_bet id (place_reserved redis client r retries o (w, ok)).0.bets
        ≡ some (new_bet redis client r id)
  unfolding place_reserved
  place_reserved-find_bet retries o w false k e = cc
  place_reserved-find_bet retries o w true k e =
      let v = record w { counter = (get_count o.later_key w.counter).0 } in
      ap (λ i. find_bet id (place_row redis client r retries o i v).0.bets) e
      ∙ place_row-find_bet retries o v

  place_ordered-find_bet :
      (retries : ℕ) (o : Outside) (w : World S)
      → o.client_order_id ≡ none
      → (Redis.reserve redis client o.now r.session_id r.round_id r.bet_id w.store).1 ≡ true
      → o.row_id ≡ some id
      → find_bet id (place_ordered redis client r retries o o.client_order_id w).0.bets
        ≡ some (new_bet redis client r id)
  unfolding place_ordered reserve_round
  place_ordered-find_bet retries o w q k e =
      ap (λ x. find_bet id (place_ordered redis client r retries o x w).0.bets) q
      ∙ place_reserved-find_bet retries o _ _ k e

  -- Where no settlement engine is wired, the checks of a placement pass and its round is reserved,
  -- the row that it makes is found under the identifier that the database gave it, and still
  -- PENDING, whatever came of the placement: where that identifier is not the request's own bet
  -- identifier, every later update of the row meets none.
  pub place_live_bet-leaves_pending :
      (c : SafeguardsConfig) (retries : ℕ) (o : Outside) (w : World S)
      → Passes redis client r c o w
      → o.client_order_id ≡ none
      → (Redis.reserve redis client o.now r.session_id r.round_id r.bet_id w.store).1 ≡ true
      → o.row_id ≡ some id
      → find_bet id (place_live_bet redis client r c retries o w).0.bets
        ≡ some (new_bet redis client r id)
  place_live_bet-leaves_pending c retries o w p q k e =
      ap (λ x. find_bet id x.0.bets)
        (place_live_bet-eq-place_ordered redis client r c retries o w p)
      ∙ place_ordered-find_bet retries o (counted redis client r c o w) q k e
