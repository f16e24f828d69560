-- ===== src/Coordinator/Round/Strands.antt =====
-- Entries that are approved and then left: the machine stays on the way to a bet, and no later
-- round moves it (src/betting/betting-coordinator.ts).
use crash.Prelude.{
  ℕ, String, ◌≡◌, refl, true, Bool-cases, inl, inr, is_falsy, List, [], ◌∷◌, Option, none, some,
}
use crash.Machine.Types.{BettingState, RoundState, round_started, round_crashed}
use crash.Machine.Dates.{Dates}
use crash.Daily.Types.{Day}
use crash.Executor.Outside.{PlaceBetRequest}
use crash.Coordinator.Outside.{Options, Coordinator, Placing, starting, expiring, Outside}
use crash.Coordinator.Place.{try_place_bet, reservation}
use crash.Coordinator.Place.Stranded.{IsLeft, IsUnserved, unserved-IsLeft, expired-IsLeft}
use crash.Coordinator.Round.{
  evaluate_entry, on_round_started, suspended, resolve_crash, on_round_crashed, Op, starts, crashes,
  step, run,
}
use crash.Machine.Send.Pending.{send-pending, send_start-pending}
use crash.Coordinator.Place.Reserved.{IsReserving}
use crash.Coordinator.Place.{expired}

module _ {X : Type 0} (place_live_bet : PlaceBetRequest → X → X × Placing) (d : Dates)
    (opts : Options) where
  evaluate-IsLeft :
      (x : X) (day : Day) (o : Outside) (round_id : String) (r : RoundState) (c : Coordinator X)
      → IsLeft x day c
      → IsLeft x day (evaluate_entry place_live_bet d opts o round_id r c)
  unfolding evaluate_entry
  evaluate-IsLeft x day o round_id r c h =
      rw (send_start-pending d (o.at starting) c.machine round_id r h.pending) (record {
        pending =
            send-pending d (o.at starting) c.machine (round_started round_id r) h.pending refl;
        unasked = h.unasked;
        same_day = h.same_day;
      })

  started-IsLeft :
      (x : X) (day : Day) (o : Outside) (round_id : String) (r : RoundState) (c : Coordinator X)
      → IsLeft x day c
      → IsLeft x day (on_round_started place_live_bet d opts o round_id r c)
  unfolding on_round_started
  started-IsLeft x day o round_id r c h = elim (Bool-cases c.evaluating) [
    | inl a ↦ rw a (record { pending = h.pending; unasked = h.unasked; same_day = h.same_day })
    | inr a ↦ elim (Bool-cases (suspended c.sheath)) [
      | inl b ↦
          rw (a, b) (record { pending = h.pending; unasked = h.unasked; same_day = h.same_day })
      | inr b ↦
          let k =
            evaluate-IsLeft x day o round_id r (record c { evaluating = true })
              (record { pending = h.pending; unasked = h.unasked; same_day = h.same_day }) in
          rw (a, b) (record { pending = k.pending; unasked = k.unasked; same_day = k.same_day })
    ]
  ]

  resolve_crash-IsLeft :
      (x : X) (day : Day) (p : Option String) (round_id : String) (crash_point : ℕ)
      (c : Coordinator X)
      → IsLeft x day c
      → IsLeft x day (resolve_crash place_live_bet d opts p round_id crash_point c)
  unfolding resolve_crash
  resolve_crash-IsLeft x day none round_id crash_point c h = h
  resolve_crash-IsLeft x day (some id) round_id crash_point c h =
      elim (Bool-cases (is_falsy (some id))) [
        | inl e ↦ rw e h
        | inr e ↦ rw e (record { pending = h.pending; unasked = h.unasked; same_day = h.same_day })
      ]

  step-IsLeft :
      (x : X) (day : Day) (c : Coordinator X) (op : Op place_live_bet d opts)
      → IsLeft x day c
      → IsLeft x day (step place_live_bet d opts c op)
  unfolding step on_round_crashed
  step-IsLeft x day c (starts o round_id r) h = started-IsLeft x day o round_id r c h
  step-IsLeft x day c (crashes now round_id crash_point) h =
      resolve_crash-IsLeft x day _ round_id crash_point _ (record {
        pending = send-pending d now c.machine (round_crashed crash_point) h.pending refl;
        unasked = h.unasked;
        same_day = h.same_day;
      })

  run-IsLeft :
      (x : X) (day : Day) (c : Coordinator X) (ops : List (Op place_live_bet d opts))
      → IsLeft x day c
      → IsLeft x day (run place_live_bet d opts c ops)
  unfolding run
  run-IsLeft x day c [] h = h
  run-IsLeft x day c (op ∷ ops) h =
      run-IsLeft x day (step place_live_bet d opts c op) ops (step-IsLeft x day c op h)

  -- Where an approved entry meets no executor, the machine stays in ENTRY_APPROVED or BET_PLACING,
  -- and it stays there over every later history of rounds, none of which asks an executor or
  -- reserves an entry of the day.
  pub unserved-strands :
      (o : Outside) (round_id : String) (c : Coordinator X) (ops : List (Op place_live_bet d opts))
      → c.machine.state ≡ BettingState.entry_approved
      → IsUnserved place_live_bet d opts o
      → IsLeft c.executor c.day
          (run place_live_bet d opts (try_place_bet place_live_bet d opts o round_id c).0 ops)
  unserved-strands o round_id c ops e u =
      run-IsLeft c.executor c.day _ ops
        (unserved-IsLeft place_live_bet d opts o round_id c (rw e refl) u)

  -- Where the signal of an approved entry has expired by the time of its placement, in live mode
  -- with a ledger, the entry of the day that was reserved for it stays reserved and the machine
  -- stays in ENTRY_APPROVED or BET_PLACING, over every later history of rounds.
  pub expired-strands :
      (o : Outside) (round_id : String) (c : Coordinator X) (ops : List (Op place_live_bet d opts))
      → c.machine.state ≡ BettingState.entry_approved
      → IsReserving place_live_bet d opts o c
      → expired c.last_signal_expires_at (o.at expiring) ≡ true
      → IsLeft c.executor
          (reservation place_live_bet d opts o c).0
          (run place_live_bet d opts (try_place_bet place_live_bet d opts o round_id c).0 ops)
  expired-strands o round_id c ops e u late =
      run-IsLeft c.executor _ _ ops
        (expired-IsLeft place_live_bet d opts o round_id c (rw e refl) u late)
