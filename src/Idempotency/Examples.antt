-- ===== src/Idempotency/Examples.antt =====
-- The theorems about reservations at concrete inputs (src/betting/idempotency.ts).
use crash.Prelude.{◌≡◌, refl, false, [], ◌∷◌, arith}
use crash.Idempotency.Redis.{reserve, mark_unknown, reservation, redis_key}
use crash.Idempotency.Redis.Reserved.{mark_unknown-blocks}
use crash.Idempotency.Local.{no_dates, Kept, live, local, local-Laws, client}
use crash.Idempotency.Memory as Memory
use crash.Idempotency.Memory.Reserved.{reserve-once}

abbrev reserved : Kept
reserved = (reserve local client 1000 "s1" "r1" "b1" []).0

mark_unknown-blocks_example :
    (reserve local client 1800000 "s1" "r1" "b2"
      (mark_unknown local client 2000 "s1" "r1" "timeout" reserved)).1
    ≡ false
unfolding reserve redis_key reservation
mark_unknown-blocks_example =
    mark_unknown-blocks local live local-Laws client 2000 1800000 "s1" "r1" "timeout" "b2" reserved
      (reservation local client 1000 "s1" "r1" "b1") refl refl (omega arith) (omega arith)

reserve-once_example :
    (Memory.reserve no_dates 9 "s1" "r1" "b2" (
      Memory.run no_dates
        (Memory.reserve no_dates 1 "s1" "r1" "b1" []).0
        (Memory.fails "s1" "r1" "timeout" ∷ Memory.cleans 5 ∷ []))).1
    ≡ false
unfolding Memory.reserve Memory.get
reserve-once_example =
    (reserve-once no_dates 1 9 "s1" "r1" "b1" "b2" []
      (Memory.fails "s1" "r1" "timeout" ∷ Memory.cleans 5 ∷ []) refl (tt, (refl, tt))).0
