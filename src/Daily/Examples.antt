-- ===== src/Daily/Examples.antt =====
-- The theorems about the entries of a day at concrete inputs (src/ledger/daily-entries.ts).
use crash.Prelude.{◌+◌, ◌≡◌, refl, List, [], ◌∷◌, arith}
use crash.Daily.Types.{reserved, confirmed, Day, new_day, find_entry, change_entry, count}
use crash.Daily.Ledger.{Op, reserves, confirms, releases, run, step, reserve, confirm}
use crash.Daily.Ledger.Counts.{Counted, run-Counted, release-exceeds}

abbrev calls : List Op
calls = reserves "b1" "s1" ∷ confirms "b1" ∷ reserves "b2" "s1" ∷ []

-- A day with a limit of two, used up by a confirmed entry and a reserved one.
abbrev full : Day
full = run 2 new_day calls

empty-Counted : Counted 2 new_day
unfolding count
empty-Counted = record { confirmed_right = refl; reserved_right = refl; limited = omega arith }

run-Counted_example : Counted 2 full
run-Counted_example = run-Counted 2 new_day calls (tt, (tt, (tt, tt))) empty-Counted

release-exceeds_example :
    let d = run 2 full (releases "b1" "x" ∷ reserves "b3" "s1" ∷ reserves "b4" "s1" ∷ []) in
    count confirmed d.entries + count reserved d.entries ≡ 3
unfolding run step reserve confirm find_entry count change_entry
release-exceeds_example =
    release-exceeds 2 "b1" "x" "b3" "b4" "s1" full _ run-Counted_example refl refl (omega arith)
      refl
