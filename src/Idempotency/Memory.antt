-- ===== src/Idempotency/Memory.antt =====
-- The class InMemoryIdempotencyStore of src/betting/idempotency.ts. The map is a list of keys with
-- their records, in the order of insertion; `now` is what `Date.now()` reads.
pub mod Reserved
use text.Mathlib.Text.{◌==◌ as str_eq}
use crash.Prelude.{
  ℕ, suc, ◌+◌, String, Bool, true, false, ltb, if◌then◌else◌, is_some, List, [], ◌∷◌, ◌++◌, Option,
  none, some,
}
use crash.Machine.Dates.{Dates}
use crash.Idempotency.Types.{
  pending, completed, failed, unknown, PlacementResult, IdempotencyRecord, generate_key, failure,
  with_result,
}

abbrev pub Store : Type 0
Store = List (String × IdempotencyRecord)

unfoldable pub get : String → Store → Option IdempotencyRecord
get k [] = none
get k ((k', r) ∷ s) = if str_eq k' k then some r else get k s

-- A change of the record that the map holds.
unfoldable pub modify : String → (IdempotencyRecord → IdempotencyRecord) → Store → Store
modify k f [] = []
modify k f ((k', r) ∷ s) = (k', if str_eq k' k then f r else r) ∷ modify k f s

unfoldable pub delete : String → Store → Store
delete k [] = []
delete k ((k', r) ∷ s) = let rest = delete k s in if str_eq k' k then rest else (k', r) ∷ rest

new_record : Dates → ℕ → String → String → String → IdempotencyRecord
new_record d now session round bet = record {
  key = some (generate_key session round);
  status = pending;
  bet_id = some bet;
  round_id = round;
  session_id = session;
  created_at = d.to_iso_string now;
  expires_at = some (d.to_iso_string (now + 300000));
  result = none;
}

unfoldable pub reserve : Dates → ℕ → String → String → String → Store → Store × Bool
unfolding new_record
reserve d now session round bet s =
    let k = generate_key session round in
    if is_some (get k s)
    then (s, false)
    else (s ++ (k, new_record d now session round bet) ∷ [], true)

unfoldable pub complete : String → String → PlacementResult → Store → Store
complete session round p s = modify (generate_key session round) (with_result completed p) s

unfoldable pub fail : String → String → String → Store → Store
fail session round reason s =
    modify (generate_key session round) (with_result failed (failure reason)) s

unfoldable pub mark_unknown : String → String → String → Store → Store
mark_unknown session round reason s =
    modify (generate_key session round) (with_result unknown (failure reason)) s

unfoldable pub get_record : String → String → Store → Option IdempotencyRecord
get_record session round s = get (generate_key session round) s

unfoldable pub release : String → String → Store → Store
release session round s = delete (generate_key session round) s

-- `new Date(record.expiresAt).getTime() < now`; a date that does not parse is kept.
abbrev runs_out : Option ℕ → ℕ → Bool
runs_out none now = false
runs_out (some t) now = ltb t now

abbrev expiry : Dates → Option String → Option ℕ
expiry d none = none
expiry d (some e) = d.get_time e

unfoldable pub is_expired : Dates → ℕ → IdempotencyRecord → Bool
is_expired d now r = runs_out (expiry d r.expires_at) now

unfoldable pub cleanup : Dates → ℕ → Store → Store × ℕ
cleanup d now [] = ([], 0)
cleanup d now ((k, r) ∷ s) =
    let (rest, removed) = cleanup d now s in
    if is_expired d now r then (rest, suc removed) else ((k, r) ∷ rest, removed)

-- The calls on the store, and a history of them.
pub data Op : Type 0 where
  reserves : ℕ → String → String → String → Op
  completes : String → String → PlacementResult → Op
  fails marks_unknown : String → String → String → Op
  releases : String → String → Op
  cleans : ℕ → Op
  clears : Op

unfoldable pub step : Dates → Store → Op → Store
step d s (reserves now session round bet) = (reserve d now session round bet s).0
step d s (completes session round p) = complete session round p s
step d s (fails session round reason) = fail session round reason s
step d s (marks_unknown session round reason) = mark_unknown session round reason s
step d s (releases session round) = release session round s
step d s (cleans now) = (cleanup d now s).0
step d s clears = []

unfoldable pub run : Dates → Store → List Op → Store
run d s [] = s
run d s (op ∷ ops) = run d (step d s op) ops
