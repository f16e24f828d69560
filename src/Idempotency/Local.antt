-- ===== src/Idempotency/Local.antt =====
-- A store that has the documented laws of the shared store's commands, for concrete runs of the
-- code (src/betting/idempotency.ts): the writes, the latest first, each with its time to live.
use text.Mathlib.Text.{◌==◌ as str_eq}
use text.Mathlib.TextPositions.{eq_refl}
use crash.Prelude.{
  ℕ, ◌+◌, String, true, false, ltb, is_some, if◌then◌else◌, List, [], ◌∷◌, Option, none, some,
  arith, ◌≢◌,
}
use crash.Machine.Dates.{Dates}
use crash.Idempotency.Types.{failed, IdempotencyRecord}
use crash.Idempotency.Redis.{Commands, Client}
use crash.Idempotency.Redis.Laws.{Laws, View}

abbrev pub no_dates : Dates
no_dates = record { get_time = λ s. none; to_iso_string = λ t. "" }

-- The latest write of a key counts, until its time has come.
abbrev pub Kept : Type 0
Kept = List (String × IdempotencyRecord × ℕ)

abbrev valid_until : ℕ → ℕ → IdempotencyRecord → Option IdempotencyRecord
valid_until t end r = if ltb t end then some r else none

abbrev pub live : View Kept
live [] k t = none
live ((j, r, end) ∷ s) k t = if str_eq j k then valid_until t end r else live s k t

abbrev nothing : IdempotencyRecord
nothing = record {
  key = none;
  status = failed;
  bet_id = none;
  round_id = "";
  session_id = "";
  created_at = "";
  expires_at = none;
  result = none;
}

abbrev pub local : Commands Kept
local = record {
  set_nx = λ now k r ttl s.
      if is_some (live s k now) then (s, some false) else ((k, r, now + ttl) ∷ s, some true);
  set = λ now k r ttl s. ((k, r, now + ttl) ∷ s, true);
  get = λ now k s. some (live s k now);
  del = λ now k s. ((k, nothing, 0) ∷ s, true);
}

pub local-Laws : Laws local live
local-Laws = record {
  set_nx_taken = λ s now ttl k r old h e. ground arith;
  set_nx_free = λ s now ttl k r h n. ground arith;
  set_nx_live = λ s now ttl t k r h l u. let q = eq_refl k in ground arith;
  set_live = λ s now ttl t k r h l u. let q = eq_refl k in ground arith;
  set_gone = λ s now ttl t k r h l. let q = eq_refl k in ground arith;
  get_right = λ s now k o h. ground arith;
}

abbrev pub client : Client
client = record { ttl_ms = 300000; prefix = "crash:"; dates = no_dates }

pub set_nx-answers :
    (now ttl : ℕ) (k : String) (r : IdempotencyRecord) (s : Kept)
    → (local.set_nx now k r ttl s).1 ≢ none
set_nx-answers now ttl k r s e = ground arith
