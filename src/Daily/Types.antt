-- ===== src/Daily/Types.antt =====
-- The rows of a day (src/ledger/types.ts): its entries in the order in which they were made, and
-- the counts of its row of statistics. Identifiers and times of rows are left out.
use text.Mathlib.Text.{◌==◌ as str_eq}
use crash.Prelude.{
  ℕ, suc, ◌+◌, String, Bool, true, false, if◌then◌else◌, List, [], ◌∷◌, Option, none, some,
}

pub data Status : Type 0 where
  reserved confirmed released failed : Status

pub record Entry : Type 0 where
  pub bet_id : String
  pub slot_number : ℕ
  pub status : Status
  pub session_id : String
  pub reason : Option String

pub record Stats : Type 0 where
  pub entries_confirmed : ℕ
  pub entries_reserved : ℕ
  pub entries_attempted : ℕ
  pub entries_failed : ℕ

pub record Day : Type 0 where
  pub entries : List Entry
  pub stats : Stats

pub record Reservation : Type 0 where
  pub success : Bool
  pub slot : Option Entry
  pub confirmed_count : ℕ
  pub reserved_count : ℕ

abbrev pub no_stats : Stats
no_stats = record {
  entries_confirmed = 0;
  entries_reserved = 0;
  entries_attempted = 0;
  entries_failed = 0;
}

abbrev pub new_day : Day
new_day = record { entries = []; stats = no_stats }

abbrev pub new_entry : String → String → ℕ → Entry
new_entry bet session n = record {
  bet_id = bet;
  slot_number = n;
  status = reserved;
  session_id = session;
  reason = none;
}

abbrev pub refusal : Stats → Reservation
refusal s = record {
  success = false;
  slot = none;
  confirmed_count = s.entries_confirmed;
  reserved_count = s.entries_reserved;
}

abbrev pub grant : Stats → Entry → Reservation
grant s e = record {
  success = true;
  slot = some e;
  confirmed_count = s.entries_confirmed;
  reserved_count = suc s.entries_reserved;
}

-- The first entry of a bet, and a change of it.
unfoldable pub find_entry : String → List Entry → Option Entry
find_entry bet [] = none
find_entry bet (e ∷ es) = if str_eq e.bet_id bet then some e else find_entry bet es

unfoldable pub change_entry : String → (Entry → Entry) → List Entry → List Entry
change_entry bet f [] = []
change_entry bet f (e ∷ es) =
    let rest = change_entry bet f es in if str_eq e.bet_id bet then f e ∷ es else e ∷ rest

abbrev pub status_eq : Status → Status → Bool
status_eq reserved reserved = true
status_eq confirmed confirmed = true
status_eq released released = true
status_eq failed failed = true
status_eq _ _ = false

-- The entries with a status.
unfoldable pub count : Status → List Entry → ℕ
count s [] = 0
count s (e ∷ es) = (if status_eq e.status s then 1 else 0) + count s es
