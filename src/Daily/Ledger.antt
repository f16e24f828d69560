-- ===== src/Daily/Ledger.antt =====
-- The class DailyEntryLedger of src/ledger/daily-entries.ts. A transaction commits, or throws and
-- changes nothing; SERIALIZABLE transactions run as if one after the other, and their repetition
-- after a serialization failure is left out.
pub mod Counts
pub mod Slots
use crash.Prelude.{
  ℕ, suc, ◌+◌, ◌-◌, String, Bool, true, false, leb, if◌then◌else◌, List, [], ◌∷◌, ◌++◌, Option,
  none, some,
}
use crash.Daily.Types.{
  Status, reserved, confirmed, released, failed, Entry, Stats, Day, Reservation, new_entry, refusal,
  grant, find_entry, change_entry,
}

pub data LedgerError : Type 0 where
  entry_not_found : LedgerError
  conflict : Status → LedgerError

unfoldable pub reserve : ℕ → String → String → Day → Day × Reservation
reserve max bet session d =
    let active = d.stats.entries_confirmed + d.stats.entries_reserved in
    let e = new_entry bet session (suc active) in
    if leb max active then (d, refusal d.stats) else (
      record {
        entries = d.entries ++ e ∷ [];
        stats = record d.stats {
          entries_reserved = suc d.stats.entries_reserved;
          entries_attempted = suc d.stats.entries_attempted;
        };
      },
      grant d.stats e,
    )

abbrev pub with_status : Status → Entry → Entry
with_status s e = record e { status = s }

confirm_as : Status → String → Day → Day × Option LedgerError
confirm_as confirmed bet d = (d, none)
confirm_as reserved bet d = (
  record {
    entries = change_entry bet (with_status confirmed) d.entries;
    stats = record d.stats {
      entries_confirmed = suc d.stats.entries_confirmed;
      entries_reserved = d.stats.entries_reserved - 1;
    };
  },
  none,
)
confirm_as s bet d = (d, some (conflict s))

confirm_found : Option Entry → String → Day → Day × Option LedgerError
unfolding confirm_as
confirm_found none bet d = (d, some entry_not_found)
confirm_found (some e) bet d = confirm_as e.status bet d

-- The second part is what is thrown, if anything.
unfoldable pub confirm : String → Day → Day × Option LedgerError
unfolding confirm_found
confirm bet d = confirm_found (find_entry bet d.entries) bet d

abbrev pub is_released : Status → Bool
is_released released = true
is_released failed = true
is_released _ = false

abbrev pub is_confirmed : Status → Bool
is_confirmed confirmed = true
is_confirmed _ = false

abbrev release_with : String → Entry → Entry
release_with reason e = record e { status = released; reason = some reason }

-- A confirmed entry takes one off both counts.
abbrev release_stats : Bool → Stats → Stats
release_stats true s = record s {
  entries_reserved = s.entries_reserved - 1;
  entries_failed = suc s.entries_failed;
  entries_confirmed = s.entries_confirmed - 1;
}
release_stats false s = record s {
  entries_reserved = s.entries_reserved - 1;
  entries_failed = suc s.entries_failed;
}

release_found : Option Entry → String → String → Day → Day
release_found none bet reason d = d
release_found (some e) bet reason d = if is_released e.status then d else record {
  entries = change_entry bet (release_with reason) d.entries;
  stats = release_stats (is_confirmed e.status) d.stats;
}

unfoldable pub release : String → String → Day → Day
unfolding release_found
release bet reason d = release_found (find_entry bet d.entries) bet reason d

unfoldable pub get_remaining_entries : ℕ → Day → ℕ
get_remaining_entries max d = max - (d.stats.entries_confirmed + d.stats.entries_reserved)

unfoldable pub is_limit_reached : ℕ → Day → Bool
is_limit_reached max d = leb (get_remaining_entries max d) 0

-- The calls on a day, and a history of them.
pub data Op : Type 0 where
  reserves : String → String → Op
  confirms : String → Op
  releases : String → String → Op

unfoldable pub step : ℕ → Day → Op → Day
unfolding reserve confirm release
step max d (reserves bet session) = (reserve max bet session d).0
step max d (confirms bet) = (confirm bet d).0
step max d (releases bet reason) = release bet reason d

unfoldable pub run : ℕ → Day → List Op → Day
run max d [] = d
run max d (op ∷ ops) = run max (step max d op) ops
