-- ===== src/Daily/Counter.antt =====
-- The class DailyEntryCounter of src/ledger/daily-entries.ts. The key of the present day, which
-- the platform's date and time zone give, is an argument.
use text.Mathlib.Text.{◌==◌ as str_eq}
use crash.Prelude.{ℕ, suc, String, if◌then◌else◌}

pub record Counter : Type 0 where
  pub count : ℕ
  pub daily_key : String

-- The reset of `getCount` on a new day.
unfoldable pub roll_over : String → Counter → Counter
roll_over key c = if str_eq key c.daily_key then c else record { count = 0; daily_key = key }

unfoldable pub get_count : String → Counter → Counter × ℕ
get_count key c = let c' = roll_over key c in (c', c'.count)

unfoldable pub increment : String → Counter → Counter
increment key c = let c' = roll_over key c in record c' { count = suc c'.count }

unfoldable pub reset : String → Counter → Counter
reset key c = record { count = 0; daily_key = key }
