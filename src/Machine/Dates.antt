-- ===== src/Machine/Dates.antt =====
-- The platform's dates, which the machine calls and does not implement: `new Date(text).getTime()`,
-- where `none` is NaN, and `new Date(ms).toISOString()`.
use crash.Prelude.{ℕ, String, Option, some, false, is_empty, ◌≡◌}

pub record Dates : Type 0 where
  pub get_time : String → Option ℕ
  pub to_iso_string : ℕ → String

-- What is documented of them: a printed date is no empty text, and it parses to its own time.
pub record RoundTrips (d : Dates) : Type 0 where
  pub nonempty : (t : ℕ) → is_empty (d.to_iso_string t) ≡ false
  pub parses : (t : ℕ) → d.get_time (d.to_iso_string t) ≡ some t
