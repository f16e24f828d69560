-- ===== src/Daily/Ledger/Counts.antt =====
-- The day's counts against its entries, and the limit (src/ledger/daily-entries.ts).
use text.Mathlib.Text.{◌==◌ as str_eq}
use crash.Prelude.{
  ℕ, suc, ◌+◌, ◌-◌, ◌≤◌, ◌≡◌, ◌≢◌, refl, String, Bool-cases, if◌then◌else◌, List, [], ◌∷◌, ◌++◌,
  Option, none, some, some_inj, arith, inl, inr, ap, ◌∙◌,
}
use crash.Daily.Types.{
  Status, reserved, confirmed, released, failed, Entry, Day, new_entry, find_entry, change_entry,
  count, status_eq,
}
use crash.Daily.Ledger.{
  reserve, confirm, confirm_found, confirm_as, release, release_found, with_status, release_with,
  Op, reserves, confirms, releases, step, run,
}

count-append :
    (s : Status) (es : List Entry) (e : Entry)
    → count s (es ++ e ∷ []) ≡ count s es + (if status_eq e.status s then 1 else 0)
unfolding count
count-append s [] e = omega arith
count-append s (x ∷ es) e = let ih = count-append s es e in omega arith

-- A change of the entry that is found moves its share of the count.
pub count-change_entry :
    (s : Status) (bet : String) (f : Entry → Entry) (es : List Entry) (e : Entry)
    → find_entry bet es ≡ some e
    → count s (change_entry bet f es) + (if status_eq e.status s then 1 else 0)
      ≡ count s es + (if status_eq (f e).status s then 1 else 0)
unfolding count find_entry change_entry
count-change_entry s bet f [] e h = cc
count-change_entry s bet f (x ∷ es) e h = elim (Bool-cases (str_eq x.bet_id bet)) [
  | inl t ↦
      let q : x ≡ e = some_inj x e (ground arith) in
      let a = ap (λ y. status_eq y.status s) q in
      let b = ap (λ y. status_eq (f y).status s) q in ground arith
  | inr t ↦ let ih = count-change_entry s bet f es e (ground arith) in ground arith
]

-- The counts of a day are those of its entries, and together they are within the limit.
pub record Counted (max : ℕ) (d : Day) : Type 0 where
  pub confirmed_right : d.stats.entries_confirmed ≡ count confirmed d.entries
  pub reserved_right : d.stats.entries_reserved ≡ count reserved d.entries
  pub limited : count confirmed d.entries + count reserved d.entries ≤ max

reserves-Counted :
    (max : ℕ) (bet session : String) (d : Day)
    → Counted max d
    → Counted max (reserve max bet session d).0
unfolding reserve
reserves-Counted max bet session d c =
    let e = new_entry bet session (suc (d.stats.entries_confirmed + d.stats.entries_reserved)) in
    let a = count-append confirmed d.entries e in
    let b = count-append reserved d.entries e in ground arith

confirm_as-Counted :
    (max : ℕ) (bet : String) (s : Status) (e : Entry) (d : Day)
    → find_entry bet d.entries ≡ some e
    → e.status ≡ s
    → Counted max d
    → Counted max (confirm_as s bet d).0
unfolding confirm_as
confirm_as-Counted max bet reserved e d h k c =
    let a = count-change_entry confirmed bet (with_status confirmed) d.entries e h in
    let b = count-change_entry reserved bet (with_status confirmed) d.entries e h in ground arith
confirm_as-Counted max bet confirmed e d h k c = c
confirm_as-Counted max bet released e d h k c = c
confirm_as-Counted max bet failed e d h k c = c

confirm_found-Counted :
    (max : ℕ) (bet : String) (o : Option Entry) (d : Day)
    → find_entry bet d.entries ≡ o
    → Counted max d
    → Counted max (confirm_found o bet d).0
unfolding confirm_found
confirm_found-Counted max bet none d h c = c
confirm_found-Counted max bet (some e) d h c = confirm_as-Counted max bet e.status e d h refl c

release_found-Counted :
    (max : ℕ) (bet reason : String) (o : Option Entry) (d : Day)
    → find_entry bet d.entries ≡ o
    → ((e : Entry) → o ≡ some e → e.status ≢ confirmed)
    → Counted max d
    → Counted max (release_found o bet reason d)
unfolding release_found
release_found-Counted max bet reason none d h n c = c
release_found-Counted max bet reason (some e) d h n c =
    let a = count-change_entry confirmed bet (release_with reason) d.entries e h in
    let b = count-change_entry reserved bet (release_with reason) d.entries e h in
    let k = n e refl in ground arith

-- A release that does not meet a confirmed entry.
abbrev pub IsClean : Day → Op → Type 0
IsClean d (releases bet reason) =
    (e : Entry) → find_entry bet d.entries ≡ some e → e.status ≢ confirmed
IsClean d _ = Unit

abbrev pub AllClean : ℕ → Day → List Op → Type 0
AllClean max d [] = Unit
AllClean max d (op ∷ ops) = IsClean d op × AllClean max (step max d op) ops

pub step-Counted :
    (max : ℕ) (d : Day) (op : Op) → IsClean d op → Counted max d → Counted max (step max d op)
unfolding step confirm release
step-Counted max d (reserves bet session) n c = reserves-Counted max bet session d c
step-Counted max d (confirms bet) n c =
    confirm_found-Counted max bet (find_entry bet d.entries) d refl c
step-Counted max d (releases bet reason) n c =
    release_found-Counted max bet reason (find_entry bet d.entries) d refl n c

-- Over every history in which no confirmed entry is released, the counts of the day are those of
-- its entries, and the confirmed and the reserved entries together stay within the limit.
pub run-Counted :
    (max : ℕ) (d : Day) (ops : List Op)
    → AllClean max d ops
    → Counted max d
    → Counted max (run max d ops)
unfolding run
run-Counted max d [] n c = c
run-Counted max d (op ∷ ops) n c =
    run-Counted max (step max d op) ops n.1 (step-Counted max d op n.0 c)

-- A day that counts one reserved entry too few.
abbrev Undercounted : Day → ℕ → Type 0
Undercounted d n =
    (d.stats.entries_confirmed ≡ count confirmed d.entries)
    × (suc d.stats.entries_reserved ≡ count reserved d.entries)
    × (count confirmed d.entries + count reserved d.entries ≡ n)

release-Undercounted :
    (max : ℕ) (bet reason : String) (d : Day) (e : Entry)
    → Counted max d
    → find_entry bet d.entries ≡ some e
    → e.status ≡ confirmed
    → 1 ≤ count reserved d.entries
    → suc (count confirmed d.entries + count reserved d.entries) ≡ suc max
    → Undercounted (release bet reason d) (max - 1) × (1 ≤ max)
unfolding release release_found
release-Undercounted max bet reason d e c h k r full =
    let a = count-change_entry confirmed bet (release_with reason) d.entries e h in
    let b = count-change_entry reserved bet (release_with reason) d.entries e h in ground arith

reserve-Undercounted :
    (max n : ℕ) (bet session : String) (d : Day)
    → n ≤ max
    → 1 ≤ max
    → Undercounted d n
    → Undercounted (reserve max bet session d).0 (suc n)
unfolding reserve
reserve-Undercounted max n bet session d l p u =
    let e = new_entry bet session (suc (d.stats.entries_confirmed + d.stats.entries_reserved)) in
    let a = count-append confirmed d.entries e in
    let b = count-append reserved d.entries e in ground arith

-- When the limit is used up and a confirmed entry is released while another one is reserved, the
-- counts are one too low: two more reservations are granted, and one more entry is then confirmed
-- or reserved than the limit allows.
pub release-exceeds :
    (max : ℕ) (bet reason first second session : String) (d : Day) (e : Entry)
    → Counted max d
    → find_entry bet d.entries ≡ some e
    → e.status ≡ confirmed
    → 1 ≤ count reserved d.entries
    → count confirmed d.entries + count reserved d.entries ≡ max
    → let d' =
        run max d (releases bet reason ∷ reserves first session ∷ reserves second session ∷ []) in
      count confirmed d'.entries + count reserved d'.entries ≡ suc max
unfolding run step
release-exceeds max bet reason first second session d e c h k r full =
    let (u, p) = release-Undercounted max bet reason d e c h k r (omega arith) in
    let v =
      reserve-Undercounted max (max - 1) first session (release bet reason d) (omega arith) p u in
    let w =
      reserve-Undercounted max (suc (max - 1)) second session
        (reserve max first session (release bet reason d)).0 (omega arith) p v in
    w.2 ∙ omega arith
