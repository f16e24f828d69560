-- ===== src/Daily/Ledger/Slots.antt =====
-- The entry of one bet through a reservation, a confirmation and a release
-- (src/ledger/daily-entries.ts).
use text.Mathlib.Text.{◌==◌ as str_eq}
use text.Mathlib.TextEquality.{eq_iff}
use crash.Prelude.{
  ℕ, suc, ◌+◌, ◌≡◌, ◌≢◌, refl, sym, ◌∙◌, String, true, false, List, [], ◌∷◌, ◌++◌, none, some,
  arith, leb, Bool-cases, inl, inr, ap, some_inj, ◌⊎◌,
}
use crash.Daily.Types.{
  Status, reserved, confirmed, released, Entry, Day, new_entry, find_entry, change_entry,
}
use crash.Daily.Ledger.{
  reserve, confirm, confirm_found, confirm_as, release, release_found, with_status, release_with,
  step, releases, confirms, reserves, is_released,
}
use crash.Daily.Ledger.Counts.{Counted, step-Counted}

-- The day has an entry of the bet with the status.
pub record HasStatus (s : Status) (bet : String) (d : Day) : Type 0 where
  pub entry : Entry
  pub found : find_entry bet d.entries ≡ some entry
  pub in_status : entry.status ≡ s

find_entry-append :
    (bet : String) (e : Entry) (es : List Entry)
    → find_entry bet es ≡ none
    → str_eq e.bet_id bet ≡ true
    → find_entry bet (es ++ e ∷ []) ≡ some e
unfolding find_entry
find_entry-append bet e [] h t = rw t refl
find_entry-append bet e (x ∷ es) h t = elim (Bool-cases (str_eq x.bet_id bet)) [
  | inl q ↦ absurd (ground arith)
  | inr q ↦ let ih = find_entry-append bet e es (ground arith) t in ground arith
]

find_entry-change_entry :
    (bet : String) (f : Entry → Entry) (es : List Entry) (e : Entry)
    → ((x : Entry) → (f x).bet_id ≡ x.bet_id)
    → find_entry bet es ≡ some e
    → find_entry bet (change_entry bet f es) ≡ some (f e)
unfolding find_entry change_entry
find_entry-change_entry bet f [] e same h = cc
find_entry-change_entry bet f (x ∷ es) e same h = elim (Bool-cases (str_eq x.bet_id bet)) [
  | inl q ↦
      let k : str_eq (f x).bet_id bet ≡ true = ap (λ y. str_eq y bet) (same x) ∙ q in
      let j : x ≡ e = ground arith in rw (q, k) (ap (λ y. some (f y)) j)
  | inr q ↦ let ih = find_entry-change_entry bet f es e same (ground arith) in rw (q, q) ih
]

-- A reservation that is granted to a new bet reserves an entry for it.
pub reserve-HasStatus :
    (max : ℕ) (bet session : String) (d : Day)
    → find_entry bet d.entries ≡ none
    → (reserve max bet session d).1.success ≡ true
    → HasStatus reserved bet (reserve max bet session d).0
unfolding reserve
reserve-HasStatus max bet session d fresh h =
    elim (Bool-cases (leb max (d.stats.entries_confirmed + d.stats.entries_reserved))) [
      | inl full ↦ absurd (ground arith)
      | inr room ↦ rw room (record {
        entry = new_entry bet session (suc (d.stats.entries_confirmed + d.stats.entries_reserved));
        found = find_entry-append bet _ d.entries fresh ((eq_iff bet bet).1 refl);
        in_status = refl;
      })
    ]

-- A reserved entry is confirmed without an error.
pub confirm-HasStatus :
    (bet : String) (d : Day)
    → HasStatus reserved bet d
    → ((confirm bet d).1 ≡ none) × HasStatus confirmed bet (confirm bet d).0
unfolding confirm confirm_found confirm_as
confirm-HasStatus bet d h =
    rw (h.found, h.in_status)
      (
        refl,
        record {
          entry = with_status confirmed h.entry;
          found =
              find_entry-change_entry bet (with_status confirmed) d.entries h.entry (λ x. refl)
                h.found;
          in_status = refl;
        },
      )

release-unreleased :
    (bet reason : String) (d : Day) (e : Entry)
    → find_entry bet d.entries ≡ some e
    → is_released e.status ≡ false
    → HasStatus released bet (release bet reason d)
unfolding release release_found
release-unreleased bet reason d e h k =
    rw (h, k)
      (record {
        entry = release_with reason e;
        found = find_entry-change_entry bet (release_with reason) d.entries e (λ x. refl) h;
        in_status = refl;
      })

-- A release leaves a reserved entry released, and a confirmed one too.
pub release-HasStatus :
    (s : Status) (bet reason : String) (d : Day)
    → (s ≡ reserved) ⊎ (s ≡ confirmed)
    → HasStatus s bet d
    → HasStatus released bet (release bet reason d)
release-HasStatus s bet reason d e h =
    release-unreleased bet reason d h.entry h.found (ap is_released h.in_status ∙ ground arith)

-- The release of an entry that is not confirmed keeps the counts.
pub release-Counted :
    (max : ℕ) (s : Status) (bet reason : String) (d : Day)
    → s ≢ confirmed
    → HasStatus s bet d
    → Counted max d
    → Counted max (release bet reason d)
unfolding step
release-Counted max s bet reason d n h c =
    step-Counted max d (releases bet reason)
      (λ e f k. n (sym h.in_status ∙ ap (λ x. x.status) (some_inj _ _ (sym h.found ∙ f)) ∙ k)) c

pub reserve-Counted :
    (max : ℕ) (bet session : String) (d : Day)
    → Counted max d
    → Counted max (reserve max bet session d).0
unfolding step
reserve-Counted max bet session d c = step-Counted max d (reserves bet session) tt c

pub confirm-Counted :
    (max : ℕ) (bet : String) (d : Day) → Counted max d → Counted max (confirm bet d).0
unfolding step
confirm-Counted max bet d c = step-Counted max d (confirms bet) tt c
