-- ===== src/Idempotency/Memory/Reserved.antt =====
-- A reservation holds its round until it is released (src/betting/idempotency.ts).
use text.Mathlib.Text.{◌==◌ as str_eq}
use text.Mathlib.TextPositions.{eq_refl}
use text.Mathlib.TextEquality.{eq_iff}
use crash.Prelude.{
  ℕ, ◌+◌, String, true, false, ◌≡◌, ◌≢◌, refl, sym, ap, ◌∙◌, Bool-cases, if◌then◌else◌, List, [],
  ◌∷◌, ◌++◌, All, some, arith, is_some, inl, inr, some_inj,
}
use crash.Machine.Dates.{Dates}
use crash.Idempotency.Types.{IdempotencyRecord, generate_key}
use crash.Idempotency.Memory.{
  Store, get, modify, delete, reserve, complete, fail, mark_unknown, release, cleanup, Op, step,
  run, reserves, completes, fails, marks_unknown, releases, cleans, clears, is_expired, runs_out,
  expiry, new_record, get_record,
}

get-append-old :
    (k k' : String) (r : IdempotencyRecord) (s : Store)
    → is_some (get k s) ≡ true
    → get k (s ++ (k', r) ∷ []) ≡ get k s
unfolding get
get-append-old k k' r [] h = cc
get-append-old k k' r ((j, x) ∷ s) h = elim (Bool-cases (str_eq j k)) [
  | inl t ↦ ground arith
  | inr t ↦ let ih = get-append-old k k' r s (ground arith) in ground arith
]

get-append-new :
    (k : String) (r : IdempotencyRecord) (s : Store)
    → is_some (get k s) ≡ false
    → get k (s ++ (k, r) ∷ []) ≡ some r
unfolding get
get-append-new k r [] h = let e = eq_refl k in ground arith
get-append-new k r ((j, x) ∷ s) h = elim (Bool-cases (str_eq j k)) [
  | inl t ↦ ground arith
  | inr t ↦ let ih = get-append-new k r s (ground arith) in ground arith
]

-- A record of the bet is under the key, with the time at which it expires.
abbrev pub Holds : String → String → String → Store → Type 0
Holds k bet until s =
    (r : IdempotencyRecord) × (get k s ≡ some r)
    × (r.bet_id ≡ some bet)
    × (r.expires_at ≡ some until)

abbrev Keeps : (IdempotencyRecord → IdempotencyRecord) → Type 0
Keeps f = (r : IdempotencyRecord) → ((f r).bet_id ≡ r.bet_id) × ((f r).expires_at ≡ r.expires_at)

modify-Holds :
    (k k' bet until : String) (f : IdempotencyRecord → IdempotencyRecord) (s : Store)
    → Keeps f
    → Holds k bet until s
    → Holds k bet until (modify k' f s)
unfolding get modify
modify-Holds k k' bet until f [] keep (r, e, b, u) = cc
modify-Holds k k' bet until f ((j, x) ∷ s) keep (r, e, b, u) = elim (Bool-cases (str_eq j k)) [
  | inl t ↦
      let q : x ≡ r = some_inj x r (ground arith) in
      let (kb, ku) = keep x in
      (if str_eq j k' then f x else x, ground arith, ground arith, ground arith)
  | inr t ↦
      let (r', e', b', u') = modify-Holds k k' bet until f s keep (r, ground arith, b, u) in
      (r', ground arith, b', u')
]

delete-Holds :
    (k k' bet until : String) (s : Store)
    → str_eq k' k ≡ false
    → Holds k bet until s
    → Holds k bet until (delete k' s)
unfolding get delete
delete-Holds k k' bet until [] n (r, e, b, u) = cc
delete-Holds k k' bet until ((j, x) ∷ s) n (r, e, b, u) = elim (Bool-cases (str_eq j k)) [
  | inl t ↦
      let q : j ≡ k = (eq_iff j k).0 t in
      let m : str_eq j k' ≡ false = elim (Bool-cases (str_eq j k')) [
        | inl y ↦ let z = (eq_iff k' k).1 (sym ((eq_iff j k').0 y) ∙ q) in cc
        | inr y ↦ y
      ] in
      (r, ground arith, b, u)
  | inr t ↦
      let (r', e', b', u') = delete-Holds k k' bet until s n (r, ground arith, b, u) in
      (r', ground arith, b', u')
]

cleanup-Holds :
    (d : Dates) (now : ℕ) (k bet until : String) (s : Store)
    → runs_out (d.get_time until) now ≡ false
    → Holds k bet until s
    → Holds k bet until (cleanup d now s).0
unfolding get cleanup is_expired
cleanup-Holds d now k bet until [] n (r, e, b, u) = cc
cleanup-Holds d now k bet until ((j, x) ∷ s) n (r, e, b, u) = elim (Bool-cases (str_eq j k)) [
  | inl t ↦
      let q : x ≡ r = some_inj x r (ground arith) in
      let v = ap (λ y. y.expires_at) q ∙ u in
      let w = ap (λ y. runs_out (expiry d y) now) v ∙ n in (r, ground arith, b, u)
  | inr t ↦
      let (r', e', b', u') = cleanup-Holds d now k bet until s n (r, ground arith, b, u) in
      (r', ground arith, b', u')
]

reserve-Holds :
    (d : Dates) (now : ℕ) (session round other k bet until : String) (s : Store)
    → Holds k bet until s
    → Holds k bet until (reserve d now session round other s).0
unfolding reserve
reserve-Holds d now session round other k bet until s (r, e, b, u) =
    let a =
      get-append-old k (generate_key session round) (new_record d now session round other) s
        (ap is_some e) in
    (r, ground arith, b, u)

-- What a call must not do for a reservation to stay: release its key, clear the store, or clean it
-- after the reservation has expired.
abbrev pub IsHarmless : Dates → String → String → Op → Type 0
IsHarmless d k until (releases session round) = generate_key session round ≢ k
IsHarmless d k until clears = ⊥
IsHarmless d k until (cleans now) = runs_out (d.get_time until) now ≡ false
IsHarmless d k until _ = Unit

step-Holds :
    (d : Dates) (k bet until : String) (s : Store) (op : Op)
    → IsHarmless d k until op
    → Holds k bet until s
    → Holds k bet until (step d s op)
unfolding step complete fail mark_unknown release
step-Holds d k bet until s (reserves now session round other) n h =
    reserve-Holds d now session round other k bet until s h
step-Holds d k bet until s (completes session round p) n h =
    modify-Holds k (generate_key session round) bet until _ s (λ r. (refl, refl)) h
step-Holds d k bet until s (fails session round reason) n h =
    modify-Holds k (generate_key session round) bet until _ s (λ r. (refl, refl)) h
step-Holds d k bet until s (marks_unknown session round reason) n h =
    modify-Holds k (generate_key session round) bet until _ s (λ r. (refl, refl)) h
step-Holds d k bet until s (releases session round) n h =
    delete-Holds k (generate_key session round) bet until s
      (elim (Bool-cases (str_eq (generate_key session round) k)) [
        | inl y ↦ absurd (n ((eq_iff (generate_key session round) k).0 y))
        | inr y ↦ y
      ])
      h
step-Holds d k bet until s (cleans now) n h = cleanup-Holds d now k bet until s n h
step-Holds d k bet until s clears n h = absurd n

run-Holds :
    (d : Dates) (k bet until : String) (s : Store) (ops : List Op)
    → All (IsHarmless d k until) ops
    → Holds k bet until s
    → Holds k bet until (run d s ops)
unfolding run
run-Holds d k bet until s [] n h = h
run-Holds d k bet until s (op ∷ ops) n h =
    run-Holds d k bet until (step d s op) ops n.1 (step-Holds d k bet until s op n.0 h)

reserved-Holds :
    (d : Dates) (now : ℕ) (session round bet : String) (s : Store)
    → (reserve d now session round bet s).1 ≡ true
    → Holds
        (generate_key session round)
        bet
        (d.to_iso_string (now + 300000))
        (reserve d now session round bet s).0
unfolding reserve
reserved-Holds d now session round bet s h =
    let a = get-append-new (generate_key session round) (new_record d now session round bet) s in
    (new_record d now session round bet, ground arith, refl, refl)

-- After a round has been reserved, and whatever calls follow that do not release it, clear the
-- store, or clean it up once the reservation has expired, every further reservation of the round
-- is refused, and the record keeps the bet that reserved it.
pub reserve-once :
    (d : Dates) (now later : ℕ) (session round bet other : String) (s : Store) (ops : List Op)
    → (reserve d now session round bet s).1 ≡ true
    → All (IsHarmless d (generate_key session round) (d.to_iso_string (now + 300000))) ops
    → let s' = run d (reserve d now session round bet s).0 ops in
      ((reserve d later session round other s').1 ≡ false)
      × ((r : IdempotencyRecord) × (get_record session round s' ≡ some r) × (r.bet_id ≡ some bet))
unfolding reserve get_record
reserve-once d now later session round bet other s ops h n =
    let (r, e, b, _) =
      run-Holds d (generate_key session round) bet (d.to_iso_string (now + 300000))
        (reserve d now session round bet s).0 ops n (reserved-Holds d now session round bet s h) in
    (ground arith, (r, e, b))
