-- ===== src/Verification/Single.antt =====
-- One live code at a time: `IssueOTP` and `Guard` of internal/verification/service.go, as the
-- transitions of internal/booking/service.go and the redelivered events of internal/app/consumers.go
-- call them.
use sethu_care.Prelude.{
  ℕ, ◌+◌, ◌≤◌, ◌≡◌, refl, ap, subst, Bool, true, false, ◌&&◌, String, Option, none, some, List, [],
  ◌∷◌, find, str_eq, if◌then◌else◌, arith, Bool-cases, inl, inr, eq_iff, found-head, found-tail,
}
use sethu_care.Machine.{to_action}
use sethu_care.Backend.{Booking, Caller, TransitionRequest, Row, text_or_empty}
use sethu_care.Verification.{
  Purpose, Challenge, otp_invalid, is_accepted, live_challenge, is_live, purpose_text, check,
  check_found, guard, guard_action, guarded_transition, otp_purpose_for, start, completion, consume,
  consume_row, increment_attempts, issue_otp, mint, login,
}

-- How many challenges of a job and a purpose are live.
abbrev live_count : String → String → ℕ → List Challenge → ℕ
live_count booking purpose now [] = 0
live_count booking purpose now (c ∷ t) =
    (if is_live booking purpose now c then 1 else 0) + live_count booking purpose now t

live_count-later :
    (booking purpose : String) (now later : ℕ) (t : List Challenge)
    → now ≤ later
    → live_count booking purpose later t ≤ live_count booking purpose now t
live_count-later booking purpose now later [] h = omega arith
live_count-later booking purpose now later (c ∷ t) h =
    ground (arith, live_count-later booking purpose now later t h)

live_count-consume :
    (booking purpose : String) (now id : ℕ) (t : List Challenge)
    → live_count booking purpose now (consume id t) ≤ live_count booking purpose now t
unfolding consume
live_count-consume booking purpose now id [] = omega arith
live_count-consume booking purpose now id (c ∷ t) =
    ground (arith, live_count-consume booking purpose now id t)

live_count-increment :
    (booking purpose : String) (now id : ℕ) (t : List Challenge)
    → live_count booking purpose now (increment_attempts id t) ≡ live_count booking purpose now t
unfolding increment_attempts
live_count-increment booking purpose now id [] = refl
live_count-increment booking purpose now id (c ∷ t) =
    omega (arith, live_count-increment booking purpose now id t)

consume_row-dead :
    (booking purpose : String) (now id : ℕ) (c : Challenge)
    → is_live booking purpose now c ≡ false
    → is_live booking purpose now (consume_row id c) ≡ false
consume_row-dead booking purpose now id c h = ground arith

consume_row-consumed :
    (booking purpose : String) (now : ℕ) (c : Challenge)
    → is_live booking purpose now (consume_row c.id c) ≡ false
consume_row-consumed booking purpose now c = ground arith

-- Consuming the one that is found leaves none.
consume-found :
    (booking purpose : String) (now : ℕ) (t : List Challenge) (c : Challenge)
    → find (is_live booking purpose now) t ≡ some c
    → live_count booking purpose now t ≤ 1
    → live_count booking purpose now (consume c.id t) ≡ 0
unfolding consume
consume-found booking purpose now [] c e h = cc
consume-found booking purpose now (d ∷ t) c e h =
    elim (Bool-cases (is_live booking purpose now d)) [
      | inl live ↦
          let same : d ≡ c = found-head _ c d _ live e in
          let gone : is_live booking purpose now (consume_row c.id d) ≡ false =
            subst (λ x. is_live booking purpose now (consume_row x.id d) ≡ false) same
              (consume_row-consumed booking purpose now d) in
          let rest = live_count-consume booking purpose now c.id t in rw gone (ground (arith, rest))
      | inr dead ↦
          let left =
            consume-found booking purpose now t c (found-tail _ c d _ dead e) (ground arith) in
          rw (consume_row-dead booking purpose now c.id d dead) (ground (arith, left))
    ]

find-none :
    (booking purpose : String) (now : ℕ) (t : List Challenge)
    → live_count booking purpose now t ≡ 0
    → find (is_live booking purpose now) t ≡ none
find-none booking purpose now [] h = refl
find-none booking purpose now (c ∷ t) h = ground (arith, find-none booking purpose now t)

none_live :
    (booking purpose : String) (now : ℕ) (t : List Challenge)
    → find (is_live booking purpose now) t ≡ none
    → live_count booking purpose now t ≡ 0
none_live booking purpose now [] h = refl
none_live booking purpose now (c ∷ t) h = ground (arith, none_live booking purpose now t)

-- For every job and purpose at most one challenge is live.
pub IsSingle : ℕ → List Challenge → Type 0
IsSingle now t = (booking purpose : String) → live_count booking purpose now t ≤ 1

module _ (hash : String → String) where
  mint-count :
      (found : Option Challenge) (booking : String) (purpose : Purpose) (now next_id : ℕ)
      (random_code : String) (t : List Challenge) (b p : String)
      → find (is_live booking (purpose_text purpose) now) t ≡ found
      → live_count b p now t ≤ 1
      → live_count b p now (mint hash found booking purpose now next_id random_code t).0 ≤ 1
  unfolding mint
  mint-count (some c) booking purpose now next_id random_code t b p e h = h
  mint-count none booking purpose now next_id random_code t b p e h =
      elim (Bool-cases (str_eq booking b && str_eq (purpose_text purpose) p)) [
        | inl same ↦
            let b_same : booking ≡ b = (eq_iff _ _).0 (ground arith) in
            let p_same : purpose_text purpose ≡ p = (eq_iff _ _).0 (ground arith) in
            let none_there : live_count b p now t ≡ 0 =
              subst (λ x. live_count x p now t ≡ 0) b_same
                (subst (λ x. live_count booking x now t ≡ 0) p_same
                  (none_live booking (purpose_text purpose) now t e)) in
            ground (arith, none_there)
        | inr other ↦ ground arith
      ]

  -- A code is minted only where none is live.
  issue_otp-IsSingle :
      (booking : String) (purpose : Purpose) (now next_id : ℕ) (random_code : String)
      (t : List Challenge)
      → IsSingle now t
      → IsSingle now (issue_otp hash booking purpose now next_id random_code t).0
  unfolding issue_otp live_challenge IsSingle
  issue_otp-IsSingle booking login now next_id random_code t h b p = h b p
  issue_otp-IsSingle booking start now next_id random_code t h b p =
      mint-count _ booking start now next_id random_code t b p refl (h b p)
  issue_otp-IsSingle booking completion now next_id random_code t h b p =
      mint-count _ booking completion now next_id random_code t b p refl (h b p)

module _ (compare_hash : String → String → Bool) where
  check_found-count :
      (found : Option Challenge) (given : String) (t : List Challenge) (b p : String) (now : ℕ)
      → live_count b p now (check_found compare_hash found given t).0 ≤ live_count b p now t
  unfolding check_found check
  check_found-count none given t b p now = omega arith
  check_found-count (some c) given t b p now =
      ground (arith, live_count-consume b p now c.id t, live_count-increment b p now c.id t)

  guard_action-count :
      (purpose : Option Purpose) (booking : String) (now : ℕ) (given : String) (t : List Challenge)
      (b p : String) (at : ℕ)
      → live_count b p at (guard_action compare_hash purpose booking now given t).0
        ≤ live_count b p at t
  unfolding guard_action guard
  guard_action-count none booking now given t b p at = omega arith
  guard_action-count (some purpose) booking now given t b p at =
      check_found-count (live_challenge booking purpose now t) given t b p at

  guarded-count :
      (booking : String) (caller : Caller) (row : Booking) (request : TransitionRequest) (now : ℕ)
      (current : Row) (t : List Challenge) (b p : String) (at : ℕ)
      → live_count b p at
          (guarded_transition compare_hash booking caller row request now current t).1
        ≤ live_count b p at t
  unfolding guarded_transition
  guarded-count booking caller row request now current t b p at = ground (
    arith,
    guard_action-count (otp_purpose_for (to_action request.action)) booking now
        (text_or_empty request.code) t b p at,
  )

  check_found-spent :
      (booking purpose : String) (now : ℕ) (given : String) (t : List Challenge)
      (found : Option Challenge)
      → find (is_live booking purpose now) t ≡ found
      → live_count booking purpose now t ≤ 1
      → is_accepted (check_found compare_hash found given t).1 ≡ true
      → live_count booking purpose now (check_found compare_hash found given t).0 ≡ 0
  unfolding check_found check
  check_found-spent booking purpose now given t none e h k = cc
  check_found-spent booking purpose now given t (some c) e h k =
      ground (arith, consume-found booking purpose now t c e h)

  -- A code is spent: once the guard accepted one, and until another is issued, it answers every code
  -- of that job and purpose as it answers where no code was issued.
  pub guard-spent :
      (booking : String) (purpose : Purpose) (now later : ℕ) (given again : String)
      (t : List Challenge)
      → IsSingle now t
      → is_accepted (guard compare_hash booking purpose now given t).1 ≡ true
      → now ≤ later
      → guard compare_hash booking purpose later again
          (guard compare_hash booking purpose now given t).0
        ≡ ((guard compare_hash booking purpose now given t).0, otp_invalid)
  unfolding guard live_challenge check_found IsSingle
  guard-spent booking purpose now later given again t single ok order =
      let left : List Challenge = (guard compare_hash booking purpose now given t).0 in
      let spent : live_count booking (purpose_text purpose) now left ≡ 0 =
        check_found-spent booking (purpose_text purpose) now given t _ refl (single _ _) ok in
      let still : live_count booking (purpose_text purpose) later left ≡ 0 =
        omega
          (arith, spent, live_count-later booking (purpose_text purpose) now later left order) in
      ap (λ found. check_found compare_hash found again left)
        (find-none booking (purpose_text purpose) later left still)

module _ (hash : String → String) (compare_hash : String → String → Bool) where
  -- The tables that arise as time goes on, whatever is issued and asked for.
  pub data Reach : ℕ → List Challenge → Type 0 where
    empty : (now : ℕ) → Reach now []
    issued :
        {now : ℕ} {t : List Challenge} (later : ℕ) (booking : String) (purpose : Purpose)
        (next_id : ℕ) (random_code : String)
        → Reach now t
        → now ≤ later
        → Reach later (issue_otp hash booking purpose later next_id random_code t).0
    requested :
        {now : ℕ} {t : List Challenge} (later : ℕ) (booking : String) (caller : Caller)
        (row : Booking) (request : TransitionRequest) (current : Row)
        → Reach now t
        → now ≤ later
        → Reach later (guarded_transition compare_hash booking caller row request later current t).1

  -- However often an event is redelivered and whatever codes are tried, at most one challenge of a
  -- job and a purpose is live: a second code is never minted beside one that the customer has.
  pub Reach-IsSingle : {now : ℕ} {t : List Challenge} → Reach now t → IsSingle now t
  unfolding IsSingle
  Reach-IsSingle (Reach.empty now) b p = omega arith
  Reach-IsSingle (Reach.issued {now} {t} later booking purpose next_id random_code r order) b p =
      let before : IsSingle later t =
        λ x y. omega (arith, Reach-IsSingle r x y, live_count-later x y now later t order) in
      issue_otp-IsSingle hash booking purpose later next_id random_code t before b p
  Reach-IsSingle (Reach.requested {now} {t} later booking caller row request current r order) b p =
      omega (
        arith,
        Reach-IsSingle r b p,
        live_count-later b p now later t order,
        guarded-count compare_hash booking caller row request later current t b p later,
      )
