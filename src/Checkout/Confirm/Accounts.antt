-- ===== src/Checkout/Confirm/Accounts.antt =====
-- What holds of the checkout screen through any sequence of presses and answers.
use mathlib.Core.List.{Memᴰ}
use sethu_care.Prelude.{
  refl, ℕ, ◌+◌, ◌≡◌, ◌≤◌, Bool, true, false, String, Option, none, some, List, [], ◌∷◌, arith,
  length, All,
}
use sethu_care.Text.{is_truthy, or_empty, is_truthy-or_empty}
use sethu_care.Checkout.Totals.{checkout_adds_up}
use sethu_care.Checkout.Confirm.{
  Confirm, Order, CreateBookingRequest, World, Event, type_promo, select_address, press_pay,
  payment_succeeds, booking_refused, totals, on_captured, step, run, mount,
}

abbrev pub count_some {ℓ} : {A : Type ℓ} → Option A → ℕ
count_some none = 0
count_some (some a) = 1

-- The button is free only while nothing is open; at most one payment or booking is under way; and
-- every captured payment is a booking created, one refused, or the one being created.
pub record IsConsistent (w : World) : Type 0 where
  pub idle : w.screen.paying ≡ false → count_some w.pending + count_some w.creating ≡ 0
  pub single : count_some w.pending + count_some w.creating ≤ 1
  pub accounted : length w.captured ≡ w.created + w.refused + count_some w.creating
  pub paired : length w.sent ≡ length w.captured

-- The addresses that were chosen.
abbrev pub chosen : List Event → List String
chosen [] = []
chosen (select_address id ∷ es) = id ∷ chosen es
chosen (e ∷ es) = chosen es

-- A booking request for one of the variant on sale, to one of the addresses, which is not blank.
abbrev pub IsProper : List String → String → CreateBookingRequest → Type 0
IsProper addresses v r =
    (r.variant_id ≡ v)
    × Memᴰ r.address_id addresses
    × (is_truthy (some r.address_id) ≡ true)
    × (r.quantity ≡ 1)

-- A checkout opened for at most the price, for the variant on sale and one of the addresses.
abbrev pub IsOffered : List String → String → ℕ → Option Order → Type 0
IsOffered addresses v base none = Unit
IsOffered addresses v base (some o) =
    (o.amount_paise ≤ base)
    × (o.variant_id ≡ v)
    × Memᴰ o.address_id addresses
    × (is_truthy (some o.address_id) ≡ true)

abbrev pub IsAmong : List String → Option String → Type 0
IsAmong addresses none = Unit
IsAmong addresses (some id) = Memᴰ id addresses

pub record IsFair (addresses : List String) (v : String) (base : ℕ) (w : World) : Type 0 where
  pub same_variant : w.screen.variant_id ≡ v
  pub same_price : w.screen.base_paise ≡ base
  pub selected : IsAmong addresses w.screen.address_id
  pub offered : IsOffered addresses v base w.pending
  pub prices : All (λ a. a ≤ base) w.captured
  pub requests : All (IsProper addresses v) w.sent

totals-le : (upper : String → String) (s : Confirm) → (totals upper s).final_paise ≤ s.base_paise
unfolding totals
totals-le upper s =
    let (fits, sum, same) =
      checkout_adds_up upper s.base_paise (some s.applied_promo) s.sethu_plus in
    omega arith

captured-IsFair :
    (addresses : List String) (v : String) (base : ℕ) (w : World)
    → IsFair addresses v base w
    → IsFair addresses v base (on_captured w)
unfolding on_captured
captured-IsFair addresses v base w h = ground arith

selected-Memᴰ :
    (addresses : List String) (id : Option String)
    → is_truthy id ≡ true
    → IsAmong addresses id
    → Memᴰ (or_empty id) addresses
selected-Memᴰ addresses none t h = cc
selected-Memᴰ addresses (some id) t h = h

module _ (upper : String → String) (configured : Bool) where
  step-IsConsistent :
      (w : World) (e : Event) → IsConsistent w → IsConsistent (step upper configured w e)
  unfolding step
  step-IsConsistent w (type_promo t) h = ground arith
  step-IsConsistent w e h = ground arith

  run_from-IsConsistent :
      (w : World) (es : List Event) → IsConsistent w → IsConsistent (run upper configured w es)
  unfolding run
  run_from-IsConsistent w [] h = h
  run_from-IsConsistent w (e ∷ es) h =
      run_from-IsConsistent (step upper configured w e) es (step-IsConsistent w e h)

  -- From the opening of the screen on, through any presses and answers: while the button is not
  -- loading nothing is open, there is never more than one payment or booking under way, a booking is
  -- requested once for each captured payment, and each captured payment is a booking that was
  -- created, or refused, or is being created.
  pub run-IsConsistent :
      (v : String) (name : Option String) (base : ℕ) (user : Option String) (member : Bool)
      (es : List Event)
      → IsConsistent (run upper configured (mount v name base user member) es)
  unfolding mount
  run-IsConsistent v name base user member es = run_from-IsConsistent _ es (ground arith)

  -- The event chooses one of the addresses, if it chooses any.
  abbrev IsKnown : List String → Event → Type 0
  IsKnown addresses (select_address id) = Memᴰ id addresses
  IsKnown addresses _ = Unit

  step-IsFair :
      (addresses : List String) (v : String) (base : ℕ) (w : World) (e : Event)
      → IsKnown addresses e
      → IsFair addresses v base w
      → IsFair addresses v base (step upper configured w e)
  unfolding step
  step-IsFair addresses v base w (type_promo t) known h = ground arith
  step-IsFair addresses v base w (select_address id) known h = record {
    same_variant = h.same_variant;
    same_price = h.same_price;
    selected = known;
    offered = h.offered;
    prices = h.prices;
    requests = h.requests;
  }
  step-IsFair addresses v base w press_pay known h = ground (
    arith,
    selected-Memᴰ addresses w.screen.address_id,
    is_truthy-or_empty w.screen.address_id,
    totals-le upper w.screen,
  )
  step-IsFair addresses v base w payment_succeeds known h = captured-IsFair addresses v base w h
  step-IsFair addresses v base w e known h = ground arith

  run_from-IsFair :
      (addresses : List String) (v : String) (base : ℕ) (w : World) (es : List Event)
      → All (IsKnown addresses) es
      → IsFair addresses v base w
      → IsFair addresses v base (run upper configured w es)
  unfolding run
  run_from-IsFair addresses v base w [] known h = h
  run_from-IsFair addresses v base w (e ∷ es) (here, known) h =
      run_from-IsFair addresses v base (step upper configured w e) es known
        (step-IsFair addresses v base w e here h)

  chosen-IsKnown :
      (addresses : List String) (es : List Event)
      → ((id : String) → Memᴰ id (chosen es) → Memᴰ id addresses)
      → All (IsKnown addresses) es
  chosen-IsKnown addresses [] sub = tt
  chosen-IsKnown addresses (select_address id ∷ es) sub =
      (sub id (Memᴰ.head refl), chosen-IsKnown addresses es (λ x m. sub x (Memᴰ.tail m)))
  chosen-IsKnown addresses (_ ∷ es) sub = (tt, chosen-IsKnown addresses es sub)

  -- From the opening of the screen on, through any presses and answers: no captured amount exceeds
  -- the price, and every booking request is for one of the variant on sale, to one of the addresses
  -- that were chosen on the screen.
  pub run-IsFair :
      (v : String) (name : Option String) (base : ℕ) (user : Option String) (member : Bool)
      (es : List Event)
      → IsFair (chosen es) v base (run upper configured (mount v name base user member) es)
  unfolding mount
  run-IsFair v name base user member es =
      run_from-IsFair (chosen es) v base _ es (chosen-IsKnown (chosen es) es (λ x m. m))
        (ground arith)

  -- After the backend refuses the booking of a captured payment, the next press on the button and a
  -- payment that succeeds capture a second amount, with no booking created for the first.
  pub refused-captured_again :
      (w : World) (r : CreateBookingRequest)
      → w.creating ≡ some r
      → is_truthy w.screen.address_id ≡ true
      → configured ≡ true
      → let w' = run upper configured w (booking_refused ∷ press_pay ∷ payment_succeeds ∷ []) in
        (w'.captured ≡ (totals upper w.screen).final_paise ∷ w.captured) × (w'.created ≡ w.created)
  unfolding run step totals
  refused-captured_again w r busy chosen ready = (ground arith, ground arith)

  -- From an idle screen with an address chosen and a key configured, two presses and a change of the
  -- address between them lead to one captured amount, the total that the button showed at the first
  -- press, and to one request, for the address chosen at the first press.
  pub pressed-captured :
      (w : World) (address other : String)
      → w.screen.paying ≡ false
      → w.screen.address_id ≡ some address
      → is_truthy (some address) ≡ true
      → configured ≡ true
      → let w' =
          run upper configured w
            (press_pay ∷ select_address other ∷ press_pay ∷ payment_succeeds ∷ []) in
        (w'.captured ≡ (totals upper w.screen).final_paise ∷ w.captured)
        × (w'.sent
            ≡ record { address_id = address; variant_id = w.screen.variant_id; quantity = 1 }
              ∷ w.sent)
  unfolding run step totals
  pressed-captured w address other free chosen truthy ready = (ground arith, ground arith)
