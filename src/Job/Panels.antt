-- ===== src/Job/Panels.antt =====
-- What the job screen shows beside its buttons: the title, the status pill, the customer's card, the
-- two panels that collect the payment, and the work photos. A text that is looked up in the locale
-- files stands by its key.
use sethu_care.Prelude.{
  ◌≡◌, refl, Bool, true, false, ◌&&◌, String, Option, none, some, List, [], ◌∷◌, str_eq, inl, inr,
  if◌then◌else◌,
}
use sethu_care.Text.{if_truthy, is_truthy, or_empty, or_else}
use Prim.Native.String.{◌++◌ as text_append}
use sethu_care.Job.Buttons.{payable-cases}
use sethu_care.Job.{
  JobResponse, BookingResponse, JobDetail, info, state, is_completed, is_upi_like, has_option,
  is_work_started, address_text, on_success, payment_methods, includes, poll, actions,
}

-- `PaymentResponse`.
pub record PaymentResponse : Type 0 where
  pub status : Option String
  pub amount : Option String
  pub reference : Option String
  pub upi_link : Option String

pub record PhotoResponse : Type 0 where
  pub id : Option String
  pub kind : Option String
  pub url : Option String

abbrev service_name_of : Option JobResponse → Option String
service_name_of none = none
service_name_of (some job) = job.service_name

-- The title of the native header.
unfoldable pub title : JobDetail → String
unfolding info
title s = or_else (service_name_of (info s)) "jobs:detail.service"

pub data Tone : Type 0 where
  success active : Tone

-- The status pill: its label and its tone.
unfoldable pub status_pill : JobDetail → Option (String × Tone)
unfolding state is_completed
status_pill s =
    if is_truthy (some (state s))
    then some (state s, (if is_completed s then success else active))
    else none

-- The customer's card. The two buttons open a telephone link and a maps link.
pub record CustomerCard : Type 0 where
  pub customer_name : String
  pub address : String
  pub quoted_total : Option String
  pub call_link : Option String
  pub navigates : Bool

abbrev tel_link : Option String → Option String
tel_link t = if is_truthy t then some (text_append "tel:" (or_empty t)) else none

abbrev card_of : JobResponse → CustomerCard
card_of job = record {
  customer_name = or_empty job.customer_name;
  address = address_text job;
  quoted_total = if_truthy job.quoted_total;
  call_link = tel_link job.customer_phone;
  navigates = is_truthy job.line1;
}

unfoldable pub customer_card : JobDetail → CustomerCard
unfolding info address_text
customer_card s = elim (info s) [
  | some job ↦ card_of job
  | none ↦ record {
    customer_name = "";
    address = "";
    quoted_total = none;
    call_link = none;
    navigates = false;
  }
]

pub data CashPanel : Type 0 where
  no_cash deposited deposit : CashPanel

-- The cash that the technician holds; `done` is the deposit's `isSuccess`.
unfoldable pub cash_panel : JobDetail → Bool → CashPanel
unfolding is_completed
cash_panel s done =
    if is_completed s && has_option s.chosen_method "CASH"
    then (if done then deposited else deposit)
    else no_cash

pub data UpiPanel : Type 0 where
  no_upi paid : UpiPanel
  collect : (amount reference link : Option String) → UpiPanel

abbrev is_captured : Option PaymentResponse → Bool
is_captured none = false
is_captured (some p) = has_option p.status "CAPTURED"

abbrev collect_of : Option PaymentResponse → UpiPanel
collect_of none = collect none none none
collect_of (some p) = collect (if_truthy p.amount) (if_truthy p.reference) (if_truthy p.upi_link)

-- The UPI collection. The link stands as a QR code and as a button that opens it.
unfoldable pub upi_panel : JobDetail → Option PaymentResponse → UpiPanel
unfolding is_completed is_upi_like
upi_panel s payment =
    if is_completed s && is_upi_like s
    then (if is_captured payment then paid else collect_of payment)
    else no_upi

pub data PhotoPanel : Type 0 where
  no_photos : PhotoPanel
  photos : (message : Option String) (kinds : List String) → PhotoPanel

abbrev photo_kinds : List PhotoResponse → List String
photo_kinds [] = []
photo_kinds (p ∷ ps) = or_empty p.kind ∷ photo_kinds ps

-- What the panel says of the last upload, given the message of its error.
abbrev photo_message : Option String → Option String
photo_message none = none
photo_message (some e) =
    some (
      if str_eq e "uploads-not-configured"
      then "jobs:photos.notConfigured"
      else "jobs:photos.error")

unfoldable pub photo_panel : JobDetail → Option String → List PhotoResponse → PhotoPanel
unfolding is_work_started
photo_panel s error listed =
    if is_work_started s then photos (photo_message error) (photo_kinds listed) else no_photos

-- When the backend has accepted the completion code, the screen collects the payment by the method
-- that was sent with it: the cash panel alone for CASH, and the UPI panel alone for UPI and ONLINE.
pub collection_panel :
    (s : JobDetail) (m : String) (result : BookingResponse) (payment : Option PaymentResponse)
    → result.state ≡ some "COMPLETED"
    → includes payment_methods m ≡ true
    → let t = on_success s "VERIFY_COMPLETION" (some m) result in
      (cash_panel t false ≡ (if str_eq m "CASH" then deposit else no_cash))
      × (upi_panel t payment ≡ (
          if str_eq m "CASH"
          then no_upi
          else if is_captured payment
          then paid
          else collect_of payment))
unfolding on_success cash_panel upi_panel state
collection_panel s m result payment done h = elim (payable-cases m h) [
  | inl e ↦ rw (e, done) (refl, refl)
  | inr (inl e) ↦ rw (e, done) (refl, refl)
  | inr (inr e) ↦ rw (e, done) (refl, refl)
]

-- Once a transition was answered, the answer hides whatever the job list says later: neither the
-- state that the screen shows nor the actions that it offers follow the list.
pub stale-poll :
    (s : JobDetail) (action : String) (method : Option String) (result : BookingResponse)
    (told : String) (jobs : List JobResponse)
    → result.state ≡ some told
    → let t = on_success s action method result in
      (state (poll t jobs) ≡ told) × (actions (poll t jobs) ≡ actions t)
unfolding on_success poll state actions
stale-poll s action method result told jobs e = (rw e, refl)
