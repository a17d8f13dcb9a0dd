-- ===== src/Job/Sync/Steps.antt =====
-- The job screen and the backend side by side, while the technician alone acts on the booking. A
-- transition that the backend accepts and its answer on the screen are two steps: in between the
-- screen goes on, and the answer may be lost, since the mutation of mobile/apps/provider/src/app/job/
-- [id].tsx has no callback for an error.
use mathlib.Core.List.{Memᴰ}
use sethu_care.Prelude.{
  ◌≡◌, refl, ap, subst, Bool, true, String, Option, none, some, List, [], ◌∷◌, find,
}
use sethu_care.Machine.{State, state_text}
use sethu_care.Backend.{
  Booking, Caller, TransitionRequest, Reply, ok, Row, transition, booking_actions,
}
use sethu_care.Backend.Laws.{is_refusal}
use sethu_care.Job.{
  JobResponse, BookingResponse, JobDetail, Button, mount, poll, found, info, on_success, enter_code,
  choose_method, payment_methods, includes, is_shown, press, has_id,
}
use sethu_care.Job.Buttons.{IsHolder}
use sethu_care.Job.Sync.{
  Lists, Shows, blank, by_list, by_answer, InStep, Shows-of_info, Shows-poll, info-drop,
}

-- The answer of an accepted transition, with the action and the method it was asked for.
pub record Answer : Type 0 where
  pub action : String
  pub method : Option String
  pub told : String
  pub listed : List String

-- Whether the screen has had the answers: of every transition so far, each before the next one was
-- accepted; of all but the last one, which is under way; or not so.
pub data Link : Type 0 where
  settled : Link
  owed : Answer → Link
  astray : Link

-- The screen, the booking, the answers, and the states in which the booking was before.
pub record Config : Type 0 where
  pub screen : JobDetail
  pub booking : Booking
  pub link : Link
  pub past : List State

abbrev pub opened : String → Booking → Config
opened id b = record { screen = mount id; booking = b; link = settled; past = [] }

-- After another accepted transition.
abbrev pub after_commit : Link → Answer → Link
after_commit settled a = owed a
after_commit _ a = astray

abbrev pub result_of : Answer → BookingResponse
result_of a = record { allowed_actions = some a.listed; state = some a.told }

abbrev pub hear : JobDetail → Answer → JobDetail
hear s a = on_success s a.action a.method (result_of a)

abbrev pub answer_of : TransitionRequest → String → List String → Answer
answer_of r told listed = record {
  action = r.action;
  method = r.payment_method;
  told = told;
  listed = listed;
}

pub data Step (caller : Caller) (c : Config) : Config → Type 0 where
  -- A job list comes, which tells the state of the booking when it was read, now or before.
  polled :
      (st : State) (jobs : List JobResponse)
      → Memᴰ st (c.booking.state ∷ c.past)
      → Lists c.screen.booking_id st jobs
      → Step caller c (record c { screen = poll c.screen jobs })
  dropped :
      (jobs : List JobResponse)
      → find (has_id c.screen.booking_id) jobs ≡ none
      → Step caller c (record c { screen = poll c.screen jobs })
  typed : (t : String) → Step caller c (record c { screen = enter_code c.screen t })
  picked :
      (option : String)
      → includes payment_methods option ≡ true
      → Step caller c (record c { screen = choose_method c.screen option })
  pressed :
      (deposited : Bool) (button : Button)
      → is_shown c.screen deposited button ≡ true
      → Step caller c (record c { screen = (press c.screen button).0 })
  -- The backend accepts a transition, and its answer is under way.
  accepted :
      (request : TransitionRequest) (matches : Bool) (current : Row) (b : Booking) (told : String)
      (listed : List String)
      → request.technician_id ≡ none
      → transition caller c.booking request matches current ≡ (b, ok told listed)
      → Step caller c record {
        screen = c.screen;
        booking = b;
        link = after_commit c.link (answer_of request told listed);
        past = c.booking.state ∷ c.past;
      }
  -- The backend refuses one: the screen does nothing.
  refused :
      (request : TransitionRequest) (matches : Bool) (current : Row) (b : Booking) (reply : Reply)
      → transition caller c.booking request matches current ≡ (b, reply)
      → is_refusal reply ≡ true
      → Step caller c (record c { booking = b })
  -- The answer reaches the screen, or is lost; and an answer that comes late says anything.
  heard :
      (a : Answer)
      → c.link ≡ owed a
      → Step caller c (record c { screen = hear c.screen a; link = settled })
  lost : (a : Answer) → c.link ≡ owed a → Step caller c (record c { link = astray })
  heard_late :
      (a : Answer) → c.link ≡ astray → Step caller c (record c { screen = hear c.screen a })

pub data Reach (caller : Caller) (c : Config) : Config → Type 0 where
  here : Reach caller c c
  next : {d e : Config} → Reach caller c d → Step caller d e → Reach caller c e

only_now : {st now : State} {past : List State} → past ≡ [] → Memᴰ st (now ∷ past) → st ≡ now
only_now {st} {now} e m =
    let here : Memᴰ st (now ∷ []) = rw e at m in
    elim here [ Memᴰ.head same ↦ same | Memᴰ.tail later ↦ elim later [ ] ]

-- A list that was read in an earlier state changes nothing once the screen has had an answer.
Shows-poll_past :
    {s : JobDetail} {st now : State} (jobs : List JobResponse)
    → (s.live_state ≡ none → st ≡ now)
    → Lists s.booking_id st jobs
    → Shows s now
    → Shows (poll s jobs) now
unfolding poll
Shows-poll_past {s} jobs same l (blank p m n) =
    Shows-poll jobs (subst (λ (x : State). Lists s.booking_id x jobs) (same p) l) (blank p m n)
Shows-poll_past {s} jobs same l (by_list p m job i k) =
    Shows-poll jobs (subst (λ (x : State). Lists s.booking_id x jobs) (same p) l)
      (by_list p m job i k)
Shows-poll_past jobs same l (by_answer p m) = by_answer p m

pub polled-InStep :
    {caller : Caller} (c : Config) {st : State} (jobs : List JobResponse)
    → Memᴰ st (c.booking.state ∷ c.past)
    → Lists c.screen.booking_id st jobs
    → (c.screen.live_state ≡ none → c.past ≡ [])
    → InStep caller c.screen c.booking
    → InStep caller (poll c.screen jobs) c.booking
unfolding poll found
polled-InStep c jobs was l fresh k = record {
  holder = k.holder;
  shows = Shows-poll_past jobs (λ n. only_now (fresh n) was) l k.shows;
  started = k.started;
  completing = k.completing;
  payable = k.payable;
  seen = λ job e. rw e refl;
}

pub dropped-InStep :
    {caller : Caller} {s : JobDetail} {b : Booking} (jobs : List JobResponse)
    → find (has_id s.booking_id) jobs ≡ none
    → InStep caller s b
    → InStep caller (poll s jobs) b
unfolding poll found
dropped-InStep {s} jobs gone k = record {
  holder = k.holder;
  shows = Shows-of_info refl refl (info-drop s jobs gone k.seen) k.shows;
  started = k.started;
  completing = k.completing;
  payable = k.payable;
  seen = λ job e. cc (rw gone at e);
}

pub typed-InStep :
    {caller : Caller} {s : JobDetail} {b : Booking} (t : String)
    → InStep caller s b
    → InStep caller (enter_code s t) b
unfolding enter_code info found
typed-InStep t k = record {
  holder = k.holder;
  shows = Shows-of_info refl refl refl k.shows;
  started = k.started;
  completing = k.completing;
  payable = k.payable;
  seen = k.seen;
}

pub picked-InStep :
    {caller : Caller} {s : JobDetail} {b : Booking} (option : String)
    → includes payment_methods option ≡ true
    → InStep caller s b
    → InStep caller (choose_method s option) b
unfolding choose_method info found
picked-InStep option listed k = record {
  holder = k.holder;
  shows = Shows-of_info refl refl refl k.shows;
  started = k.started;
  completing = k.completing;
  payable = listed;
  seen = k.seen;
}

-- The answer to the last transition brings the screen back into step, whatever it showed.
pub heard-InStep :
    {caller : Caller} (s : JobDetail) {b : Booking} (a : Answer)
    → IsHolder caller b
    → includes payment_methods s.method ≡ true
    → ((job : JobResponse) → found s ≡ some job → s.snapshot ≡ some job)
    → a.told ≡ state_text b.state
    → a.listed ≡ booking_actions b.state
    → InStep caller (hear s a) b
unfolding on_success found
heard-InStep s a holder payable seen told listed = record {
  holder = holder;
  shows = by_answer (ap some told) (ap some listed);
  started = λ e. cc;
  completing = λ e. cc;
  payable = payable;
  seen = seen;
}
