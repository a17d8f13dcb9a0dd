-- ===== src/Lib.antt =====
-- Verification of the SETHU-CARE apps: the customer's and the technician's mobile apps and the admin
-- console, in TypeScript under mobile, and the parts of the Go backend that answer their transition
-- requests, check the codes of a job and keep its money.
--
-- The program. A customer signs in with a code sent to a phone number, finds a service, pays for a
-- variant of it and follows the booking; a technician takes the booking through its states, two of
-- them opened by a code of the customer's; an admin signs in to a console. The backend holds the
-- booking and its state machine. The apps keep a session and preferences on the device, and every
-- request carries the session's token.
--
-- The modules.
-- - Prelude and Text: shared names, lists measured by native numbers, and JavaScript texts
--   (truthiness, trim, the digits of a field, includes).
-- - Machine: internal/booking/state.go, statemachine.go and permission.go. `apply` is Apply,
--   `allowed_actions` is AllowedActions, `can_perform` is CanPerform; Machine/Table is about single
--   moves and Machine/Runs about histories.
-- - Backend: `transition` of internal/httpapi/bookings.go over Apply and authorize of
--   internal/booking/service.go, as a function on a booking's row and its log; Backend/Laws.
--   Backend/Create is `Create` of that service.
-- - Verification: internal/verification/service.go and purpose.go, the codes of a job, with the
--   transaction in which a transition runs the guard. Verification/Guesses is about wrong codes,
--   Verification/Single about the one live code, Verification/Purposes about the two kinds.
-- - Money: internal/money/money.go and mobile/packages/domain/src/money.ts. Money/Bounds is about
--   overflow, Money/Roundtrip and Money/Accepted about printing and reading, Money/Positive about the
--   screens' test on a printed amount.
-- - Ledger: internal/ledger/service.go with its queries. Ledger/Calls runs its calls in any order and
--   carries a property of the rows over them; Ledger/Custody, Counts and Attached are such properties,
--   Ledger/Once is about redelivery, Ledger/Flow about the way from a booking to its revenue, and
--   Ledger/Position gives the answers of internal/httpapi/cash.go.
-- - Job: mobile/apps/provider/src/app/job/[id].tsx. `JobDetail` is the component's state, `press` its
--   buttons, `on_success` the answer of a mutation, `poll` the job list. Job/Panels holds the cards of
--   the screen; Job/Sync says what the screen shows of a booking, Job/Sync/Steps sets the screen and
--   the backend side by side as a step relation, in which an answer is late or lost, and Job/Sync/Kept
--   is about any sequence of steps; Job/Buttons and Job/Requests are about what a press sends and what
--   the backend makes of it.
-- - Photos: mobile/apps/provider/src/features/photos/api.ts, a monad of calls and thrown errors.
-- - Checkout: mobile/apps/customer/src/features/checkout/discount.ts, with Checkout/Totals about it;
--   Checkout/Confirm: app/book/confirm.tsx beside it, with the payment and the booking as events, and
--   Checkout/Confirm/Accounts about any sequence of them.
-- - Device, Preferences, Session: mobile/packages/core/src/session/storage.ts, preferences/store.ts
--   and session/store.ts, with the auth gate of mobile/apps/customer/src/app/_layout.tsx. Setters
--   change the state and the device; Preferences/Restart and Session/Laws are about an app that is
--   started again, Preferences/Recent about the recent searches.
-- - Client: mobile/packages/api-client/src/index.ts and mobile/apps/customer/src/lib/config.ts, with the
--   configuration and the headers of the generated client. No request asks for other authorization.
-- - SignIn: mobile/apps/customer/src/app/(auth)/sign-in.tsx and verify.tsx, with SignIn/Admin for
--   mobile/apps/admin/app/login/page.tsx and components/shell.tsx, and SignIn/Technician for the
--   technician's two screens, mobile/apps/provider/src/app/(auth).
-- - Booking: mobile/apps/customer/src/app/booking/[id].tsx, app/(tabs)/bookings/index.tsx and the
--   queries of features/booking, payment and tracking. Booking/Listing is the page of the list.
-- - Catalog: mobile/apps/customer/src/app/search.tsx and service/[id].tsx, with sampleRating of
--   mobile/packages/ui/src/service-images.ts. Catalog/Page is the search screen as a whole with the
--   card of a service, and Catalog/Page/Recall is about what it leaves in the preferences.
-- - Address: the address picker of mobile/apps/customer/src/features/address and the sheet of
--   features/location, whose list Address/Sheet shows.
-- - Sharing: mobile/apps/provider/src/features/tracking/share-location.ts, one run of its effect, with
--   Sharing/Stop about its clean-up.
-- - Home: mobile/apps/provider/src/app/(tabs)/index.tsx, with Home/Switch about its online switch
--   and Home/Page for what it shows.
-- - Earnings: mobile/apps/provider/src/app/(tabs)/earnings/index.tsx.
-- - Operations: the pages for payments, cash, employees and the overview under
--   mobile/apps/admin/app/(app); Operations/Assign is its assignments/page.tsx with the dialog, and
--   Operations/Queue sets two of the pages on the ledger.
-- - Storefront: mobile/apps/customer/src/app/(tabs)/index.tsx and categories.tsx, with
--   Storefront/Offers for (tabs)/offers/index.tsx and Storefront/Pictures for the pictures.
-- - Account: the account screens of both apps, the language sheets and the preferences gate.
-- - Kit: components of mobile/packages/ui/src/components and the customer's tab bar.
-- - Console: mobile/apps/admin/components/catalog-forms.tsx and, with Console/Services, the page in
--   app/(app)/services/page.tsx, each form a record with its mutation.
-- - Examples: the theorems at concrete inputs.
--
-- How they meet. Job and Booking send a `TransitionRequest` of Backend, which asks Machine. Checkout's
-- screen pays what its totals say. Verification guards two of Backend's transitions; what Backend
-- completes, Ledger bills in Money, and Earnings and Operations show it. Preferences and Session write Device, Catalog and Address write
-- Preferences, and Client reads the token of Session.
--
-- Bounds. Lists of events, texts and headers are taken apart one by one; only the digits of a printed
-- amount run on fuel, nineteen rounds, which is enough for every int64 (Money/Roundtrip).
-- Amounts are whole paise as natural numbers; percentOff rounds as the exact quotient does while the
-- product of price and rate stays below 2 ^ 46. What the backend computes in int64 keeps its
-- wrap-around (Money). Texts are compared by their characters, and the length
-- of a text is taken where it holds digits, or against a bound of six.
--
-- Parameters. toUpperCase, toLowerCase, Number, JSON, the camera, Cloudinary, the payment SDK, the outcome of a
-- code check and the row that a compare-and-swap meets come from outside, as arguments or events. Of
-- JSON, Preferences relies on two things: parsing gives back a printed list of texts, and an empty text
-- is not JSON.
--
-- Not modelled. Layout, icons, maps, translations (a text stands by its key), cache
-- invalidation, the generated client beyond its base URL and headers, and the backend's dispatch, outbox,
-- notifications, uploads and listing queries: they hold no state of the above, or wait for their own
-- modules. Calls of the device's storage are taken to finish in the order they are made, and each call
-- of the ledger runs alone: two consumers that race between a check and its insertion are left out.
pub mod Prelude
pub mod Text
pub mod Machine
pub mod Money
pub mod Backend
pub mod Verification
pub mod Ledger
pub mod Earnings
pub mod Operations
pub mod Job
pub mod Checkout
pub mod Device
pub mod Preferences
pub mod Session
pub mod Client
pub mod SignIn
pub mod Booking
pub mod Catalog
pub mod Address
pub mod Photos
pub mod Sharing
pub mod Home
pub mod Storefront
pub mod Account
pub mod Kit
pub mod Console
pub mod Examples
