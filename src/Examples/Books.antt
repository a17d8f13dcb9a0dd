-- ===== src/Examples/Books.antt =====
-- The money of a job at concrete inputs.
use Prim.Native.String.{◌++◌ as text_append}
use sethu_care.Prelude.{◌≤◌, ◌≡◌, refl, false, none, some, List, [], ◌∷◌, arith, ◌==◌}
use sethu_care.Ledger.{
  pending, revenue, BookingRow, is_revenue, is_credit, record_completion, capture, bill,
  take_custody, completion_exists, issue_failure_credit, credit,
}
use sethu_care.Ledger.Calls.{Call, call, calls, no_books}
use sethu_care.Ledger.Custody.{IsBalanced, held}
use sethu_care.Ledger.Custody.Reach.{calls-IsBalanced}
use sethu_care.Ledger.Once.{record_completion-again}
use sethu_care.Ledger.Counts.{entry_count, calls-booked_once}
use sethu_care.Ledger.Flow.{IsUnbilled, online-revenue}
use sethu_care.Ledger.Position.{my_cash}
use sethu_care.Earnings.{earnings, answered, says_all_clear, earnings-all_clear}

abbrev job : BookingRow
job = record {
  id = "b1";
  order_id = "o1";
  customer_id = "c1";
  technician_id = some "t1";
  quoted_total_paise = 59900;
}

abbrev paid_in_cash : List Call
paid_in_cash =
    Call.completion (job ∷ []) "b1" "CASH"
    ∷ Call.completion (job ∷ []) "b1" "CASH"
    ∷ Call.handed_in "b1" "t2"
    ∷ Call.handed_in "b1" "t1"
    ∷ Call.handed_in "b1" "t1"
    ∷ []

calls-IsBalanced_example : IsBalanced (calls paid_in_cash no_books).entries
calls-IsBalanced_example = calls-IsBalanced paid_in_cash

record_completion-again_example :
    (record_completion
      (job ∷ [])
      "b1"
      "CASH"
      (record_completion (job ∷ []) "b1" "CASH" no_books).0).0
    ≡ (record_completion (job ∷ []) "b1" "CASH" no_books).0
record_completion-again_example = record_completion-again (job ∷ []) "b1" "CASH" no_books

abbrev failed_twice : List Call
failed_twice = Call.failure (job ∷ []) "b1" 10000 ∷ Call.failure (job ∷ []) "b1" 10000 ∷ []

calls-booked_once_example :
    (entry_count is_revenue "o1" (calls failed_twice no_books).entries ≤ 1)
    × (entry_count is_credit "o1" (calls failed_twice no_books).entries ≤ 1)
calls-booked_once_example = calls-booked_once failed_twice "o1"

one_credit : entry_count is_credit "o1" (calls failed_twice no_books).entries ≡ 1
unfolding calls call issue_failure_credit credit
one_credit = refl

unbilled : IsUnbilled (job ∷ []) job no_books
unfolding completion_exists
unbilled = record { read = refl; charged = refl; unbooked = refl; uncollected = refl }

online-revenue_example :
    let after = (record_completion (job ∷ []) "b1" "UPI" no_books).0 in
    (after.entries ≡ [])
    × (after.payments
        ≡ record {
          booking_id = job.id;
          order_id = job.order_id;
          amount_paise = job.quoted_total_paise;
          reference = text_append "SC" job.id;
          status = pending;
          provider_ref = none;
        }
          ∷ [])
    × ((capture (job ∷ []) (text_append "SC" job.id) none after).0.entries
        ≡ record {
          kind = revenue;
          amount_paise = job.quoted_total_paise;
          order_id = some job.order_id;
          booking_id = none;
          customer_id = some job.customer_id;
          technician_id = none;
          method = some "UPI";
        }
          ∷ [])
online-revenue_example = online-revenue (job ∷ []) job "UPI" none no_books refl refl unbilled

abbrev collected_once : List Call
collected_once = Call.completion (job ∷ []) "b1" "CASH" ∷ []

holds :
    held "t1" (calls collected_once no_books).entries (calls collected_once no_books).entries
    ≡ 59900
unfolding calls call record_completion bill completion_exists take_custody
holds = refl

earnings-all_clear_example :
    says_all_clear
      (earnings (some (answered (my_cash "t1" (calls collected_once no_books)))) false false)
    ≡ (held "t1" (calls collected_once no_books).entries (calls collected_once no_books).entries
        == 0)
earnings-all_clear_example = earnings-all_clear collected_once "t1" (omega (arith, holds))
