-- ===== src/Examples/Pages.antt =====
-- The console's operations pages and the account screens at concrete inputs.
use sethu_care.Prelude.{◌≡◌, ◌⊎◌, refl, true, false, String, none, some, List, [], ◌∷◌, keep}
use sethu_care.Ledger.{Books, BookingRow, capture, pending_payment}
use sethu_care.Operations.{payments_page}
use sethu_care.Operations.Queue.{is_other, pending_payments, payments_page-captured}
use sethu_care.Operations.Assign.{find_technician, assign, close, succeeded, Event, run, opened}
use sethu_care.Device.{Device, native, load_token}
use sethu_care.Session.{Session, authenticated, unauthenticated}
use sethu_care.Account.{press_sign_out, press_delete, press_cancel, confirm_delete, deleted}
use sethu_care.Account.Deletion.{run-signed_out}

abbrev job : String → String → BookingRow
job id order = record {
  id = id;
  order_id = order;
  customer_id = "c1";
  technician_id = some "t1";
  quoted_total_paise = 59900;
}

abbrev awaiting : Books
awaiting = record {
  entries = [];
  payments = pending_payment (job "b2" "o2") ∷ pending_payment (job "b1" "o1") ∷ [];
}

abbrev show_time : String → String
show_time t = t

payments_page-captured_example :
    payments_page show_time
      (some (pending_payments (capture (job "b1" "o1" ∷ []) "SCb1" none awaiting).0.payments))
      false
      false
    ≡ payments_page show_time
        (some (keep (is_other "SCb1") (pending_payments awaiting.payments)))
        false
        false
payments_page-captured_example =
    payments_page-captured show_time (job "b1" "o1" ∷ []) awaiting "SCb1" none
      (pending_payment (job "b1" "o1")) (job "b1" "o1") false false refl refl refl

abbrev clicks : List Event
clicks =
    find_technician (some "b1")
    ∷ assign (some "t1")
    ∷ assign (some "t2")
    ∷ close
    ∷ find_technician (some "b2")
    ∷ assign (some "t2")
    ∷ succeeded
    ∷ []

abbrev phone : Device
phone = record {
  platform = native;
  has_local_storage = false;
  secure_store = λ key. some "t0k3n";
  local_storage = λ key. none;
}

abbrev signed_in : Session
signed_in = record { token = some "t0k3n"; user = none; status = authenticated }

run-signed_out_example :
    let (a, (s, d)) =
      sethu_care.Account.run true
        (sethu_care.Account.opened, (signed_in, phone))
        (press_delete ∷ press_cancel ∷ press_delete ∷ confirm_delete ∷ deleted ∷ []) in
    (a.route ≡ none) ⊎ ((s.status ≡ unauthenticated) × (s.token ≡ none) × (load_token d ≡ none))
run-signed_out_example =
    run-signed_out true (press_delete ∷ press_cancel ∷ press_delete ∷ confirm_delete ∷ deleted ∷ [])
      signed_in phone refl
