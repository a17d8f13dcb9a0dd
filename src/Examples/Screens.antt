-- ===== src/Examples/Screens.antt =====
-- The screens to sign in, to choose an address and to add a photo, at concrete inputs.
use mathlib.Core.List.{Memᴰ}
use sethu_care.Prelude.{◌≡◌, refl, ◌⊎◌, true, false, String, none, some, List, [], ◌∷◌}
use sethu_care.Text.Digits.{text_length}
use sethu_care.SignIn.{Verify, VerifyEvent, tick, press_resend}
use sethu_care.SignIn.Admin.{
  LoginEvent, press_send, press_verify, code_sent, code_checked, type_code, login_step, login_run,
  open_page, shell, admin_tokens, shell-login_run,
}
use sethu_care.Address.{
  CreateAddressRequest, FormEvent, type_line1, type_city, type_pincode, initial_form, form_run,
  save,
}
use sethu_care.Address.Requests.{IsClean, LacksField, Carries, save-form_run}
use sethu_care.Photos.{
  before, resolved, rejected, response, CloudinaryUpload, World, add_work_photo,
}
use sethu_care.Photos.Laws.{Ends, add_work_photo-Ends}

abbrev typed : List String
typed = "90000-" ∷ "90000 00001" ∷ []

abbrev waiting : Verify
waiting = record { phone = some "+919000000001"; code = ""; seconds = 2; resent = 0 }

abbrev presses : List VerifyEvent
presses = press_resend ∷ tick ∷ press_resend ∷ []

abbrev login : List LoginEvent
login =
    press_send
    ∷ code_sent (some none)
    ∷ type_code "123456"
    ∷ press_verify
    ∷ code_checked (some (record { token = some "jwt"; role = some "ADMIN" }))
    ∷ []

logged_in : (shell (login_run (open_page none) login).stored).0 ≡ true
unfolding shell login_run login_step open_page text_length
logged_in = refl

shell-login_run_example :
    (t : String) × ((login_run (open_page none) login).stored ≡ some t)
    × Memᴰ t (admin_tokens login)
shell-login_run_example = shell-login_run login logged_in

abbrev address_typed : List FormEvent
address_typed = type_line1 " 12 MG Road " ∷ type_pincode "560 001 x" ∷ type_city "Bengaluru" ∷ []

save-form_run_example :
    let f = form_run initial_form address_typed in
    ((save f ≡ none) × LacksField f)
    ⊎ ((r : CreateAddressRequest) × (save f ≡ some r) × IsClean r × Carries f r)
save-form_run_example = save-form_run address_typed

abbrev answer : CloudinaryUpload
answer = record {
  public_id = "p1";
  version = "7";
  signature = "sig";
  secure_url = "https://res.cloudinary.com/p1";
}

abbrev camera : World
camera = record {
  granted = resolved true;
  picked = resolved (record {
    canceled = false;
    assets = some (record { uri = "file:///1.jpg"; mime_type = none } ∷ []);
  });
  signed = resolved (record {
    has_error = false;
    upload = some (record {
      cloud_name = some "sethu";
      api_key = some "k";
      timestamp = some "1700000000";
      folder = some "work";
      signature = some "sig";
    });
  });
  upload_answer = λ url form. resolved (response (resolved answer));
  record_error = λ kind uploaded. rejected "Network request failed";
}

add_work_photo-Ends_example :
    Ends camera "b1" before
      (add_work_photo camera "b1" before).0
      (add_work_photo camera "b1" before).1
add_work_photo-Ends_example = add_work_photo-Ends camera "b1" before
