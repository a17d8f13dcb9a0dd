-- ===== src/SignIn/Phone.antt =====
-- The phone number that is sent to the backend.
use Prim.Native.String.{◌++◌ as text_append}
use sethu_care.Prelude.{
  ◌≡◌, refl, ◌⊎◌, inl, inr, true, String, none, some, List, [], ◌∷◌, ◌==◌, arith, Bool-cases,
}
use sethu_care.Text.{is_digits}
use sethu_care.Text.Digits.{
  keep_digits, text_length, all_digits, keep_digits-all_digits, slice-all_digits,
  is_digits-all_digits,
}
use sethu_care.SignIn.{SignIn, initial, on_change, on_send}

-- The screen after some edits of the field.
pub edit : SignIn → List String → SignIn
edit s [] = s
edit s (t ∷ ts) = edit (on_change s t) ts

edit-all_digits :
    (s : SignIn) (ts : List String)
    → all_digits s.local_digits ≡ true
    → all_digits (edit s ts).local_digits ≡ true
unfolding edit on_change
edit-all_digits s [] h = h
edit-all_digits s (t ∷ ts) h =
    edit-all_digits (on_change s t) ts
      (slice-all_digits 10 (keep_digits t) (keep_digits-all_digits t))

-- Whatever was typed or pasted, a code is requested only for +91 and ten digits, those in the field;
-- otherwise an error is shown.
pub on_send-phone :
    (ts : List String)
    → let s = edit initial ts in
      ((is_digits 10 s.local_digits ≡ true)
        × (on_send s ≡ (s, some (text_append "+91" s.local_digits))))
      ⊎ (on_send s ≡ (record s { error = some "signIn.invalidPhone" }, none))
unfolding on_send
on_send-phone ts =
    let s = edit initial ts in
    elim (Bool-cases (text_length s.local_digits == 10)) [
      | inl e ↦ inl (
        is_digits-all_digits 10 s.local_digits (edit-all_digits initial ts refl) (ground arith),
        rw e,
      )
      | inr e ↦ inr (rw e)
    ]
