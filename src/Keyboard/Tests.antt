-- ===== src/Keyboard/Tests.antt =====
-- Runs of the builders, and their theorems at concrete keyboards, a button being a number.
use golagram.Base.{ℕ, ◌≡◌, refl, Bool, List, [], ◌∷◌, concat, All}
use golagram.Keyboard.{adjust_rows, build, new_keyboard}
use golagram.Keyboard.Rows.{IsLaidOut, adjust_rows-IsLaidOut}
use golagram.Keyboard.Built.{
  Call, row_call, add_call, insert_call, adjust_call, build_call, apply_calls, buttons_of, count,
  NonEmpty, build-apply_calls,
}

abbrev five_buttons : List ℕ
five_buttons = 1 ∷ 2 ∷ 3 ∷ 4 ∷ 5 ∷ []

abbrev one_then_two : List ℕ
one_then_two = 1 ∷ 2 ∷ []

adjust_sample : adjust_rows five_buttons one_then_two ≡ (1 ∷ []) ∷ (2 ∷ 3 ∷ []) ∷ (4 ∷ 5 ∷ []) ∷ []
unfolding adjust_rows golagram.Keyboard.adjust_from golagram.Keyboard.next_size
adjust_sample = refl

adjust_rows-IsLaidOut_example :
    (concat (adjust_rows five_buttons one_then_two) ≡ five_buttons)
    × IsLaidOut one_then_two 0 (adjust_rows five_buttons one_then_two)
adjust_rows-IsLaidOut_example = adjust_rows-IsLaidOut five_buttons one_then_two

abbrev some_calls : List (Call ℕ)
some_calls =
    insert_call 1 ∷ insert_call 2 ∷ add_call (3 ∷ []) ∷ build_call ∷ row_call (4 ∷ 5 ∷ []) ∷ []

-- A button added while a row is under construction stands above that row.
build_sample :
    (build (apply_calls some_calls new_keyboard)).0 ≡ (3 ∷ []) ∷ (1 ∷ 2 ∷ []) ∷ (4 ∷ 5 ∷ []) ∷ []
unfolding build golagram.Keyboard.append_row apply_calls golagram.Keyboard.Built.apply_call
    golagram.Keyboard.row golagram.Keyboard.add golagram.Keyboard.insert_button
build_sample = refl

build-apply_calls_example :
    All NonEmpty (build (apply_calls some_calls new_keyboard)).0
    × ((p : ℕ → Bool)
        → count p (concat (build (apply_calls some_calls new_keyboard)).0)
          ≡ count p (buttons_of some_calls))
build-apply_calls_example = build-apply_calls some_calls
