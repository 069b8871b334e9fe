-- ===== src/Keyboard/Built.antt =====
-- What a keyboard builder builds, for every sequence of calls on it.
use golagram.Base.{
  ℕ, suc, ◌≡◌, ◌≤◌, ◌+◌, refl, sym, Bool, List, [], ◌∷◌, ◌++◌, map, length, concat, if◌then◌else◌,
  All, All-append, append_assoc, append-nil, arith,
}
use golagram.Keyboard.{Keyboard, new_keyboard, append_row, row, add, insert_button, adjust, build}
use golagram.Keyboard.Rows.{row_size-pos, IsLaidOut, adjust_rows-IsLaidOut}

-- A call on a builder.
pub data Call (B : Type 0) : Type 0 where
  row_call : List B → Call B
  add_call : List B → Call B
  insert_call : B → Call B
  adjust_call : List ℕ → Call B
  build_call : Call B

module _ {B : Type 0} where
  unfoldable pub apply_call : Call B → Keyboard B → Keyboard B
  apply_call (row_call bs) kb = row bs kb
  apply_call (add_call bs) kb = add bs kb
  apply_call (insert_call b) kb = insert_button b kb
  apply_call (adjust_call sizes) kb = adjust sizes kb
  apply_call build_call kb = (build kb).1

  unfoldable pub apply_calls : List (Call B) → Keyboard B → Keyboard B
  apply_calls [] kb = kb
  apply_calls (c ∷ cs) kb = apply_calls cs (apply_call c kb)

  -- The buttons that the calls bring in.
  unfoldable pub buttons_of : List (Call B) → List B
  buttons_of [] = []
  buttons_of (row_call bs ∷ cs) = bs ++ buttons_of cs
  buttons_of (add_call bs ∷ cs) = bs ++ buttons_of cs
  buttons_of (insert_call b ∷ cs) = b ∷ buttons_of cs
  buttons_of (adjust_call sizes ∷ cs) = buttons_of cs
  buttons_of (build_call ∷ cs) = buttons_of cs

  -- How many of the buttons pass a test.
  unfoldable pub count : (B → Bool) → List B → ℕ
  count p [] = 0
  count p (b ∷ bs) = let rest = count p bs in if p b then suc rest else rest

  abbrev pub NonEmpty : List B → Type 0
  NonEmpty r = 1 ≤ length r

  -- The buttons of a keyboard, the row under construction included.
  abbrev pub held : Keyboard B → List B
  held kb = concat kb.rows ++ kb.current_row

  count-append : (p : B → Bool) (xs ys : List B) → count p (xs ++ ys) ≡ count p xs + count p ys
  unfolding count
  count-append p [] ys = omega arith
  count-append p (x ∷ xs) ys = ground (arith, count-append p xs ys)

  concat-append : (xs ys : List (List B)) → concat (xs ++ ys) ≡ concat xs ++ concat ys
  concat-append [] ys = refl
  concat-append (x ∷ xs) ys =
      rw (concat-append xs ys) (sym (append_assoc x (concat xs) (concat ys)))

  concat-append_row :
      (rows : List (List B)) (r : List B) → concat (append_row rows r) ≡ concat rows ++ r
  unfolding append_row
  concat-append_row rows [] = sym (append-nil (concat rows))
  concat-append_row rows (b ∷ bs) =
      rw (concat-append rows ((b ∷ bs) ∷ []), append-nil (b ∷ bs)) refl

  concat-singles : (bs : List B) → concat (map (λ b. b ∷ []) bs) ≡ bs
  concat-singles [] = refl
  concat-singles (b ∷ bs) = rw (concat-singles bs) refl

  count-apply_call :
      (p : B → Bool) (c : Call B) (kb : Keyboard B)
      → count p (held (apply_call c kb)) ≡ count p (held kb) + count p (buttons_of (c ∷ []))
  unfolding apply_call buttons_of row add insert_button adjust build count
  count-apply_call p (row_call bs) kb =
      let cr = concat kb.rows in
      rw
        (
          concat-append_row (append_row kb.rows kb.current_row) bs,
          concat-append_row kb.rows kb.current_row,
          append-nil ((cr ++ kb.current_row) ++ bs),
          append-nil bs,
        )
        (count-append p (cr ++ kb.current_row) bs)
  count-apply_call p (add_call bs) kb =
      let cr = concat kb.rows in
      let outer = count-append p (cr ++ bs) kb.current_row in
      let inner = count-append p cr bs in
      let old = count-append p cr kb.current_row in
      rw (concat-append kb.rows (map (λ b. b ∷ []) bs), concat-singles bs, append-nil bs)
        (omega arith)
  count-apply_call p (insert_call b) kb =
      let cr = concat kb.rows in
      let outer = count-append p cr (kb.current_row ++ b ∷ []) in
      let inner = count-append p kb.current_row (b ∷ []) in
      let old = count-append p cr kb.current_row in omega arith
  count-apply_call p (adjust_call sizes) kb =
      let all = concat kb.rows ++ kb.current_row in
      rw ((adjust_rows-IsLaidOut all sizes).0, append-nil all) (omega arith)
  count-apply_call p build_call kb =
      let all = concat kb.rows ++ kb.current_row in
      rw (concat-append_row kb.rows kb.current_row, append-nil all) (omega arith)

  count-buttons_of :
      (p : B → Bool) (c : Call B) (cs : List (Call B))
      → count p (buttons_of (c ∷ cs)) ≡ count p (buttons_of (c ∷ [])) + count p (buttons_of cs)
  unfolding buttons_of
  count-buttons_of p (row_call bs) cs = rw (append-nil bs) (count-append p bs (buttons_of cs))
  count-buttons_of p (add_call bs) cs = rw (append-nil bs) (count-append p bs (buttons_of cs))
  count-buttons_of p (insert_call b) cs = count-append p (b ∷ []) (buttons_of cs)
  count-buttons_of p (adjust_call sizes) cs = count-append p [] (buttons_of cs)
  count-buttons_of p build_call cs = count-append p [] (buttons_of cs)

  count-apply_calls :
      (p : B → Bool) (cs : List (Call B)) (kb : Keyboard B)
      → count p (held (apply_calls cs kb)) ≡ count p (held kb) + count p (buttons_of cs)
  unfolding apply_calls
  count-apply_calls p [] kb = unfold buttons_of count in omega arith
  count-apply_calls p (c ∷ cs) kb =
      let ih = count-apply_calls p cs (apply_call c kb) in
      let step = count-apply_call p c kb in let parts = count-buttons_of p c cs in omega arith

  NonEmpty-append_row :
      (rows : List (List B)) (r : List B) → All NonEmpty rows → All NonEmpty (append_row rows r)
  unfolding append_row
  NonEmpty-append_row rows [] h = h
  NonEmpty-append_row rows (b ∷ bs) h = All-append NonEmpty rows _ h (omega arith, tt)

  NonEmpty-singles : (bs : List B) → All NonEmpty (map (λ b. b ∷ []) bs)
  NonEmpty-singles [] = tt
  NonEmpty-singles (b ∷ bs) = (omega arith, NonEmpty-singles bs)

  IsLaidOut-NonEmpty :
      (sizes : List ℕ) (i : ℕ) (rows : List (List B)) → IsLaidOut sizes i rows → All NonEmpty rows
  IsLaidOut-NonEmpty sizes i [] h = tt
  IsLaidOut-NonEmpty sizes i (r ∷ []) h = (h.0, tt)
  IsLaidOut-NonEmpty sizes i (r ∷ r' ∷ rest) h = (
    let pos = row_size-pos sizes i in omega (arith, h.0),
    IsLaidOut-NonEmpty sizes (suc i) (r' ∷ rest) h.1,
  )

  NonEmpty-apply_calls :
      (cs : List (Call B)) (kb : Keyboard B)
      → All NonEmpty kb.rows
      → All NonEmpty (apply_calls cs kb).rows
  unfolding apply_calls apply_call row add insert_button adjust build
  NonEmpty-apply_calls [] kb h = h
  NonEmpty-apply_calls (row_call bs ∷ cs) kb h =
      NonEmpty-apply_calls cs (row bs kb)
        (NonEmpty-append_row _ bs (NonEmpty-append_row kb.rows kb.current_row h))
  NonEmpty-apply_calls (add_call bs ∷ cs) kb h =
      NonEmpty-apply_calls cs (add bs kb) (All-append NonEmpty kb.rows _ h (NonEmpty-singles bs))
  NonEmpty-apply_calls (insert_call b ∷ cs) kb h = NonEmpty-apply_calls cs (insert_button b kb) h
  NonEmpty-apply_calls (adjust_call sizes ∷ cs) kb h =
      NonEmpty-apply_calls cs (adjust sizes kb)
        (IsLaidOut-NonEmpty sizes 0 _ (adjust_rows-IsLaidOut _ sizes).1)
  NonEmpty-apply_calls (build_call ∷ cs) kb h =
      NonEmpty-apply_calls cs (build kb).1 (NonEmpty-append_row kb.rows kb.current_row h)

  -- For every sequence of calls on a new builder, of Build too, the built keyboard has no empty row, and every
  -- button stands in it as often as the calls bring it in: every test counts the same.
  pub build-apply_calls :
      (cs : List (Call B))
      → All NonEmpty (build (apply_calls cs new_keyboard)).0
        × ((p : B → Bool)
            → count p (concat (build (apply_calls cs new_keyboard)).0) ≡ count p (buttons_of cs))
  unfolding build
  build-apply_calls cs = (
    NonEmpty-append_row _ _ (NonEmpty-apply_calls cs new_keyboard tt),
    λ p.
        rw
          (concat-append_row (apply_calls cs new_keyboard).rows
            (apply_calls cs new_keyboard).current_row)
          (let all = count-apply_calls p cs new_keyboard in unfold count in omega arith),
  )
