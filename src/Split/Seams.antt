-- ===== src/Split/Seams.antt =====
-- The whitespace that SplitTextWithEntities (format.go) drops at the seam of two chunks.
use golagram.Base.{
  ℕ, zero, suc, ◌+◌, ◌-◌, ◌≤◌, ◌≡◌, ap, refl, true, false, ◌⊎◌, List, [], ◌∷◌, ◌++◌, if◌then◌else◌,
  Bool-cases, inl, inr, All, All-append, length, slice, slice-cons, slice-snoc, arith,
}
use golagram.Utf16.{is_high_surrogate, is_low_surrogate, decode}
use golagram.Utf16.Laws.{ends_high}
use golagram.Split.{is_split_space, unit, trim_end, skip_spaces}

abbrev pub AllSpace : List ℕ → Type 0
AllSpace = All (λ c. is_split_space c ≡ true)

-- A text without its separator whitespace.
unfoldable pub strip : List ℕ → List ℕ
strip [] = []
strip (c ∷ s) = if is_split_space c then strip s else c ∷ strip s

pub strip-append : (a b : List ℕ) → strip (a ++ b) ≡ strip a ++ strip b
unfolding strip
strip-append [] b = refl
strip-append (c ∷ a) b = ground (arith, strip-append a b)

pub strip-AllSpace : (s : List ℕ) → AllSpace s → strip s ≡ []
unfolding strip
strip-AllSpace [] h = refl
strip-AllSpace (c ∷ s) h = rw (h.0, strip-AllSpace s h.1)

space_unit :
    (c : ℕ) → is_split_space c ≡ true → (is_high_surrogate c ≡ false) × (is_low_surrogate c ≡ false)
unfolding is_split_space is_high_surrogate is_low_surrogate
space_unit c h = ground arith

-- Spaces are characters of one unit.
pub decode-space : (s : List ℕ) → AllSpace s → decode s ≡ s
unfolding decode
decode-space [] h = refl
decode-space (c ∷ []) h = rw ((space_unit c h.0).0, (space_unit c h.0).1) refl
decode-space (c ∷ d ∷ s) h =
    rw ((space_unit c h.0).0, (space_unit c h.0).1) (ap (λ x. c ∷ x) (decode-space (d ∷ s) h.1))

pub ends_high-space : (s : List ℕ) → AllSpace s → ends_high s ≡ false
ends_high-space [] h = refl
ends_high-space (c ∷ []) h = (space_unit c h.0).0
ends_high-space (c ∷ d ∷ s) h = ends_high-space (d ∷ s) h.1

slice_empty-AllSpace : (u : List ℕ) (a b : ℕ) → b ≡ a → AllSpace (slice u a b)
slice_empty-AllSpace u a b e = let z : b - a ≡ 0 = omega arith in rw z tt

-- The trailing trim stops between the start and the end, and drops spaces only.
pub record Trimmed (u : List ℕ) (start end cut : ℕ) : Type 0 where
  pub after : start ≤ cut
  pub within : cut ≤ end
  pub seam : (cut ≡ end) ⊎ (is_split_space (unit u cut) ≡ true)
  pub spaces : AllSpace (slice u cut end)

pub trim_end-Trimmed :
    (u : List ℕ) (start n : ℕ)
    → start + n ≤ length u
    → Trimmed u start (start + n) (trim_end u start n)
unfolding trim_end
trim_end-Trimmed u start zero h = record {
  after = omega arith;
  within = omega arith;
  seam = inl (omega arith);
  spaces = slice_empty-AllSpace u start _ (omega arith);
}
trim_end-Trimmed u start (suc n) h = elim (Bool-cases (is_split_space (unit u (start + n)))) [
  | inl s ↦
      let t = trim_end-Trimmed u start n (omega arith) in
      let cut = trim_end u start n in
      let e : start + suc n ≡ suc (start + n) = omega arith in
      let glued : AllSpace (slice u cut (suc (start + n))) =
        rw (slice-snoc u cut (start + n) 0 t.within (omega arith))
          (All-append _ (slice u cut (start + n)) (unit u (start + n) ∷ []) t.spaces (s, tt)) in
      rw s (record {
        after = t.after;
        within = omega (arith, t.within);
        seam = inr (elim t.seam [ inl q ↦ rw q s | inr q ↦ q ]);
        spaces = rw e glued;
      })
  | inr s ↦ rw s (record {
    after = omega arith;
    within = omega arith;
    seam = inl refl;
    spaces = slice_empty-AllSpace u _ _ (omega arith);
  })
]

pub record Skipped (u : List ℕ) (end next : ℕ) : Type 0 where
  pub after : end ≤ next
  pub within : next ≤ length u
  pub spaces : AllSpace (slice u end next)

pub skip_spaces-Skipped :
    (u : List ℕ) (n start : ℕ) → start + n ≡ length u → Skipped u start (skip_spaces u n start)
unfolding skip_spaces
skip_spaces-Skipped u zero start h = record {
  after = omega arith;
  within = omega arith;
  spaces = slice_empty-AllSpace u _ _ refl;
}
skip_spaces-Skipped u (suc n) start h = elim (Bool-cases (is_split_space (unit u start))) [
  | inl s ↦
      let k = skip_spaces-Skipped u n (suc start) (omega arith) in
      let next = skip_spaces u n (suc start) in
      rw s (record {
        after = omega (arith, k.after);
        within = k.within;
        spaces =
            rw (slice-cons u start next 0 (omega arith) (omega (arith, k.after))) (s, k.spaces);
      })
  | inr s ↦ rw s (record {
    after = omega arith;
    within = omega arith;
    spaces = slice_empty-AllSpace u _ _ refl;
  })
]

pub ends_high-snoc : (s : List ℕ) (c : ℕ) → ends_high (s ++ c ∷ []) ≡ is_high_surrogate c
ends_high-snoc [] c = refl
ends_high-snoc (x ∷ []) c = refl
ends_high-snoc (x ∷ y ∷ s) c = ends_high-snoc (y ∷ s) c
