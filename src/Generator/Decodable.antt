-- ===== src/Generator/Decodable.antt =====
-- Why the decoder of a union that prepareSpec (internal/gen/unions.go) calls decodable finds every
-- member.
use mathlib.Core.Path.{subst}
use golagram.Base.{
  ℕ, ◌≡◌, refl, sym, ap, ◌∙◌, Bool, true, false, not, ◌&&◌, ◌||◌, List, [], ◌∷◌, ◌++◌, Option, none,
  some, some_inj, none_ne_some, inl, inr, if◌then◌else◌, Bool-cases, All, All-append, text_eq,
  text_eq_iff, arith,
}
use golagram.Generator.{
  Item, UnionMemberInfo, UnionInfo, Scan, is_seen, add_plain, add_value, scan_member, scan_members,
  and_then, scanned_info, find_fields, found_discriminator, prepare_union, decode_member,
}

-- No two members share a value.
abbrev pub Distinct : List UnionMemberInfo → Type 0
Distinct [] = Unit
Distinct (m ∷ ms) = (decode_member ms m.disc_value ≡ none) × Distinct ms

-- The member's discriminator is found in the fields of its item, with the value of the member.
abbrev pub HasValue : List Item → UnionMemberInfo → Type 0
HasValue items m =
    (field : List ℕ) × (found_discriminator (find_fields items m.spec_name)
      ≡ some (field, m.disc_value))

decode_member-append :
    (ms : List UnionMemberInfo) (m : UnionMemberInfo) (v : List ℕ)
    → decode_member ms v ≡ none
    → decode_member (ms ++ m ∷ []) v ≡ (if text_eq m.disc_value v then some m else none)
unfolding decode_member
decode_member-append [] m v h = refl
decode_member-append (n ∷ ms) m v h = elim (Bool-cases (text_eq n.disc_value v)) [
  | inl e ↦ let wrong = rw e at h in absurd (none_ne_some (sym wrong))
  | inr e ↦ rw e (decode_member-append ms m v (rw e at h))
]

decode_member-skip :
    (n : UnionMemberInfo) (ms : List UnionMemberInfo) (v : List ℕ)
    → decode_member (n ∷ ms) v ≡ none
    → (text_eq n.disc_value v ≡ false) × (decode_member ms v ≡ none)
unfolding decode_member
decode_member-skip n ms v h = elim (Bool-cases (text_eq n.disc_value v)) [
  | inl e ↦ let wrong = rw e at h in absurd (none_ne_some (sym wrong))
  | inr e ↦ (e, rw e at h)
]

text_eq-comm_false : (s t : List ℕ) → text_eq s t ≡ false → text_eq t s ≡ false
text_eq-comm_false s t h = elim (Bool-cases (text_eq t s)) [
  | inl e ↦ let back = (text_eq_iff s t).1 (sym ((text_eq_iff t s).0 e)) in cc
  | inr e ↦ e
]

Distinct-append :
    (ms : List UnionMemberInfo) (m : UnionMemberInfo)
    → Distinct ms
    → decode_member ms m.disc_value ≡ none
    → Distinct (ms ++ m ∷ [])
unfolding decode_member
Distinct-append [] m d h = (refl, tt)
Distinct-append (n ∷ ms) m d h =
    let k = decode_member-skip n ms m.disc_value h in
    let f = text_eq-comm_false n.disc_value m.disc_value k.0 in
    (decode_member-append ms m n.disc_value d.0 ∙ rw f refl, Distinct-append ms m d.1 k.1)

lift :
    (m : UnionMemberInfo) (ms xs : List UnionMemberInfo)
    → decode_member ms m.disc_value ≡ none
    → All (λ (x : UnionMemberInfo). decode_member ms x.disc_value ≡ some x) xs
    → All (λ (x : UnionMemberInfo). decode_member (m ∷ ms) x.disc_value ≡ some x) xs
unfolding decode_member
lift m ms [] n h = tt
lift m ms (x ∷ xs) n h = elim (Bool-cases (text_eq m.disc_value x.disc_value)) [
  | inl e ↦
      let same = (text_eq_iff m.disc_value x.disc_value).0 e in
      absurd (none_ne_some (sym n ∙ ap (decode_member ms) same ∙ h.0))
  | inr e ↦ (rw e (h.0), lift m ms xs n h.1)
]

-- The switch finds every member of a union without shared values.
decode_member-Distinct :
    (ms : List UnionMemberInfo)
    → Distinct ms
    → All (λ (m : UnionMemberInfo). decode_member ms m.disc_value ≡ some m) ms
unfolding decode_member
decode_member-Distinct [] d = tt
decode_member-Distinct (m ∷ ms) d = (
  rw ((text_eq_iff m.disc_value m.disc_value).1 refl) refl,
  lift m ms ms d.0 (decode_member-Distinct ms d.1),
)

and_then-some :
    (o : Option Scan) (f : Scan → Option Scan) (t : Scan)
    → and_then o f ≡ some t
    → (s : Scan) × (o ≡ some s) × (f s ≡ some t)
and_then-some none f t h = absurd (none_ne_some h)
and_then-some (some s) f t h = (s, refl, h)

both : (a b : Bool) → (a && b) ≡ true → a ≡ true
both true b h = refl
both false b h = h

scanned_info-some :
    (o : Option Scan) (u : UnionInfo)
    → scanned_info o ≡ some u
    → (s : Scan) × (o ≡ some s)
      × (record (s.info) { decodable = s.info.decodable && not (text_eq s.info.disc_field []) } ≡ u)
unfolding scanned_info
scanned_info-some none u h = absurd (none_ne_some h)
scanned_info-some (some s) u h = (s, refl, some_inj h)

module _ (items : List Item) where
  record Scanned (s : Scan) : Type 0 where
    distinct : s.info.decodable ≡ true → Distinct s.info.members
    valued : s.info.decodable ≡ true → All (HasValue items) s.info.members
    recorded :
        (v : List ℕ)
        → s.info.decodable ≡ true
        → is_seen v s.seen ≡ false
        → decode_member s.info.members v ≡ none

  start :
      (name go : List ℕ)
      → Scanned (record {
        info = record {
          spec_name = name;
          go_name = go;
          disc_field = [];
          members = [];
          decodable = true;
        };
        seen = [];
      })
  unfolding decode_member
  start name go = record { distinct = λ e. tt; valued = λ e. tt; recorded = λ v e k. refl }

  add_plain-Scanned : (m : List ℕ) (s : Scan) → Scanned s → Scanned (add_plain m s)
  unfolding add_plain
  add_plain-Scanned m s h = record { distinct = λ e. cc; valued = λ e. cc; recorded = λ v e. cc }

  is_seen-append :
      (v w : List ℕ) (ws : List (List ℕ))
      → is_seen v (ws ++ w ∷ []) ≡ false
      → (is_seen v ws ≡ false) × (text_eq v w ≡ false)
  unfolding is_seen
  is_seen-append v w [] h = (refl, ground arith)
  is_seen-append v w (x ∷ ws) h = elim (Bool-cases (text_eq v x)) [
    | inl e ↦ let wrong = rw e at h in cc
    | inr e ↦ let r = is_seen-append v w ws (rw e at h) in (rw e (r.0), r.1)
  ]

  add_value-Scanned :
      (m field value : List ℕ) (s : Scan)
      → found_discriminator (find_fields items m) ≡ some (field, value)
      → Scanned s
      → Scanned (add_value m field value s)
  unfolding add_value
  add_value-Scanned m field value s f h = record {
    distinct = λ e.
        let p : (s.info.decodable ≡ true) × (is_seen value s.seen ≡ false) = ground arith in
        Distinct-append s.info.members _ (h.distinct p.0) (h.recorded value p.0 p.1);
    valued = λ e.
        let p : s.info.decodable ≡ true = ground arith in
        All-append _ s.info.members _ (h.valued p) ((field, f), tt);
    recorded = λ v e k.
        let p : s.info.decodable ≡ true = ground arith in
        let r = is_seen-append v value s.seen k in
        decode_member-append s.info.members _ v (h.recorded v p r.0)
        ∙ rw (text_eq-comm_false v value r.1) refl;
  }

  scan_member-Scanned :
      (m : List ℕ) (s t : Scan) (o : Option (List ℕ × List ℕ))
      → found_discriminator (find_fields items m) ≡ o
      → Scanned s
      → scan_member m o s ≡ some t
      → Scanned t
  unfolding scan_member
  scan_member-Scanned m s t none f h e = subst Scanned (some_inj e) (add_plain-Scanned m s h)
  scan_member-Scanned m s t (some d) f h e =
      elim (Bool-cases (text_eq s.info.disc_field [] || text_eq s.info.disc_field d.0)) [
        | inl c ↦ subst Scanned (some_inj (rw c at e)) (add_value-Scanned m d.0 d.1 s f h)
        | inr c ↦ absurd (none_ne_some (rw c at e))
      ]

  scan_members-Scanned :
      (ms : List (List ℕ)) (s t : Scan) → Scanned s → scan_members items ms s ≡ some t → Scanned t
  unfolding scan_members
  scan_members-Scanned [] s t h e = subst Scanned (some_inj e) h
  scan_members-Scanned (m ∷ ms) s t h e =
      let n = and_then-some _ _ t e in
      scan_members-Scanned ms n.0 t (scan_member-Scanned m s n.0 _ refl h n.1) n.2

  -- Where prepareSpec gives a union without an error and calls it decodable: every member has a
  -- discriminator in the fields of its item, and the decoder written for the union, given the value
  -- of a member's discriminator, decodes to exactly that member.
  pub prepare_union-decode_member :
      (it : Item) (u : UnionInfo)
      → prepare_union items it ≡ some u
      → u.decodable ≡ true
      → All (HasValue items) u.members
        × All (λ (m : UnionMemberInfo). decode_member u.members m.disc_value ≡ some m) u.members
  unfolding prepare_union
  prepare_union-decode_member it u h d =
      let n = scanned_info-some _ u h in
      let s = scan_members-Scanned it.members _ n.0 (start it.name _) n.1 in
      let members : n.0.info.members ≡ u.members = ap (λ (x : UnionInfo). x.members) n.2 in
      let decodable : n.0.info.decodable ≡ true =
        both _ _ (ap (λ (x : UnionInfo). x.decodable) n.2 ∙ d) in
      subst
        (λ ms.
          All (HasValue items) ms
          × All (λ (m : UnionMemberInfo). decode_member ms m.disc_value ≡ some m) ms)
        members (s.valued decodable, decode_member-Distinct n.0.info.members (s.distinct decodable))
