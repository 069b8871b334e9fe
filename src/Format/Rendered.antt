-- ===== src/Format/Rendered.antt =====
-- What EntityText (entity_text.go) reads at the entities that Render (format_entities.go) writes.
use golagram.Base.{
  ℕ, ◌+◌, ◌-◌, ◌<◌, ◌≡◌, refl, sym, ap, List, [], ◌∷◌, ◌++◌, map, append-nil, Bool-cases, inl, inr,
  if◌then◌else◌, arith,
}
use golagram.Utf16.{encode, utf16_len}
use golagram.Format.{
  Node, leaf, group, Nodes, end, child, MessageEntity, is_plain, leaf_entity, group_entity, int64,
  render_at, render_all, render, entity_text,
}
use golagram.Format.Positions.{
  IsText, Stands, utf16_len-append, Stands-left, Stands-right, entity_text-Stands,
}

-- The text of a tree, whatever its formatting.
unfoldable mutual
  pub plain_text : Node → List ℕ
  plain_text (leaf s) = s.text
  plain_text (group s nodes) = plain_texts nodes

  pub plain_texts : Nodes → List ℕ
  plain_texts end = []
  plain_texts (child n nodes) = plain_text n ++ plain_texts nodes

-- What is formatted: the kind and the text of each node with formatting, outer nodes first.
unfoldable mutual
  unfolding plain_text

  pub formatted : Node → List (List ℕ × List ℕ)
  formatted (leaf s) = if is_plain s then [] else (s.kind, s.text) ∷ []
  formatted (group s nodes) =
      let inner = formatted_all nodes in
      if is_plain s then inner else (s.kind, plain_texts nodes) ∷ inner

  pub formatted_all : Nodes → List (List ℕ × List ℕ)
  formatted_all end = []
  formatted_all (child n nodes) = formatted n ++ formatted_all nodes

abbrev pub read_entities : List ℕ → List MessageEntity → List (List ℕ × List ℕ)
read_entities s = map (λ (e : MessageEntity). (e.kind, entity_text s e))

-- The text written is the text of the tree.
mutual
  unfolding render_at plain_text

  render_at-plain_text : (n : Node) (pos : ℕ) → (render_at n pos).0 ≡ plain_text n
  render_at-plain_text (leaf s) pos = elim (Bool-cases (is_plain s)) [
    | inl p ↦ rw p refl
    | inr p ↦ rw p refl
  ]
  render_at-plain_text (group s nodes) pos = elim (Bool-cases (is_plain s)) [
    | inl p ↦ rw p (render_all-plain_texts nodes pos)
    | inr p ↦ rw p (render_all-plain_texts nodes pos)
  ]

  render_all-plain_texts : (nodes : Nodes) (pos : ℕ) → (render_all nodes pos).0 ≡ plain_texts nodes
  render_all-plain_texts end pos = refl
  render_all-plain_texts (child n nodes) pos =
      rw (render_at-plain_text n pos, render_all-plain_texts nodes _) refl

utf16_len-nil : utf16_len [] ≡ 0
unfolding utf16_len encode
utf16_len-nil = refl

-- The position behind the children.
render_all-pos :
    (nodes : Nodes) (pos : ℕ) → (render_all nodes pos).2 ≡ pos + utf16_len (render_all nodes pos).0
unfolding render_at
render_all-pos end pos = omega (arith, utf16_len-nil)
render_all-pos (child n nodes) pos =
    let first = (render_at n pos).0 in
    let next = pos + utf16_len first in
    omega (arith, render_all-pos nodes next, utf16_len-append first (render_all nodes next).0)

read_entities-append :
    (s : List ℕ) (xs ys : List MessageEntity)
    → read_entities s (xs ++ ys) ≡ read_entities s xs ++ read_entities s ys
read_entities-append s [] ys = refl
read_entities-append s (e ∷ xs) ys =
    ap (λ t. (e.kind, entity_text s e) ∷ t) (read_entities-append s xs ys)

module _ (s : List ℕ) (short : utf16_len s < 0x8000000000000000) (valid : IsText s) where
  mutual
    unfolding render_at formatted

    render_at-formatted :
        (n : Node) (pos : ℕ)
        → Stands s (render_at n pos).0 pos
        → read_entities s (render_at n pos).1 ≡ formatted n
    render_at-formatted (leaf t) pos h = elim (Bool-cases (is_plain t)) [
      | inl p ↦ rw p refl
      | inr p ↦
          let alone : Stands s t.text pos = rw p at h in
          rw p (
            ap (λ x. (t.kind, x) ∷ [])
              (entity_text-Stands s t.text pos (leaf_entity t pos) short valid alone refl refl))
    ]
    render_at-formatted (group t nodes) pos h =
        let inner = render_all nodes pos in
        elim (Bool-cases (is_plain t)) [
          | inl p ↦ rw p (render_all-formatted nodes pos (rw p at h))
          | inr p ↦
              let there : Stands s inner.0 pos = rw p at h in
              let e = group_entity t pos (inner.2 - pos) in
              let units : inner.2 - pos ≡ utf16_len inner.0 =
                omega (arith, render_all-pos nodes pos) in
              let own =
                entity_text-Stands s inner.0 pos e short valid there refl (ap int64 units) in
              rw p (
                rw (own, render_all-plain_texts nodes pos, render_all-formatted nodes pos there)
                  refl)
        ]

    render_all-formatted :
        (nodes : Nodes) (pos : ℕ)
        → Stands s (render_all nodes pos).0 pos
        → read_entities s (render_all nodes pos).1 ≡ formatted_all nodes
    render_all-formatted end pos h = refl
    render_all-formatted (child n nodes) pos h =
        let first = render_at n pos in
        let rest = render_all nodes (pos + utf16_len first.0) in
        rw
          (
            read_entities-append s first.1 rest.1,
            render_at-formatted n pos (Stands-left s first.0 rest.0 h),
            render_all-formatted nodes _ (Stands-right s first.0 rest.0 h),
          )
          refl

-- Let the text of the tree n be valid Unicode of less than 2^63 UTF-16 units. Then Render writes
-- exactly that text, and its entities, in order, are the formatted nodes of the tree, outer nodes
-- before inner ones: each has its node's kind, and EntityText reads the node's own text at it.
pub render-formatted :
    (n : Node)
    → utf16_len (plain_text n) < 0x8000000000000000
    → IsText (plain_text n)
    → ((render n).0 ≡ plain_text n) × (read_entities (render n).0 (render n).1 ≡ formatted n)
unfolding render
render-formatted n h t =
    let same = render_at-plain_text n 0 in
    let all : Stands (render_at n 0).0 (render_at n 0).0 0 = record {
      before = [];
      behind = [];
      whole = sym (append-nil (render_at n 0).0);
      at = sym utf16_len-nil;
    } in
    (same, render_at-formatted (render_at n 0).0 (rw same h) (rw same t) n 0 all)
