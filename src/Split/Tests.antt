-- ===== src/Split/Tests.antt =====
-- Runs of SplitTextWithEntities, and its theorems at concrete texts.
use golagram.Base.{max, ℕ, ◌≡◌, refl, true, List, [], ◌∷◌, none, some, codes, All, arith}
use golagram.Utf16.{is_scalar, is_high_surrogate, encode, decode}
use golagram.Split.{
  Entity, TextChunk, chunk_limit, split_text, split_text_with_entities, clip_entities, split_point,
}
use golagram.Split.Point.{IsSplit, split_point-IsSplit}
use golagram.Split.Boundary.{StartAtBoundaries}
use golagram.Split
use golagram.Split.Seams.{strip}
use golagram.Split.Chunks.{texts}
use golagram.Split.Correct.{
  split_text_with_entities-strip, IsSendable, split_text_with_entities-IsSendable,
}

-- "ab cd" with a bold "cd", and an emoji behind it.
abbrev sample : List ℕ
sample = 0x61 ∷ 0x62 ∷ 0x20 ∷ 0x63 ∷ 0x64 ∷ 0x1F600 ∷ []

abbrev bold_word : Entity
bold_word = record { kind = 1; offset = 3; length_units = 2 }

split_sample :
    split_text_with_entities sample (bold_word ∷ []) (some 4)
    ≡ record { text = codes "ab"; entities = [] }
      ∷ record {
        text = 0x63 ∷ 0x64 ∷ 0x1F600 ∷ [];
        entities = record { kind = 1; offset = 0; length_units = 2 } ∷ [];
      }
      ∷ []
unfolding split_text_with_entities clip_entities encode split_point Split.entity_start_before
    Split.retreat_pass Split.cuts_avoidable Split.last_break Split.window_edge is_high_surrogate
    Split.is_split_space decode
split_sample = refl

split_words : split_text (codes "one two three") (some 8) ≡ codes "one two" ∷ codes "three" ∷ []
unfolding split_text encode split_point Split.entity_start_before Split.retreat_pass
    Split.cuts_avoidable Split.last_break Split.window_edge is_high_surrogate Split.is_split_space
    decode
split_words = refl

split_nothing : split_text [] none ≡ []
unfolding split_text
split_nothing = refl

sample-scalar : All (λ r. is_scalar r ≡ true) sample
unfolding is_scalar
sample-scalar = (refl, (refl, (refl, (refl, (refl, (refl, tt))))))

sample-StartAtBoundaries : StartAtBoundaries (encode sample) (bold_word ∷ [])
unfolding encode is_high_surrogate
sample-StartAtBoundaries = (refl, tt)

split_text_with_entities-strip_example :
    strip (texts (split_text_with_entities sample (bold_word ∷ []) (some 4))) ≡ strip sample
split_text_with_entities-strip_example =
    split_text_with_entities-strip sample (bold_word ∷ []) (some 4) sample-scalar
      sample-StartAtBoundaries

split_text_with_entities-IsSendable_example :
    All (IsSendable (max 2 4)) (split_text_with_entities sample (bold_word ∷ []) (some 4))
split_text_with_entities-IsSendable_example =
    split_text_with_entities-IsSendable sample (bold_word ∷ []) (some 4) sample-StartAtBoundaries

split_point-IsSplit_example :
    IsSplit
      (codes "ab cd ef")
      (bold_word ∷ [])
      0
      4
      (split_point (codes "ab cd ef") (bold_word ∷ []) 0 4)
split_point-IsSplit_example =
    split_point-IsSplit (codes "ab cd ef") (bold_word ∷ []) 0 4 (omega arith) (omega arith)
