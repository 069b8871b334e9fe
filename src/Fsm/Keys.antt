-- ===== src/Fsm/Keys.antt =====
-- State groups do not overlap, and which updates share a conversation under a key strategy.
use golagram.Base.{ℕ, ◌≡◌, ◌↔◌, refl, true, List, [], ◌∷◌, ◌++◌, arith, ==_refl}
use golagram.Strings.{Lacks, has_prefix}
use golagram.Fsm.{state_of_group, group_contains, KeyStrategy, apply}

pub has_prefix-snoc : (p s : List ℕ) (c : ℕ) → has_prefix (p ++ c ∷ s) (p ++ c ∷ []) ≡ true
unfolding has_prefix
has_prefix-snoc [] s c = ground (arith, ==_refl c)
has_prefix-snoc (d ∷ p) s c = ground (arith, ==_refl d, has_prefix-snoc p s c)

has_prefix-same :
    (g h name : List ℕ)
    → Lacks b':' g
    → Lacks b':' h
    → has_prefix (h ++ b':' ∷ name) (g ++ b':' ∷ []) ≡ true
    → g ≡ h
unfolding has_prefix
has_prefix-same [] [] name lg lh e = refl
has_prefix-same [] (d ∷ h) name lg lh e = ground (arith, lh.0)
has_prefix-same (c ∷ g) [] name lg lh e = ground (arith, lg.0)
has_prefix-same (c ∷ g) (d ∷ h) name lg lh e = ground (arith, has_prefix-same g h name lg.1 lh.1)

-- For two state groups whose names have no colon, a group contains a state that New makes of the
-- other exactly when the two groups are the same.
group_contains-state_of_group :
    (g h name : List ℕ)
    → Lacks b':' g
    → Lacks b':' h
    → (group_contains g (state_of_group h name) ≡ true) ↔ (g ≡ h)
unfolding group_contains state_of_group
group_contains-state_of_group g h name lg lh =
    (has_prefix-same g h name lg lh, λ e. rw e (has_prefix-snoc h name b':'))

-- Which two updates share a conversation.
abbrev pub SameConversation : KeyStrategy → (c u t c' u' t' : ℕ) → Type 0
SameConversation KeyStrategy.chat_user c u t c' u' t' = (c ≡ c') × (u ≡ u')
SameConversation KeyStrategy.chat c u t c' u' t' = c ≡ c'
SameConversation KeyStrategy.global_user c u t c' u' t' = u ≡ u'
SameConversation KeyStrategy.user_in_topic c u t c' u' t' = (c ≡ c') × ((u ≡ u') × (t ≡ t'))

-- Two updates get the same storage key exactly when the identifiers that the key strategy scopes by
-- are equal: chat and user, chat, user, or chat, user and thread.
pub apply-SameConversation :
    (s : KeyStrategy) (c u t c' u' t' : ℕ)
    → (apply s c u t ≡ apply s c' u' t') ↔ SameConversation s c u t c' u' t'
unfolding apply
apply-SameConversation KeyStrategy.chat_user c u t c' u' t' = ground arith
apply-SameConversation KeyStrategy.chat c u t c' u' t' = ground arith
apply-SameConversation KeyStrategy.global_user c u t c' u' t' = ground arith
apply-SameConversation KeyStrategy.user_in_topic c u t c' u' t' = ground arith
