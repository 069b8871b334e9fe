-- ===== src/Filters/Changes.antt =====
-- What the filters on membership and on conversation states accept.
use golagram.Base.{
  some_inj, ℕ, ◌≡◌, ◌≢◌, ◌↔◌, ◌⊎◌, inl, inr, sym, refl, Bool, true, false, not, ◌&&◌, ◌||◌, List,
  [], ◌∷◌, Option, none, some, text_eq_iff, Option-cases, arith,
}
use golagram.Fsm.{State, no_state, state_of_group, group_contains}
use golagram.Fsm.Keys.{has_prefix-snoc}
use golagram.Update.{ChatMember, ChatMemberUpdated}
use golagram.Filters.{Ctx, state_is, state_in, state_among, any_state}
use golagram.Filters.Members.{
  on_change, is_member, is_admin_member, filter_joined, filter_left, filter_promoted_to_admin,
  member_update,
}

abbrev pub differs : Bool → Bool → Bool
differs true b = not b
differs false b = b

joined_or_left :
    (was now : Bool)
    → ((not was && now || was && not now) ≡ differs was now)
      × (((not was && now) && (was && not now)) ≡ false)
joined_or_left true true = (refl, refl)
joined_or_left true false = (refl, refl)
joined_or_left false true = (refl, refl)
joined_or_left false false = (refl, refl)

admin_stays :
    (old now : ChatMember)
    → ((not (is_admin_member old) && is_admin_member now) && (is_member old && not (is_member now)))
      ≡ false
unfolding is_admin_member is_member
admin_stays old now = ground arith

member_change :
    (old now : ChatMember)
    → (((not (is_member old) && is_member now || is_member old && not (is_member now))
          ≡ differs (is_member old) (is_member now))
        × (((not (is_member old) && is_member now) && (is_member old && not (is_member now)))
            ≡ false))
      × (((not (is_admin_member old) && is_admin_member now)
            && (is_member old && not (is_member now)))
          ≡ false)
member_change old now = (joined_or_left (is_member old) (is_member now), admin_stays old now)

on_change-cases :
    (p : Option ChatMemberUpdated)
    → (((on_change (λ old now. not (is_member old) && is_member now) p
            || on_change (λ old now. is_member old && not (is_member now)) p)
          ≡ on_change (λ old now. differs (is_member old) (is_member now)) p)
        × ((on_change (λ old now. not (is_member old) && is_member now) p
              && on_change (λ old now. is_member old && not (is_member now)) p)
            ≡ false))
      × ((on_change (λ old now. not (is_admin_member old) && is_admin_member now) p
            && on_change (λ old now. is_member old && not (is_member now)) p)
          ≡ false)
unfolding on_change
on_change-cases none = ((refl, refl), refl)
on_change-cases (some p) = elim (Option-cases p.old_chat_member) [
  | inl h ↦ rw h ((refl, refl), refl)
  | inr h ↦ elim (Option-cases p.new_chat_member) [
    | inl k ↦ rw (h.1, k) ((refl, refl), refl)
    | inr k ↦ rw (h.1, k.1) (member_change h.0 k.0)
  ]
]

-- A change of a member counts as joining or as leaving exactly when membership changes, never as
-- both, and gaining admin rights never counts as leaving.
filter_joined-filter_left :
    (c : Ctx)
    → ((filter_joined c || filter_left c)
        ≡ on_change (λ old now. differs (is_member old) (is_member now)) (member_update c.update))
      × (((filter_joined c && filter_left c) ≡ false)
          × ((filter_promoted_to_admin c && filter_left c) ≡ false))
unfolding filter_joined filter_left filter_promoted_to_admin
filter_joined-filter_left c =
    let ((one, both), promoted) = on_change-cases (member_update c.update) in
    (one, (both, promoted))

-- The state is one of the list, or the list has AnyState and a state is set.
abbrev pub IsAmong : List State → State → Type 0
IsAmong [] current = ⊥
IsAmong (s ∷ states) current =
    ((s ≡ any_state) × (current ≢ no_state)) ⊎ ((s ≡ current) ⊎ IsAmong states current)

state_among_iff :
    (states : List State) (current : State)
    → (state_among states current ≡ true) ↔ IsAmong states current
state_among_iff [] current = (λ h. cc, λ h. absurd h)
state_among_iff (s ∷ states) current = ground (
  arith,
  state_among_iff states current,
  text_eq_iff s any_state,
  text_eq_iff current no_state,
  text_eq_iff s current,
)

state_among_one :
    (group name : List ℕ) (current : State)
    → state_among (state_of_group group name ∷ []) current ≡ true
    → state_of_group group name ≢ any_state
    → state_of_group group name ≡ current
state_among_one group name current h d =
    elim ((state_among_iff (state_of_group group name ∷ []) current).0 h) [
      | inl q ↦ absurd (d q.0)
      | inr q ↦ elim q [ inl e ↦ e | inr e ↦ absurd e ]
    ]

group_contains-own : (group name : List ℕ) → group_contains group (state_of_group group name) ≡ true
unfolding group_contains state_of_group
group_contains-own group name = has_prefix-snoc group name b':'

-- StateIs holds exactly when the storage answers with a state that is in the list, or with any state
-- but NoState where the list has AnyState.
state_is-IsAmong :
    (states : List State) (answer : Option State)
    → (state_is states answer ≡ true)
      ↔ ((current : State) × ((answer ≡ some current) × IsAmong states current))
unfolding state_is
state_is-IsAmong states none = (λ h. cc, λ h. cc)
state_is-IsAmong states (some current) = (
  λ h. (current, (refl, (state_among_iff states current).0 h)),
  λ (state, (e, among)). (state_among_iff states current).1 (rw (some_inj e) among),
)

-- StateIs for one state of a group that is not spelled like AnyState implies StateIn for the group.
state_is-state_in :
    (answer : Option State) (group name : List ℕ)
    → state_of_group group name ≢ any_state
    → state_is (state_of_group group name ∷ []) answer ≡ true
    → state_in group answer ≡ true
unfolding state_is state_in
state_is-state_in none group name d h = cc
state_is-state_in (some current) group name d h =
    rw (sym (state_among_one group name current h d)) (group_contains-own group name)
