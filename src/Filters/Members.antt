-- ===== src/Filters/Members.antt =====
-- The filters on the changes of a chat's members.
use golagram.Base.{Bool, true, false, not, ◌&&◌, Option, none, some, codes, text_eq}
use golagram.Update.{
  Update, Chat, ChatMember, ChatMemberUpdated, owner, administrator, member, restricted, left,
  banned,
}
use golagram.Update.Context.{on}
use golagram.Filters.{Test}

unfoldable pub member_update : Update → Option ChatMemberUpdated
member_update u = on u.chat_member some u.my_chat_member

unfoldable pub is_member : ChatMember → Bool
is_member owner = true
is_member administrator = true
is_member member = true
is_member (restricted is_in) = is_in
is_member left = false
is_member banned = false

unfoldable pub is_admin_member : ChatMember → Bool
is_admin_member owner = true
is_admin_member administrator = true
is_admin_member member = false
is_admin_member (restricted is_in) = false
is_admin_member left = false
is_admin_member banned = false

unfoldable pub is_banned : ChatMember → Bool
is_banned owner = false
is_banned administrator = false
is_banned member = false
is_banned (restricted is_in) = false
is_banned left = false
is_banned banned = true

-- A test of the member before and after the change, where both are known.
unfoldable pub on_change : (ChatMember → ChatMember → Bool) → Option ChatMemberUpdated → Bool
on_change test none = false
on_change test (some p) = on p.old_chat_member (λ old. on p.new_chat_member (test old) false) false

unfoldable pub filter_joined : Test
unfolding member_update on_change
filter_joined c =
    on_change (λ old now. not (is_member old) && is_member now) (member_update c.update)

unfoldable pub filter_left : Test
unfolding member_update on_change
filter_left c = on_change (λ old now. is_member old && not (is_member now)) (member_update c.update)

unfoldable pub filter_promoted_to_admin : Test
unfolding member_update on_change
filter_promoted_to_admin c =
    on_change (λ old now. not (is_admin_member old) && is_admin_member now) (member_update c.update)

abbrev pub is_private : Option Chat → Bool
is_private chat = on chat (λ (t : Chat). text_eq t.chat_type (codes "private")) false

unfoldable pub filter_bot_blocked : Test
filter_bot_blocked c =
    on c.update.my_chat_member
      (λ (p : ChatMemberUpdated). is_private p.chat && on p.new_chat_member is_banned false) false

unfoldable pub filter_bot_unblocked : Test
unfolding on_change
filter_bot_unblocked c =
    on c.update.my_chat_member
      (λ (p : ChatMemberUpdated).
        is_private p.chat && on_change (λ old now. is_banned old && is_member now) (some p))
      false
