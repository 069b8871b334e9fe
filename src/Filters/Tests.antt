-- ===== src/Filters/Tests.antt =====
-- The filters on a command in a group, on a member who leaves, and on a conversation's state.
use golagram.Base.{
  ℕ, ◌≡◌, ◌↔◌, refl, true, false, ◌&&◌, List, [], ◌∷◌, some, codes, text_eq, leb, if◌then◌else◌,
  ◌+◌,
}
use golagram.Commands.{CommandObject, parse_command}
use golagram.Strings.{cut}
use golagram.Update.{left, administrator}
use golagram.Update.Context.{any_message}
use golagram.Update.Kinds.{update_with}
use golagram.Update.Kinds
use golagram.Update.Tests.{command_update, group_chat, ann}
use golagram.Filters.{equal_fold, Ctx, Test, filter_command, filter_chat_type}
use golagram.Filters.Laws.{IsAddressed, filter_command-IsAddressed}
use golagram.Filters.Members.{filter_left, is_member}

-- ASCII letters by their lower case.
abbrev lower : ℕ → ℕ
lower c = if leb b'A' c && leb c b'Z' then c + 32 else c

abbrev group_ctx : Ctx
group_ctx = record { update = command_update; bot_username = codes "shop_bot" }

abbrev group_tests : List Test
group_tests = filter_command lower (codes "ban") ∷ filter_chat_type (codes "supergroup" ∷ []) ∷ []

abbrev left_ctx : Ctx
left_ctx = record {
  update = update_with 3 (
      Kinds.chat_member_payload (record {
        chat = some group_chat;
        from = some ann;
        old_chat_member = some administrator;
        new_chat_member = some left;
      }));
  bot_username = codes "shop_bot";
}

command_addressed : filter_command lower (codes "ban") group_ctx ≡ true
unfolding filter_command update_with any_message parse_command cut equal_fold text_eq
command_addressed = refl

other_bot :
    filter_command lower (codes "ban") (record group_ctx { bot_username = codes "b" }) ≡ false
unfolding filter_command update_with any_message parse_command cut equal_fold text_eq
other_bot = refl

member_left : filter_left left_ctx ≡ true
unfolding filter_left update_with is_member
member_left = refl

filter_command-IsAddressed_example :
    (filter_command lower (codes "ban") group_ctx ≡ true)
    ↔ ((cmd : CommandObject) × IsAddressed lower (codes "ban") group_ctx cmd)
filter_command-IsAddressed_example = filter_command-IsAddressed lower (codes "ban") group_ctx
