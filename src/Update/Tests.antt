-- ===== src/Update/Tests.antt =====
-- The accessors on a command sent to a group and on a click under it.
use golagram.Base.{◌≡◌, refl, true, false, [], none, some, codes}
use golagram.Update.{Update, Message, Chat, User, CallbackQuery, Content}
use golagram.Update.Kinds.{
  UpdateKind, Payload, update_with, kind, kind_name, kind_of, present, message_kind,
}
use golagram.Update.Kinds
use golagram.Update.Context.{identity_triple}

abbrev pub no_content : Content
no_content = record {
  photo = [];
  document = none;
  sticker = none;
  voice = none;
  video = none;
  video_note = none;
  audio = none;
  animation = none;
  contact = none;
  location = none;
  venue = none;
  poll = none;
  successful_payment = none;
  web_app_data = none;
  left_chat_member = none;
  forward_origin = none;
  reply_to_message = none;
  via_bot = none;
  dice = none;
  new_chat_members = [];
  entity_types = [];
  caption_entity_types = [];
}

abbrev pub group_chat : Chat
group_chat = record { id = 40; chat_type = codes "supergroup"; title = codes "Team"; username = [] }

abbrev pub ann : User
ann = record { id = 7; first_name = codes "Ann"; username = codes "ann" }

abbrev pub ban_message : Message
ban_message = record {
  text = codes "/ban@shop_bot 3";
  caption = [];
  chat = some group_chat;
  from = some ann;
  sender_chat = none;
  is_automatic_forward = false;
  author_signature = [];
  ephemeral_message_id = 0;
  is_topic_message = true;
  message_thread_id = 9;
  media_group_id = [];
  content = no_content;
}

-- The bot's answer in the same topic, with a button.
abbrev bot_message : Message
bot_message = record ban_message { text = codes "sure?"; from = none }

abbrev click : CallbackQuery
click = record { from = some ann; message = some bot_message; payload = codes "yes" }

abbrev pub command_update : Update
command_update = update_with 1 (Kinds.message_payload ban_message)

abbrev click_update : Update
click_update = update_with 2 (Kinds.callback_query_payload click)

identity_of_click : identity_triple click_update ≡ (40, 7, 9)
unfolding identity_triple update_with
identity_of_click = refl
