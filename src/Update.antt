-- ===== src/Update.antt =====
-- update.go: an update and its payloads, with the fields that the library's own code reads. An
-- int64 stands as its bit pattern, of which the code uses only equality and 0; a pointer that is
-- only compared with nil is an Option of the number of the object behind it.
pub mod Kinds
pub mod Context
pub mod Sender
pub mod Identity
mod Keys
pub mod Tests
use golagram.Base.{ℕ, Bool, List, [], Option, none, some, false}

pub record User : Type 0 where
  pub id : ℕ
  pub first_name : List ℕ
  pub username : List ℕ

pub record Chat : Type 0 where
  pub id : ℕ
  pub chat_type : List ℕ
  pub title : List ℕ
  pub username : List ℕ

pub record Dice : Type 0 where
  pub value : ℕ

-- What a message carries besides its text.
pub record Content : Type 0 where
  pub photo : List ℕ
  pub document : Option ℕ
  pub sticker : Option ℕ
  pub voice : Option ℕ
  pub video : Option ℕ
  pub video_note : Option ℕ
  pub audio : Option ℕ
  pub animation : Option ℕ
  pub contact : Option ℕ
  pub location : Option ℕ
  pub venue : Option ℕ
  pub poll : Option ℕ
  pub successful_payment : Option ℕ
  pub web_app_data : Option ℕ
  pub left_chat_member : Option ℕ
  pub forward_origin : Option ℕ
  pub reply_to_message : Option ℕ
  pub via_bot : Option ℕ
  pub dice : Option Dice
  pub new_chat_members : List ℕ
  pub entity_types : List (List ℕ)
  pub caption_entity_types : List (List ℕ)

pub record Message : Type 0 where
  pub text : List ℕ
  pub caption : List ℕ
  pub chat : Option Chat
  pub from : Option User
  pub sender_chat : Option Chat
  pub is_automatic_forward : Bool
  pub author_signature : List ℕ
  pub ephemeral_message_id : ℕ
  pub is_topic_message : Bool
  pub message_thread_id : ℕ
  pub media_group_id : List ℕ
  pub content : Content

-- The members of the ChatMember union.
pub data ChatMember : Type 0 where
  owner : ChatMember
  administrator : ChatMember
  member : ChatMember
  restricted : Bool → ChatMember
  left : ChatMember
  banned : ChatMember

pub record ChatMemberUpdated : Type 0 where
  pub chat : Option Chat
  pub from : Option User
  pub old_chat_member : Option ChatMember
  pub new_chat_member : Option ChatMember

pub record CallbackQuery : Type 0 where
  pub from : Option User
  pub message : Option Message
  pub payload : List ℕ

pub record BusinessConnection : Type 0 where
  pub user : Option User
  pub user_chat_id : ℕ

pub record MessageReactionUpdated : Type 0 where
  pub chat : Option Chat
  pub user : Option User
  pub actor_chat : Option Chat

pub record PollAnswer : Type 0 where
  pub user : Option User
  pub voter_chat : Option Chat

pub record Poll : Type 0 where
  pub id : List ℕ

-- The payloads of which the code reads a chat only, a user only, or both.
pub record OfChat : Type 0 where
  pub chat : Option Chat

pub record OfUser : Type 0 where
  pub user : Option User

pub record OfChatUser : Type 0 where
  pub chat : Option Chat
  pub from : Option User

pub record Update : Type 0 where
  pub update_id : ℕ
  pub message : Option Message
  pub edited_message : Option Message
  pub channel_post : Option Message
  pub edited_channel_post : Option Message
  pub business_connection : Option BusinessConnection
  pub business_message : Option Message
  pub edited_business_message : Option Message
  pub deleted_business_messages : Option OfChat
  pub guest_message : Option Message
  pub message_reaction : Option MessageReactionUpdated
  pub message_reaction_count : Option OfChat
  pub inline_query : Option OfUser
  pub chosen_inline_result : Option OfUser
  pub callback_query : Option CallbackQuery
  pub shipping_query : Option OfUser
  pub pre_checkout_query : Option OfUser
  pub purchased_paid_media : Option OfUser
  pub poll : Option Poll
  pub poll_answer : Option PollAnswer
  pub my_chat_member : Option ChatMemberUpdated
  pub chat_member : Option ChatMemberUpdated
  pub chat_join_request : Option OfChatUser
  pub chat_boost : Option OfChat
  pub removed_chat_boost : Option OfChat
  pub managed_bot : Option OfUser
  pub subscription : Option OfUser

abbrev pub empty_update : ℕ → Update
empty_update update_id = record {
  update_id = update_id;
  message = none;
  edited_message = none;
  channel_post = none;
  edited_channel_post = none;
  business_connection = none;
  business_message = none;
  edited_business_message = none;
  deleted_business_messages = none;
  guest_message = none;
  message_reaction = none;
  message_reaction_count = none;
  inline_query = none;
  chosen_inline_result = none;
  callback_query = none;
  shipping_query = none;
  pre_checkout_query = none;
  purchased_paid_media = none;
  poll = none;
  poll_answer = none;
  my_chat_member = none;
  chat_member = none;
  chat_join_request = none;
  chat_boost = none;
  removed_chat_boost = none;
  managed_bot = none;
  subscription = none;
}
