-- ===== src/Update/Sender.antt =====
-- sender.go: who is behind an update, a chat that speaks for itself included.
use golagram.Base.{ℕ, Bool, false, not, ◌&&◌, List, [], Option, none, some, ◌==◌, codes, text_eq}
use golagram.Update.{Update, Message, Chat, User, CallbackQuery, MessageReactionUpdated, PollAnswer}
use golagram.Update.Context.{on, any_message, ctx_from, chat_id}

pub record Sender : Type 0 where
  pub user : Option User
  pub chat : Option Chat
  pub is_automatic_forward : Bool
  pub author_signature : List ℕ
  pub landing_chat_id : ℕ

abbrev pub user_sender : Option User → Sender
user_sender user = record {
  user = user;
  chat = none;
  is_automatic_forward = false;
  author_signature = [];
  landing_chat_id = 0;
}

unfoldable pub sender_id : Sender → ℕ
sender_id s = on s.chat (λ (c : Chat). c.id) (on s.user (λ (u : User). u.id) 0)

unfoldable pub sender_name : Sender → List ℕ
sender_name s = on s.chat (λ (c : Chat). c.title) (on s.user (λ (u : User). u.first_name) [])

unfoldable pub sender_username : Sender → List ℕ
sender_username s = on s.chat (λ (c : Chat). c.username) (on s.user (λ (u : User). u.username) [])

abbrev pub is_channel : Chat → Bool
is_channel c = text_eq c.chat_type (codes "channel")

unfoldable pub is_anonymous_admin : Sender → Bool
is_anonymous_admin s =
    on s.chat (λ (c : Chat). c.id == s.landing_chat_id && not (is_channel c)) false

unfoldable pub is_channel_post : Sender → Bool
is_channel_post s = on s.chat (λ (c : Chat). c.id == s.landing_chat_id && is_channel c) false

unfoldable pub is_anonymous_channel : Sender → Bool
is_anonymous_channel s =
    on s.chat
      (λ (c : Chat).
        not (c.id == s.landing_chat_id) && (not s.is_automatic_forward && is_channel c))
      false

unfoldable pub is_linked_channel : Sender → Bool
is_linked_channel s =
    on s.chat (λ (c : Chat). not (c.id == s.landing_chat_id) && s.is_automatic_forward) false

unfoldable pub message_sender : Message → Sender
message_sender m = record {
  user = m.from;
  chat = m.sender_chat;
  is_automatic_forward = m.is_automatic_forward;
  author_signature = m.author_signature;
  landing_chat_id = chat_id m.chat;
}

unfoldable pub sender_of : Update → Option Sender
unfolding any_message message_sender ctx_from
sender_of u =
    on u.callback_query (λ (q : CallbackQuery). some (user_sender q.from))
      (on u.message_reaction
        (λ (p : MessageReactionUpdated).
          some
            (record (user_sender p.user) { chat = p.actor_chat; landing_chat_id = chat_id p.chat }))
        (on u.poll_answer
          (λ (p : PollAnswer). some (record (user_sender p.user) { chat = p.voter_chat }))
          (on (any_message u) (λ (m : Message). some (message_sender m))
            (on (ctx_from u) (λ (v : User). some (user_sender (some v))) none))))
