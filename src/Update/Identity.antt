-- ===== src/Update/Identity.antt =====
-- What the accessors of a Ctx agree on, for an update with one payload.
use golagram.Base.{
  ℕ, ◌≡◌, ◌+◌, ◌∙◌, sym, ap, refl, Bool, true, false, not, ◌&&◌, ◌||◌, Option, none, some, ◌==◌,
  if◌then◌else◌, Option-cases, inl, inr,
}
use golagram.Fsm.{StorageKey, KeyStrategy, apply}
use golagram.Update.{Update, Message, Chat, User, CallbackQuery}
use golagram.Update.Kinds.{Payload, update_with}
use golagram.Update.Kinds
use golagram.Update.Context.{
  on, any_message, ctx_chat, ctx_from, chat_id, user_id, thread_id, identity_triple,
  callback_chat_id, callback_thread_id, chat_of_payload,
}
use golagram.Update.Sender.{
  Sender, sender_of, sender_id, user_sender, message_sender, is_anonymous_admin, is_channel_post,
  is_anonymous_channel, is_linked_channel, is_channel,
}

-- storageKey: the strategy of the bot and whether it keeps state by the sender; no bot is the
-- default strategy, without.
unfoldable pub identity_user : Bool → Update → ℕ
unfolding identity_triple
identity_user by_sender u =
    if by_sender then on (sender_of u) sender_id 0 else (identity_triple u).1

unfoldable pub storage_key_of : KeyStrategy → Bool → Update → StorageKey
unfolding identity_triple identity_user
storage_key_of strategy by_sender u =
    apply strategy (identity_triple u).0 (identity_user by_sender u) (identity_triple u).2

unfoldable pub ctx_storage_key : Option (KeyStrategy × Bool) → Update → StorageKey
ctx_storage_key none u = storage_key_of KeyStrategy.chat_user false u
ctx_storage_key (some (strategy, by_sender)) u = storage_key_of strategy by_sender u

-- The user of the sender, if there is one.
abbrev pub sender_user : Update → Option User
sender_user u = on (sender_of u) (λ (s : Sender). s.user) none

user_of-sender :
    (o : Option User)
    → on (on o (λ (v : User). some (user_sender (some v))) none) (λ (s : Sender). s.user) none ≡ o
user_of-sender none = refl
user_of-sender (some v) = refl

-- The chat that an update is kept under: the private chat of a business connection, the chat of a
-- callback or else the one with its user, and the Ctx's chat for the other kinds.
abbrev pub home_chat : ℕ → Payload → ℕ
home_chat i (Kinds.business_connection_payload p) = p.user_chat_id
home_chat i (Kinds.callback_query_payload q) =
    on (ctx_chat (update_with i (Kinds.callback_query_payload q))) (λ (c : Chat). c.id)
      (user_id q.from)
home_chat i p = chat_id (ctx_chat (update_with i p))

callback_home :
    (i : ℕ) (q : CallbackQuery) → callback_chat_id q ≡ home_chat i (Kinds.callback_query_payload q)
unfolding callback_chat_id ctx_chat update_with any_message chat_of_payload
callback_home i q = home_of q.message
  where
    home_of :
        (o : Option Message)
        → on o (λ (m : Message). on m.chat (λ (c : Chat). c.id) (user_id q.from)) (user_id q.from)
          ≡ on (on o (λ (m : Message). m.chat) none) (λ (c : Chat). c.id) (user_id q.from)
    home_of none = refl
    home_of (some m) = refl

-- For an update with one payload, the sender, the Ctx's user and chat, and the identity that state
-- is kept under agree: the sender's user is the Ctx's user, the identity's user is its id, and the
-- identity's chat is the home chat.
sender_user-identity :
    (i : ℕ) (p : Payload)
    → (sender_user (update_with i p) ≡ ctx_from (update_with i p))
      × (((identity_triple (update_with i p)).1 ≡ user_id (ctx_from (update_with i p)))
          × ((identity_triple (update_with i p)).0 ≡ home_chat i p))
unfolding update_with sender_of ctx_from identity_triple ctx_chat
sender_user-identity i (Kinds.message_payload p) = (refl, (refl, refl))
sender_user-identity i (Kinds.edited_message_payload p) = (refl, (refl, refl))
sender_user-identity i (Kinds.channel_post_payload p) = (refl, (refl, refl))
sender_user-identity i (Kinds.edited_channel_post_payload p) = (refl, (refl, refl))
sender_user-identity i (Kinds.business_connection_payload p) = (user_of-sender p.user, (refl, refl))
sender_user-identity i (Kinds.business_message_payload p) = (refl, (refl, refl))
sender_user-identity i (Kinds.edited_business_message_payload p) = (refl, (refl, refl))
sender_user-identity i (Kinds.deleted_business_messages_payload p) = (refl, (refl, refl))
sender_user-identity i (Kinds.guest_message_payload p) = (refl, (refl, refl))
sender_user-identity i (Kinds.message_reaction_payload p) = (refl, (refl, refl))
sender_user-identity i (Kinds.message_reaction_count_payload p) = (refl, (refl, refl))
sender_user-identity i (Kinds.inline_query_payload p) = (user_of-sender p.user, (refl, refl))
sender_user-identity i (Kinds.chosen_inline_result_payload p) =
    (user_of-sender p.user, (refl, refl))
sender_user-identity i (Kinds.callback_query_payload q) = (refl, (refl, callback_home i q))
sender_user-identity i (Kinds.shipping_query_payload p) = (user_of-sender p.user, (refl, refl))
sender_user-identity i (Kinds.pre_checkout_query_payload p) = (user_of-sender p.user, (refl, refl))
sender_user-identity i (Kinds.purchased_paid_media_payload p) =
    (user_of-sender p.user, (refl, refl))
sender_user-identity i (Kinds.poll_payload p) = (refl, (refl, refl))
sender_user-identity i (Kinds.poll_answer_payload p) = (refl, (refl, refl))
sender_user-identity i (Kinds.my_chat_member_payload p) = (user_of-sender p.from, (refl, refl))
sender_user-identity i (Kinds.chat_member_payload p) = (user_of-sender p.from, (refl, refl))
sender_user-identity i (Kinds.chat_join_request_payload p) = (user_of-sender p.from, (refl, refl))
sender_user-identity i (Kinds.chat_boost_payload p) = (refl, (refl, refl))
sender_user-identity i (Kinds.removed_chat_boost_payload p) = (refl, (refl, refl))
sender_user-identity i (Kinds.managed_bot_payload p) = (user_of-sender p.user, (refl, refl))
sender_user-identity i (Kinds.subscription_payload p) = (user_of-sender p.user, (refl, refl))

callback_chat_id-same :
    (q : CallbackQuery) (m : Message) (c : Chat)
    → q.message ≡ some m
    → m.chat ≡ some c
    → callback_chat_id q ≡ c.id
unfolding callback_chat_id
callback_chat_id-same q m c a b =
    ap
      (λ (o : Option Message).
        on o (λ (m : Message). on m.chat (λ (c : Chat). c.id) (user_id q.from)) (user_id q.from))
      a
    ∙ ap (λ (o : Option Chat). on o (λ (c : Chat). c.id) (user_id q.from)) b

callback_thread_id-same :
    (q : CallbackQuery) (m : Message) → q.message ≡ some m → callback_thread_id q ≡ thread_id m
unfolding callback_thread_id
callback_thread_id-same q m a = ap (λ (o : Option Message). on o thread_id 0) a

identity_user-callback :
    (i j : ℕ) (by_sender : Bool) (q : CallbackQuery) (m : Message)
    → q.from ≡ m.from
    → m.sender_chat ≡ none
    → identity_user by_sender (update_with i (Kinds.callback_query_payload q))
      ≡ identity_user by_sender (update_with j (Kinds.message_payload m))
unfolding identity_user update_with sender_of sender_id identity_triple message_sender
identity_user-callback i j true q m f n =
    ap (λ (o : Option User). on o (λ (u : User). u.id) 0) f
    ∙ sym (ap (λ (o : Option Chat). on o (λ (c : Chat). c.id) (on m.from (λ (u : User). u.id) 0)) n)
identity_user-callback i j false q m f n = ap user_id f

-- A click on a button under a message and a message in the same chat and thread, by the same user
-- who speaks as that user, are kept under the same key, for every strategy, by sender or not.
storage_key_of-callback :
    (i j : ℕ) (strategy : KeyStrategy) (by_sender : Bool) (q : CallbackQuery) (m m' : Message)
    (c : Chat)
    → q.message ≡ some m
    → m.chat ≡ some c
    → m'.chat ≡ some c
    → thread_id m ≡ thread_id m'
    → q.from ≡ m'.from
    → m'.sender_chat ≡ none
    → storage_key_of strategy by_sender (update_with i (Kinds.callback_query_payload q))
      ≡ storage_key_of strategy by_sender (update_with j (Kinds.message_payload m'))
unfolding storage_key_of update_with identity_triple
storage_key_of-callback i j strategy by_sender q m m' c a b b' t f n = λ k.
    apply strategy ((callback_chat_id-same q m c a b ∙ sym (ap chat_id b')) k)
      (identity_user-callback i j by_sender q m' f n k) ((callback_thread_id-same q m a ∙ t) k)

abbrev bit : Bool → ℕ
bit true = 1
bit false = 0

exclusive_cases :
    (home channel forward : Bool)
    → bit (home && not channel)
        + (bit (home && channel)
            + (bit (not home && (not forward && channel)) + bit (not home && forward)))
      ≡ bit (home || (channel || forward))
exclusive_cases true true forward = refl
exclusive_cases true false forward = refl
exclusive_cases false true true = refl
exclusive_cases false true false = refl
exclusive_cases false false true = refl
exclusive_cases false false false = refl

-- Of the four predicates on senders exactly one holds of a sender that is a chat speaking in itself,
-- a channel, or a chat whose post was forwarded automatically, and none of any other sender.
sender-exclusive :
    (s : Sender)
    → bit (is_anonymous_admin s)
        + (bit (is_channel_post s) + (bit (is_anonymous_channel s) + bit (is_linked_channel s)))
      ≡ bit (
          on s.chat
            (λ (c : Chat). c.id == s.landing_chat_id || (is_channel c || s.is_automatic_forward))
            false)
unfolding is_anonymous_admin is_channel_post is_anonymous_channel is_linked_channel
sender-exclusive s = elim (Option-cases s.chat) [
  | inl h ↦ rw h refl
  | inr h ↦
      rw h.1 (exclusive_cases (h.0.id == s.landing_chat_id) (is_channel h.0) s.is_automatic_forward)
]
