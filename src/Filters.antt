-- ===== src/Filters.antt =====
-- filters.go: the filters that a registration takes, as tests of the Ctx. strings.EqualFold compares
-- characters by `fold`, a parameter: the representative of a character's case variants.
pub mod Content
pub mod Members
pub mod Laws
pub mod Changes
mod Tests
use golagram.Base.{
  ℕ, Bool, true, false, not, ◌&&◌, ◌||◌, List, [], ◌∷◌, map, Option, none, some, ◌==◌, codes,
  text_eq, if◌then◌else◌,
}
use golagram.Strings.{has_prefix, cut_prefix}
use golagram.Commands.{CommandObject, parse_command}
use golagram.Fsm.{State, no_state, group_contains}
use golagram.Update.{Update, Message, Chat, User, CallbackQuery}
use golagram.Update.Context.{on, any_message, text_or_caption, ctx_chat, ctx_from, ctx_command}
use golagram.Update.Sender.{sender_of, sender_id}

-- What the filters of this file read of a Ctx: the update, and the bot's own username.
pub record Ctx : Type 0 where
  pub update : Update
  pub bot_username : List ℕ

abbrev pub Test : Type 0
Test = Ctx → Bool

unfoldable pub filter_message : (Message → Bool) → Test
filter_message pred c = on (any_message c.update) pred false

module _ (fold : ℕ → ℕ) where
  -- strings.EqualFold
  unfoldable pub equal_fold : List ℕ → List ℕ → Bool
  equal_fold s t = text_eq (map fold s) (map fold t)

  abbrev pub mention_matches : List ℕ → List ℕ → Bool
  mention_matches [] bot = true
  mention_matches (m ∷ mention) bot = equal_fold (m ∷ mention) bot

  unfoldable pub command_matches : List ℕ → List ℕ → Option CommandObject → Bool
  command_matches command bot none = false
  command_matches command bot (some cmd) =
      equal_fold cmd.command command && mention_matches cmd.mention bot

  unfoldable pub filter_command : List ℕ → Test
  unfolding command_matches text_or_caption
  filter_command command c =
      on (any_message c.update)
        (λ (m : Message).
          command_matches command c.bot_username (parse_command (text_or_caption m)))
        false

  unfoldable pub filter_text_equal_fold : List ℕ → Test
  unfolding filter_message equal_fold
  filter_text_equal_fold text = filter_message (λ m. equal_fold (text_or_caption m) text)

  unfoldable pub filter_command_start : Test
  unfolding filter_command
  filter_command_start = filter_command (codes "start")

  unfoldable pub filter_command_start_deep_link : Test
  unfolding filter_command_start
  filter_command_start_deep_link c =
      filter_command_start c
      && on (ctx_command c.update) (λ (cmd : CommandObject). not (text_eq cmd.args [])) false

  -- strings.TrimPrefix(u, "@")
  abbrev pub trim_at : List ℕ → List ℕ
  trim_at [] = []
  trim_at (c ∷ u) = if c == b'@' then u else c ∷ u

  abbrev pub any_username : List (List ℕ) → List ℕ → Bool
  any_username [] username = false
  any_username (u ∷ us) username = equal_fold (trim_at u) username || any_username us username

  abbrev pub username_matches : List (List ℕ) → List ℕ → Bool
  username_matches usernames [] = false
  username_matches usernames (c ∷ username) = any_username usernames (c ∷ username)

  unfoldable pub filter_from_username : List (List ℕ) → Test
  unfolding equal_fold
  filter_from_username usernames c =
      on (ctx_from c.update) (λ (u : User). username_matches usernames u.username) false

unfoldable pub filter_text : List ℕ → Test
unfolding filter_message
filter_text text = filter_message (λ m. text_eq (text_or_caption m) text)

unfoldable pub filter_text_prefix : List ℕ → Test
unfolding filter_message
filter_text_prefix prefix = filter_message (λ m. has_prefix (text_or_caption m) prefix)

-- strings.HasSuffix and strings.Contains
unfoldable pub has_suffix : List ℕ → List ℕ → Bool
has_suffix [] suffix = text_eq [] suffix
has_suffix (c ∷ s) suffix = text_eq (c ∷ s) suffix || has_suffix s suffix

unfoldable pub contains_text : List ℕ → List ℕ → Bool
contains_text [] sub = has_prefix [] sub
contains_text (c ∷ s) sub = has_prefix (c ∷ s) sub || contains_text s sub

unfoldable pub filter_text_suffix : List ℕ → Test
unfolding filter_message has_suffix
filter_text_suffix suffix = filter_message (λ m. has_suffix (text_or_caption m) suffix)

unfoldable pub filter_text_contains : List ℕ → Test
unfolding filter_message contains_text
filter_text_contains sub = filter_message (λ m. contains_text (text_or_caption m) sub)

-- `match_string` is the compiled pattern's MatchString.
unfoldable pub filter_regexp : (List ℕ → Bool) → Test
unfolding filter_message
filter_regexp match_string = filter_message (λ m. match_string (text_or_caption m))

unfoldable pub filter_callback_data : List ℕ → Test
filter_callback_data text c =
    on c.update.callback_query (λ (q : CallbackQuery). text_eq q.payload text) false

unfoldable pub filter_callback_prefix : List ℕ → Test
filter_callback_prefix prefix c =
    on c.update.callback_query (λ (q : CallbackQuery). has_prefix q.payload prefix) false

abbrev pub any_text : List (List ℕ) → List ℕ → Bool
any_text [] t = false
any_text (s ∷ ss) t = text_eq t s || any_text ss t

abbrev pub any_id : List ℕ → ℕ → Bool
any_id [] i = false
any_id (j ∷ js) i = i == j || any_id js i

unfoldable pub filter_chat_type : List (List ℕ) → Test
filter_chat_type types c = on (ctx_chat c.update) (λ (t : Chat). any_text types t.chat_type) false

unfoldable pub filter_from_user : List ℕ → Test
filter_from_user ids c = on (ctx_from c.update) (λ (u : User). any_id ids u.id) false

unfoldable pub filter_from_sender : List ℕ → Test
filter_from_sender ids c =
    on (sender_of c.update) (λ s. not (sender_id s == 0) && any_id ids (sender_id s)) false

-- The state of the conversation, or none where the storage fails.
abbrev pub any_state : State
any_state = codes "*"

abbrev pub state_among : List State → State → Bool
state_among [] current = false
state_among (s ∷ states) current =
    (text_eq s any_state && not (text_eq current no_state))
    || (text_eq s current || state_among states current)

unfoldable pub state_is : List State → Option State → Bool
state_is states none = false
state_is states (some current) = state_among states current

unfoldable pub state_in : List ℕ → Option State → Bool
state_in group none = false
state_in group (some current) = group_contains group current

-- Combinators.
unfoldable pub and_filters : List Test → Test
and_filters [] c = true
and_filters (f ∷ fs) c = f c && and_filters fs c

unfoldable pub or_filters : List Test → Test
or_filters [] c = false
or_filters (f ∷ fs) c = f c || or_filters fs c

unfoldable pub not_filter : Test → Test
not_filter f c = not (f c)
