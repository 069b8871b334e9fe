-- ===== src/Broadcast.antt =====
-- broadcast.go and the tests of errors.go: sending to every chat of a list from several workers. The
-- pacer and the send function are parameters: what they answer is part of a step. Identifiers of
-- chats are numbers that are only compared.
pub mod Accounted
mod Tests
use golagram.Base.{
  ℕ, zero, suc, ◌+◌, ◌-◌, ◌<◌, ◌≡◌, Bool, true, false, ◌&&◌, ◌||◌, List, [], ◌∷◌, ◌++◌, Option,
  none, some, ◌==◌, if◌then◌else◌, length, codes,
}
use golagram.Base.Assoc.{insert, nat_key}
use golagram.Backoff.{second}
use golagram.Strings.{has_prefix}
use golagram.Api.{ApiError, seconds}

-- An error, as AsAPIError sees it.
pub data SendError : Type 0 where
  api_error : ApiError → SendError
  other_error : ℕ → SendError

-- strings.Contains(s, part)
unfoldable pub contains_part : List ℕ → List ℕ → Bool
unfolding has_prefix
contains_part [] part = has_prefix [] part
contains_part (c ∷ s) part = has_prefix (c ∷ s) part || contains_part s part

unfoldable pub is_flood : SendError → Bool
is_flood (api_error e) = e.code == 429
is_flood (other_error n) = false

unfoldable pub is_blocked_by_user : SendError → Bool
unfolding contains_part
is_blocked_by_user (api_error e) =
    e.code == 403 && contains_part e.description (codes "blocked by the user")
is_blocked_by_user (other_error n) = false

pub is_chat_not_found : SendError → Bool
unfolding contains_part
is_chat_not_found (api_error e) =
    e.code == 400 && contains_part e.description (codes "chat not found")
is_chat_not_found (other_error n) = false

pub is_message_not_editable : SendError → Bool
unfolding contains_part
is_message_not_editable (api_error e) =
    e.code == 400
    && (contains_part e.description (codes "message to edit not found")
        || contains_part e.description (codes "message can't be edited"))
is_message_not_editable (other_error n) = false

pub is_conflict : SendError → Bool
is_conflict (api_error e) = e.code == 409
is_conflict (other_error n) = false

-- How long a flood error pauses the pacer.
unfoldable pub flood_wait : SendError → ℕ
flood_wait (api_error e) = elim (e.retry_after) [ none ↦ second | some n ↦ seconds n ]
flood_wait (other_error n) = second

pub record BroadcastResult : Type 0 where
  pub sent : ℕ
  pub failed : ℕ
  pub blocked : List ℕ
  pub errors : List (ℕ × SendError)

abbrev pub empty_result : BroadcastResult
empty_result = record { sent = 0; failed = 0; blocked = []; errors = [] }

pub record BroadcastProgress : Type 0 where
  pub total : ℕ
  pub sent : ℕ
  pub failed : ℕ
  pub blocked : ℕ
  pub remaining : ℕ

-- The result's part of resolve, an error of none being nil.
unfoldable pub resolve : ℕ → Option SendError → BroadcastResult → BroadcastResult
unfolding is_blocked_by_user insert
resolve chat_id none r = record r { sent = r.sent + 1 }
resolve chat_id (some err) r = record r {
  failed = r.failed + 1;
  errors = insert chat_id err r.errors;
  blocked = if is_blocked_by_user err then r.blocked ++ chat_id ∷ [] else r.blocked;
}

-- What the progress callback is given, after the result is updated.
unfoldable pub progress_of : ℕ → BroadcastResult → BroadcastProgress
progress_of total r = record {
  total = total;
  sent = r.sent;
  failed = r.failed;
  blocked = length r.blocked;
  remaining = total - r.sent - r.failed;
}

-- The answers that sendOne meets: of the pacer and of send, before and behind a flood error.
pub record Answers : Type 0 where
  pub wait : Option SendError
  pub sending : Option SendError
  pub wait_again : Option SendError
  pub sending_again : Option SendError

-- Behind a flood error: the result, and the pauses of the pacer.
unfoldable pub retried : SendError → Answers → Option SendError × List ℕ
unfolding flood_wait
retried err a = elim (a.wait_again) [
  | none ↦ (a.sending_again, flood_wait err ∷ [])
  | some werr ↦ (some werr, flood_wait err ∷ [])
]

unfoldable pub sent_once : Option SendError → Answers → Option SendError × List ℕ
unfolding is_flood retried
sent_once none a = (none, [])
sent_once (some err) a = if is_flood err then retried err a else (some err, [])

-- sendOne: what it resolves the chat with, and the pauses of the pacer.
unfoldable pub send_one : Answers → Option SendError × List ℕ
unfolding sent_once
send_one a = elim (a.wait) [ none ↦ sent_once a.sending a | some err ↦ (some err, []) ]

-- The chats not yet fed to a worker, those that workers hold, those given up when ctx is done, the
-- result, and what the progress callback was given.
pub record Broadcasting : Type 0 where
  pub unfed : List ℕ
  pub held : List ℕ
  pub dropped : List ℕ
  pub result : BroadcastResult
  pub resolved : List ℕ
  pub progress : List BroadcastProgress

abbrev pub begin : List ℕ → Broadcasting
begin chat_ids = record {
  unfed = chat_ids;
  held = [];
  dropped = [];
  result = empty_result;
  resolved = [];
  progress = [];
}

abbrev pub hold : Broadcasting → ℕ → List ℕ → Broadcasting
hold s id rest = record s { unfed = rest; held = s.held ++ id ∷ [] }

-- A worker resolves the chat that it holds between others, under the lock.
unfoldable pub finish : ℕ → Broadcasting → List ℕ → ℕ → List ℕ → Answers → Broadcasting
unfolding resolve send_one progress_of
finish total s before id behind a =
    let result = resolve id (send_one a).0 s.result in
    record s {
      held = before ++ behind;
      result = result;
      resolved = s.resolved ++ id ∷ [];
      progress = s.progress ++ progress_of total result ∷ [];
    }

-- The steps of Broadcast to `total` chats with `concurrency` workers, in any interleaving.
pub data Move (concurrency total : ℕ) : Broadcasting → Broadcasting → Type 0 where
  feed :
      (s : Broadcasting) (id : ℕ) (rest : List ℕ)
      → s.unfed ≡ id ∷ rest
      → length s.held < concurrency
      → Move concurrency total s (hold s id rest)
  complete :
      (s : Broadcasting) (before behind : List ℕ) (id : ℕ) (a : Answers)
      → s.held ≡ before ++ id ∷ behind
      → Move concurrency total s (finish total s before id behind a)
  give_up :
      (s : Broadcasting)
      → Move concurrency total s (record s { unfed = []; dropped = s.dropped ++ s.unfed })

pub data Moves (concurrency total : ℕ) : Broadcasting → Broadcasting → Type 0 where
  done : (s : Broadcasting) → Moves concurrency total s s
  step :
      (s t r : Broadcasting)
      → Moves concurrency total s t
      → Move concurrency total t r
      → Moves concurrency total s r
