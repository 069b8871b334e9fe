-- ===== src/Broadcast/Tests.antt =====
-- A broadcast to two chats, the second of which has blocked the bot.
use golagram.Base.{ℕ, ◌≡◌, refl, List, [], ◌∷◌, none, some, codes, arith}
use golagram.Broadcast.{
  SendError, api_error, Answers, send_one, Broadcasting, begin, hold, finish, Moves, done, step,
  feed, complete,
}
use golagram.Broadcast.Accounted.{IsAccounted, Moves-IsAccounted}

abbrev blocked : SendError
blocked = api_error (record {
  code = 403;
  description = codes "Forbidden: bot was blocked by the user";
  retry_after = none;
  migrate_to_chat_id = none;
})

abbrev flood : SendError
flood = api_error (record {
  code = 429;
  description = codes "Too Many Requests";
  retry_after = some 3;
  migrate_to_chat_id = none;
})

abbrev fine : Answers
fine = record { wait = none; sending = none; wait_again = none; sending_again = none }

abbrev refused : Answers
refused = record { wait = none; sending = some blocked; wait_again = none; sending_again = none }

abbrev flooded : Answers
flooded = record { wait = none; sending = some flood; wait_again = none; sending_again = none }

-- A flood error pauses the pacer for its three seconds, and the chat is sent to once more.
sent_again : send_one flooded ≡ (none, 3000000000 ∷ [])
unfolding send_one
sent_again = refl

abbrev chats : List ℕ
chats = 7 ∷ 9 ∷ []

abbrev both : Broadcasting
both = hold (hold (begin chats) 7 (9 ∷ [])) 9 []

abbrev last : Broadcasting
unfolding finish
last = finish 2 (finish 2 both (7 ∷ []) 9 [] refused) [] 7 [] fine

abbrev run_both : Moves 2 2 (begin chats) last
unfolding finish
run_both =
    step _ _ _
      (step _ _ _
        (step _ _ _
          (step _ _ _ (done (begin chats)) (feed (begin chats) 7 (9 ∷ []) refl (omega arith)))
          (feed (hold (begin chats) 7 (9 ∷ [])) 9 [] refl (omega arith)))
        (complete both (7 ∷ []) [] 9 refused refl))
      (complete (finish 2 both (7 ∷ []) 9 [] refused) [] [] 7 fine refl)

Moves-IsAccounted_example : IsAccounted 2 chats last
Moves-IsAccounted_example = Moves-IsAccounted 2 chats last run_both
