-- ===== src/AdminCache/Tests.antt =====
-- A run of the filter: a user is an administrator up to time 50, the cache keeps answers for 60.
use golagram.Base.{ℕ, ◌≡◌, refl, List, [], ◌∷◌, Bool, true, false, Option, some, none, All, leb}
use golagram.AdminCache.{AdminKey}
use golagram.AdminCache.Fresh.{CacheCall, check, sweep, answers, IsJustified, answers-IsJustified}

abbrev demoted_at_50 : ℕ → AdminKey → Option Bool
demoted_at_50 now key = some (leb now 50)

abbrev chat_user : AdminKey
chat_user = record { chat_id = 5; user_id = 7 }

abbrev some_checks : List (ℕ × CacheCall)
some_checks =
    (10, check (some chat_user))
    ∷ (50, check (some chat_user))
    ∷ (20, check (some chat_user))
    ∷ (0, check none)
    ∷ (90, sweep)
    ∷ []

checks_run :
    answers demoted_at_50 60 0 some_checks []
    ≡ (10, (some chat_user, true))
      ∷ (60, (some chat_user, true))
      ∷ (80, (some chat_user, false))
      ∷ (80, (none, false))
      ∷ []
unfolding answers golagram.AdminCache.filter_is_admin golagram.AdminCache.cache_get
    golagram.Base.Assoc.lookup golagram.AdminCache.cache_set golagram.Base.Assoc.insert
checks_run = refl

answers-IsJustified_example :
    All (IsJustified demoted_at_50 60) (answers demoted_at_50 60 0 some_checks [])
answers-IsJustified_example = answers-IsJustified demoted_at_50 60 0 some_checks
