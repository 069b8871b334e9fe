-- ===== src/Api/Tests.antt =====
-- The client at concrete requests and responses.
use golagram.Base.{
  ℕ, ◌+◌, ◌*◌, ◌≤◌, ◌≡◌, ◌≢◌, ◌⊎◌, length, refl, true, false, List, [], ◌∷◌, none, some, codes,
  arith,
}
use golagram.Backoff.{second, int_less}
use golagram.Api.{
  ApiResponse, Parameters, Exchange, responded, ApiAttempt, unfinished, do_request, error_of,
  after_exchange, after_error, retry_delay, sanitize_token,
}
use golagram.Api.Retries.{sum, Ticking, slept, AsksDelay, do_request-ends}
use golagram.Api.Uploads.{
  InputFile, Value, pointer, struct, slice, interface, file, item, end, contains_upload,
  hoist_uploads,
}
use golagram.Api.Hoisted.{uploads_of, named_from, hoist_uploads-named_from}

abbrev flood : ApiResponse
flood = record {
  ok = false;
  result = [];
  error_code = 429;
  description = codes "Too Many Requests";
  parameters = some (record { retry_after = some 2; migrate_to_chat_id = none });
}

abbrev fine : ApiResponse
fine = record {
  ok = true;
  result = codes "true";
  error_code = 0;
  description = [];
  parameters = none;
}

abbrev at : ApiResponse → ℕ → ApiAttempt
at r elapsed = record { exchange = responded r; elapsed = elapsed; canceled = false }

-- A budget of three seconds: one retry after two seconds, and no second one.
abbrev attempts : List ApiAttempt
attempts =
    at flood 1000 ∷ at flood (2 * second + 2000) ∷ at fine (4 * second) ∷ at fine (5 * second) ∷ []

do_request-ends_example :
    (sum (do_request (3 * second) attempts).1 ≤ 3 * second)
    × (((do_request (3 * second) attempts).0 ≢ unfinished)
        ⊎ (length attempts * second ≤ 3 * second))
unfolding Ticking slept AsksDelay error_of do_request after_exchange after_error retry_delay
    int_less
do_request-ends_example = do_request-ends (3 * second) attempts (omega arith) (
  omega arith,
  omega arith,
  (omega arith, omega arith),
  (
    omega arith,
    omega arith,
    (omega arith, omega arith),
    (omega arith, omega arith, tt, (omega arith, omega arith, tt, tt)),
  ),
)

abbrev token : List ℕ
token = codes "7:secret"

sanitized_url :
    sanitize_token (codes "7:secret") (codes "https://host/bot7:secret/getMe")
    ≡ codes "https://host/bot<TOKEN>/getMe"
unfolding sanitize_token golagram.Strings.has_prefix
sanitized_url = refl

abbrev photo : InputFile
photo = record { value = []; filename = codes "a.jpg"; reader = some 1 }

-- A media group of one photo.
abbrev album : Value
album =
    pointer
      (struct (item (slice (item (interface (pointer (struct (item (file photo) end)))) end)) end))

hoist_uploads-named_from_example :
    (contains_upload (hoist_uploads album []).0 ≡ false)
    × ((hoist_uploads album []).1 ≡ named_from 0 (uploads_of album))
unfolding golagram.Api.Hoisted.NoArray
hoist_uploads-named_from_example = hoist_uploads-named_from album ((((tt, tt), tt), tt))
