-- ===== src/Api.antt =====
-- internal/api/client.go: the requests of the Bot API client. The HTTP transport and the JSON decoder
-- are not modelled: an attempt stands for what they give back, with what the clock and the context
-- say then. Durations are bit patterns of int64, in nanoseconds.
pub mod Retries
pub mod Redacted
pub mod Uploads
pub mod Hoisted
mod Tests
use golagram.Base.{
  ℕ, zero, suc, ◌+◌, ◌-◌, ◌*◌, ◌%◌, ◌^◌, Bool, true, false, not, ◌&&◌, ◌||◌, List, [], ◌∷◌, ◌++◌,
  Option, none, some, ◌==◌, if◌then◌else◌, length, codes,
}
use golagram.Strings.{has_prefix}
use golagram.Backoff.{int_less, second}

pub record ApiError : Type 0 where
  pub code : ℕ
  pub description : List ℕ
  pub retry_after : Option ℕ
  pub migrate_to_chat_id : Option ℕ

pub record Parameters : Type 0 where
  pub retry_after : Option ℕ
  pub migrate_to_chat_id : Option ℕ

-- apiResponse; the result is the raw payload.
pub record ApiResponse : Type 0 where
  pub ok : Bool
  pub result : List ℕ
  pub error_code : ℕ
  pub description : List ℕ
  pub parameters : Option Parameters

-- What an attempt meets: no request can be made, the transport fails, the body cannot be decoded, or
-- a response arrives.
pub data Exchange : Type 0 where
  create_failed : Exchange
  request_failed : Exchange
  decode_failed : Exchange
  responded : ApiResponse → Exchange

-- The exchange, the time since the start when the delay is decided, and whether ctx is done while
-- the call sleeps.
pub record ApiAttempt : Type 0 where
  pub exchange : Exchange
  pub elapsed : ℕ
  pub canceled : Bool

-- What a call returns; `unfinished` stands for a call that goes on when the given attempts end.
pub data CallResult : Type 0 where
  returned : List ℕ → CallResult
  failed : Exchange → CallResult
  rejected : ApiError → CallResult
  context_done : CallResult
  unfinished : CallResult

pub error_of : ApiResponse → ApiError
error_of r = elim (r.parameters) [
  | none ↦ record {
    code = r.error_code;
    description = r.description;
    retry_after = none;
    migrate_to_chat_id = none;
  }
  | some p ↦ record {
    code = r.error_code;
    description = r.description;
    retry_after = p.retry_after;
    migrate_to_chat_id = p.migrate_to_chat_id;
  }
]

-- time.Duration(n) * time.Second
abbrev pub seconds : ℕ → ℕ
seconds n = n * second % 2 ^ 64

-- retryDelay: the wait of a retry, or none. max_wait is autoRetryMaxWait.
unfoldable pub retry_delay : ℕ → ApiError → ℕ → Option ℕ
unfolding int_less
retry_delay max_wait e elapsed = elim (e.retry_after) [
  | none ↦ none
  | some n ↦
      if not (int_less 0 max_wait) || not (e.code == 429)
      then none
      else if int_less max_wait ((elapsed + seconds n) % 2 ^ 64)
      then none
      else some (seconds n)
]

-- Behind an error response: `again` is what the rest of the loop does.
unfoldable pub after_error : ApiError → Option ℕ → Bool → CallResult × List ℕ → CallResult × List ℕ
after_error e none canceled again = (rejected e, [])
after_error e (some wait) canceled again =
    if canceled then (context_done, wait ∷ []) else (again.0, wait ∷ again.1)

unfoldable pub after_exchange : ℕ → Exchange → ℕ → Bool → CallResult × List ℕ → CallResult × List ℕ
unfolding retry_delay error_of after_error
after_exchange max_wait (responded r) elapsed canceled again =
    let wait = retry_delay max_wait (error_of r) elapsed in
    if r.ok then (returned r.result, []) else after_error (error_of r) wait canceled again
after_exchange max_wait x elapsed canceled again = (failed x, [])

-- The loop of doRequest: what the call returns, and the sleeps before its retries.
unfoldable pub do_request : ℕ → List ApiAttempt → CallResult × List ℕ
unfolding after_exchange
do_request max_wait [] = (unfinished, [])
do_request max_wait (a ∷ more) =
    after_exchange max_wait a.exchange a.elapsed a.canceled (do_request max_wait more)

-- strings.ReplaceAll(s, token, "<TOKEN>") for a token that is not empty; skip counts the characters
-- of the occurrence that is being replaced.
unfoldable pub redact_from : List ℕ → ℕ → List ℕ → List ℕ
redact_from token skip [] = []
redact_from token (suc skip) (c ∷ s) = redact_from token skip s
redact_from token zero (c ∷ s) =
    let replaced = codes "<TOKEN>" ++ redact_from token (length token - 1) s in
    let kept = c ∷ redact_from token zero s in if has_prefix (c ∷ s) token then replaced else kept

-- sanitizeTokenError, of the URL of the error
unfoldable pub sanitize_token : List ℕ → List ℕ → List ℕ
unfolding redact_from
sanitize_token [] url = url
sanitize_token (d ∷ token) url = redact_from (d ∷ token) 0 url
