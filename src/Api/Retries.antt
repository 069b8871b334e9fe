-- ===== src/Api/Retries.antt =====
-- The time that a call of the client (internal/api/client.go) sleeps before retries.
use mathlib.Core.Path.{subst}
use golagram.Base.{
  ℕ, suc, ◌+◌, ◌*◌, ◌%◌, ◌^◌, ◌≤◌, ◌<◌, ◌≡◌, ◌≢◌, refl, ap, Bool, true, false, List, [], ◌∷◌, ◌⊎◌,
  inl, inr, ◌∙◌, not, ◌||◌, ◌==◌, if◌then◌else◌, Option, none, some, none_ne_some, some_inj,
  Bool-cases, Option-cases, length, arith, leb, le_of_test, lt_of_test,
}
use golagram.Backoff.{int_less, second}
use golagram.Api.{
  Exchange, create_failed, request_failed, decode_failed, responded, ApiAttempt, ApiError,
  ApiResponse, CallResult, returned, failed, rejected, unfinished, error_of, seconds, retry_delay,
  after_error, after_exchange, do_request,
}

abbrev pub sum : List ℕ → ℕ
sum [] = 0
sum (n ∷ ns) = n + sum ns

-- A delay that Telegram may ask for: between a second and about a hundred years.
abbrev pub IsDelay : Option ℕ → Type 0
IsDelay none = Unit
IsDelay (some n) = (1 ≤ n) × (n ≤ 4000000000)

unfoldable pub AsksDelay : Exchange → Type 0
unfolding error_of
AsksDelay (responded r) = IsDelay (error_of r).retry_after
AsksDelay x = Unit

delay_bounds :
    (max_wait elapsed n : ℕ)
    → max_wait < 0x8000000000000000
    → elapsed < 0x4000000000000000
    → IsDelay (some n)
    → int_less max_wait ((elapsed + seconds n) % 2 ^ 64) ≡ false
    → (second ≤ seconds n) × (elapsed + seconds n ≤ max_wait)
unfolding int_less
delay_bounds max_wait elapsed n m l d h = ground (arith, d.0, d.1)

-- The delay of an error that asks for n seconds.
abbrev delay_of : ℕ → ApiError → ℕ → ℕ → Option ℕ
unfolding int_less
delay_of max_wait e elapsed n =
    if not (int_less 0 max_wait) || not (e.code == 429)
    then none
    else if int_less max_wait ((elapsed + seconds n) % 2 ^ 64)
    then none
    else some (seconds n)

delay_of-bounds :
    (max_wait elapsed wait n : ℕ) (e : ApiError)
    → max_wait < 0x8000000000000000
    → elapsed < 0x4000000000000000
    → IsDelay (some n)
    → delay_of max_wait e elapsed n ≡ some wait
    → (second ≤ wait) × (elapsed + wait ≤ max_wait)
unfolding delay_of
delay_of-bounds max_wait elapsed wait n e m l d h =
    let late = int_less max_wait ((elapsed + seconds n) % 2 ^ 64) in
    elim (Bool-cases (not (int_less 0 max_wait) || not (e.code == 429))) [
      | inl a ↦ let wrong = rw a at h in absurd (none_ne_some wrong)
      | inr a ↦ elim (Bool-cases late) [
        | inl b ↦ let wrong = rw (a, b) at h in absurd (none_ne_some wrong)
        | inr b ↦
            let same : seconds n ≡ wait = some_inj (rw (a, b) at h) in
            rw same at (delay_bounds max_wait elapsed n m l d b)
      ]
    ]

same_delay :
    (max_wait elapsed n : ℕ) (e : ApiError)
    → e.retry_after ≡ some n
    → delay_of max_wait e elapsed n ≡ retry_delay max_wait e elapsed
unfolding retry_delay delay_of
same_delay max_wait elapsed n e h = rw h refl

retry_delay_bounds :
    (max_wait elapsed wait : ℕ) (e : ApiError)
    → max_wait < 0x8000000000000000
    → elapsed < 0x4000000000000000
    → IsDelay e.retry_after
    → retry_delay max_wait e elapsed ≡ some wait
    → (second ≤ wait) × (elapsed + wait ≤ max_wait)
unfolding retry_delay
retry_delay_bounds max_wait elapsed wait e m l d h = elim (Option-cases e.retry_after) [
  | inl n ↦ let wrong = rw n at h in absurd (none_ne_some wrong)
  | inr n ↦
      delay_of-bounds max_wait elapsed wait n.0 e m l (rw (n.1) at d)
        (same_delay max_wait elapsed n.0 e n.1 ∙ h)
]

-- The sleep that an attempt by itself leads to.
unfoldable pub slept : ℕ → ApiAttempt → ℕ
unfolding do_request
slept max_wait a = sum (do_request max_wait (a ∷ [])).1

-- Attempts as the clock shows them: the first not before t, each next one not before the last one's
-- sleep is over, and none later than 2^62 nanoseconds after the start.
unfoldable pub Ticking : ℕ → ℕ → List ApiAttempt → Type 0
unfolding slept AsksDelay
Ticking max_wait t [] = Unit
Ticking max_wait t (a ∷ more) =
    (t ≤ a.elapsed)
    × (a.elapsed < 0x4000000000000000)
    × AsksDelay a.exchange
    × Ticking max_wait (a.elapsed + slept max_wait a) more

-- The sleeps of a call that begins t after the start, of n attempts.
record IsBudgeted (max_wait t n : ℕ) (r : CallResult × List ℕ) : Type 0 where
  within : (r.1 ≡ []) ⊎ (t + sum r.1 ≤ max_wait)
  long : length r.1 * second ≤ sum r.1
  all : r.0 ≡ unfinished → length r.1 ≡ n

abbrev done : (max_wait t n : ℕ) (x : CallResult) → x ≢ unfinished → IsBudgeted max_wait t n (x, [])
done max_wait t n x h = record { within = inl refl; long = omega arith; all = λ e. absurd (h e) }

after_error-IsBudgeted :
    (max_wait t n : ℕ) (e : ApiError) (wait : Option ℕ) (canceled : Bool)
    (again : CallResult × List ℕ)
    → ((w : ℕ) → wait ≡ some w → (second ≤ w) × (t + w ≤ max_wait))
    → ((w : ℕ) → wait ≡ some w → canceled ≡ false → IsBudgeted max_wait (t + w) n again)
    → IsBudgeted max_wait t (suc n) (after_error e wait canceled again)
unfolding after_error
after_error-IsBudgeted max_wait t n e none canceled again b h =
    done max_wait t (suc n) (rejected e) (λ k. cc)
after_error-IsBudgeted max_wait t n e (some w) true again b h =
    let i = b w refl in
    record { within = inr (omega (arith, i.1)); long = omega (arith, i.0); all = λ k. absurd (cc) }
after_error-IsBudgeted max_wait t n e (some w) false again b h =
    let i = b w refl in
    let r = h w refl refl in
    record {
      within =
          inr (elim (r.within) [ inl z ↦ rw z (omega (arith, i.1)) | inr z ↦ omega (arith, z) ]);
      long = omega (arith, i.0, r.long);
      all = λ k. ap suc (r.all k);
    }

slept-responded :
    (max_wait t w : ℕ) (r : ApiResponse) (canceled : Bool)
    → r.ok ≡ false
    → retry_delay max_wait (error_of r) t ≡ some w
    → canceled ≡ false
    → sum (after_exchange max_wait (responded r) t canceled (unfinished, [])).1 ≡ w
unfolding after_exchange after_error
slept-responded max_wait t w r canceled o e f = rw (o, e, f) (omega arith)

after_exchange-IsBudgeted :
    (max_wait t n : ℕ) (x : Exchange) (canceled : Bool) (again : CallResult × List ℕ)
    → max_wait < 0x8000000000000000
    → t < 0x4000000000000000
    → AsksDelay x
    → (canceled ≡ false
        → IsBudgeted max_wait
            (t + sum (after_exchange max_wait x t canceled (unfinished, [])).1)
            n
            again)
    → IsBudgeted max_wait t (suc n) (after_exchange max_wait x t canceled again)
unfolding after_exchange AsksDelay
after_exchange-IsBudgeted max_wait t n create_failed c again m l d h =
    done max_wait t (suc n) (failed create_failed) (λ k. cc)
after_exchange-IsBudgeted max_wait t n request_failed c again m l d h =
    done max_wait t (suc n) (failed request_failed) (λ k. cc)
after_exchange-IsBudgeted max_wait t n decode_failed c again m l d h =
    done max_wait t (suc n) (failed decode_failed) (λ k. cc)
after_exchange-IsBudgeted max_wait t n (responded r) c again m l d h = elim (Bool-cases r.ok) [
  | inl o ↦ rw o (done max_wait t (suc n) (returned r.result) (λ k. cc))
  | inr o ↦ rw o (
      after_error-IsBudgeted max_wait t n (error_of r) (retry_delay max_wait (error_of r) t) c again
        (λ w e. retry_delay_bounds max_wait t w (error_of r) m l d e)
        (λ w e f.
          subst (λ k. IsBudgeted max_wait (t + k) n again) (slept-responded max_wait t w r c o e f)
            (h f)))
]

do_request-IsBudgeted :
    (max_wait : ℕ) (attempts : List ApiAttempt) (t : ℕ)
    → max_wait < 0x8000000000000000
    → Ticking max_wait t attempts
    → IsBudgeted max_wait t (length attempts) (do_request max_wait attempts)
unfolding do_request Ticking
do_request-IsBudgeted max_wait [] t m k = record {
  within = inl refl;
  long = omega arith;
  all = λ e. refl;
}
do_request-IsBudgeted max_wait (a ∷ more) t m k =
    let r =
      after_exchange-IsBudgeted max_wait a.elapsed (length more) a.exchange a.canceled _ m k.1 k.2
        (λ e. do_request-IsBudgeted max_wait more _ m k.3) in
    record {
      within = elim (r.within) [ inl z ↦ inl z | inr z ↦ inr (omega (arith, z, k.0)) ];
      long = r.long;
      all = r.all;
    }

-- Let the attempts of a call follow the clock, each after the sleep before it and none 2^62 nanoseconds
-- or more after the start, let every delay that the server asks for be a second to 4 * 10^9 seconds,
-- and let the budget of SetAutoRetry not be negative. Then all sleeps of the call together are within
-- the budget; and either the call has returned a result or an error before the attempts are used up,
-- or the attempts, a second each, do not exceed the budget.
pub do_request-ends :
    (max_wait : ℕ) (attempts : List ApiAttempt)
    → max_wait < 0x8000000000000000
    → Ticking max_wait 0 attempts
    → (sum (do_request max_wait attempts).1 ≤ max_wait)
      × (((do_request max_wait attempts).0 ≢ unfinished) ⊎ (length attempts * second ≤ max_wait))
do_request-ends max_wait attempts m k =
    let r = do_request-IsBudgeted max_wait attempts 0 m k in
    let total : sum (do_request max_wait attempts).1 ≤ max_wait = elim (r.within) [
      | inl z ↦ rw z (omega arith)
      | inr z ↦ omega (arith, z)
    ] in
    (
      total,
      elim (Bool-cases (leb (length attempts * second) max_wait)) [
        | inl e ↦ inr (le_of_test _ _ e)
        | inr e ↦ inl (λ u.
            absurd (omega (arith, lt_of_test _ _ e, total, r.long, ap (λ n. n * second) (r.all u))))
      ],
    )
