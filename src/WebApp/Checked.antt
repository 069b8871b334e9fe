-- ===== src/WebApp/Checked.antt =====
-- What a payload has to satisfy before webapp.go hands it out.
use golagram.Base.{ℕ, ◌-◌, ◌^◌, ◌≤◌, ◌<◌, ◌≡◌, List, Option, none, some, ◌⊎◌, inl, inr, codes}
use golagram.WebApp.{UrlValues, get, InitDataError, WebAppInitData, check_fresh, five_minutes}
use golagram.WebApp.Validators.{Services, init_data_hash}

-- A property of the result, where there is one.
abbrev OnSuccess {ℓ κ} : {A : Type ℓ} (P : A → Type κ) → InitDataError ⊎ A → Type κ
OnSuccess P (inl e) = Unit
OnSuccess P (inr a) = P a

-- A date that is present, neither older than max_age nor more than five minutes ahead.
abbrev pub IsFresh : (ℕ → ℕ) → Option ℕ → ℕ → Type 0
IsFresh since none max_age = ⊥
IsFresh since (some unix) max_age =
    (since unix ≤ max_age) ⊎ ((2 ^ 64 - five_minutes ≤ since unix) × (since unix < 2 ^ 64))

module _ {ℓ} {J : Type ℓ} (w : Services J) where
  abbrev IsParsed : UrlValues → ℕ → WebAppInitData J → Type 0
  IsParsed values max_age d = (d.raw ≡ values) × (check_fresh (w.since) d.auth_date max_age ≡ none)

  -- The hash that the payload carries is the one of its other fields under the token.
  abbrev pub IsSigned : List ℕ → WebAppInitData J → Type 0
  IsSigned bot_token d =
      (init_data_hash w d.raw bot_token ≡ d.hash) × (d.hash ≡ get d.raw (codes "hash"))
