-- ===== src/WebApp/Validators.antt =====
-- webapp.go: ValidateWebAppInitData, ValidateWebAppInitDataThirdParty and ValidateLoginWidgetData.
use golagram.Base.{
  ℕ, Bool, List, [], ◌∷◌, ◌++◌, Option, none, some, ◌⊎◌, inl, inr, if◌then◌else◌, codes, text_eq,
}
use golagram.Strconv.{format_int}
use golagram.WebApp.{
  UrlValues, get, data_check_string, hex_encode, InitDataError, bad_query, no_hash, no_signature,
  bad_signature, mismatch, bad_json, WebAppInitData, number_field, seconds_or_zero, check_fresh,
}

-- A field that the JSON decoder reads, where it is present.
unfoldable pub json_field {ℓ} :
    {J : Type ℓ} (unmarshal : List ℕ → List ℕ → Option J)
    → UrlValues
    → List ℕ
    → InitDataError ⊎ Option J
unfolding get
json_field unmarshal values key =
    if text_eq (get values key) []
    then inr none
    else elim (unmarshal key (get values key)) [ none ↦ inl bad_json | some j ↦ inr (some j) ]

pub record LoginWidgetData : Type 0 where
  pub id : ℕ
  pub first_name : List ℕ
  pub last_name : List ℕ
  pub username : List ℕ
  pub photo_url : List ℕ
  pub auth_date : Option ℕ
  pub hash : List ℕ

abbrev pub number_or_zero : Option ℕ → ℕ
number_or_zero none = 0
number_or_zero (some n) = n

infixl 10 ◌>>=◌
abbrev pub ◌>>=◌ {ℓ κ} :
    {A : Type ℓ} {B : Type κ} → InitDataError ⊎ A → (A → InitDataError ⊎ B) → InitDataError ⊎ B
inl e >>= f = inl e
inr a >>= f = f a

-- A check that has to pass, before the rest.
abbrev pub guard {ℓ} : {A : Type ℓ} → Option InitDataError → A → InitDataError ⊎ A
guard none a = inr a
guard (some e) a = inl e

-- The functions that are not the library's: net/url's parser, the cryptography, the JSON decoder for
-- the field of a name, and the age of a unix time as time.Since gives it.
pub record Services {ℓ} (J : Type ℓ) : Type ℓ where
  pub parse_query : List ℕ → Option UrlValues
  pub hmac_sha256 : List ℕ → List ℕ → List ℕ
  pub sha256 : List ℕ → List ℕ
  pub ed25519_verify : List ℕ → List ℕ → List ℕ → Bool
  pub decode_base64_url : List ℕ → Option (List ℕ)
  pub unmarshal : List ℕ → List ℕ → Option J
  pub since : ℕ → ℕ

module _ {ℓ} {J : Type ℓ} (w : Services J) where
  -- parseWebAppInitDataFields. The fields that the JSON decoder reads come in an order that the code
  -- leaves open; it decides only which of their errors is reported, and here none is told apart.
  unfoldable pub parse_fields : UrlValues → ℕ → InitDataError ⊎ WebAppInitData J
  unfolding number_field json_field check_fresh get
  parse_fields values max_age = do
    auth_date ← number_field values (codes "auth_date")
    can_send_after ← number_field values (codes "can_send_after")
    user ← json_field (w.unmarshal) values (codes "user")
    receiver ← json_field (w.unmarshal) values (codes "receiver")
    chat ← json_field (w.unmarshal) values (codes "chat")
    guard (check_fresh (w.since) auth_date max_age) (record {
      query_id = get values (codes "query_id");
      user = user;
      receiver = receiver;
      chat = chat;
      chat_type = get values (codes "chat_type");
      chat_instance = get values (codes "chat_instance");
      start_param = get values (codes "start_param");
      can_send_after = seconds_or_zero can_send_after;
      auth_date = auth_date;
      hash = [];
      signature = [];
      raw = values;
    })

  -- The hash of init data under a bot's token.
  unfoldable pub init_data_hash : UrlValues → List ℕ → List ℕ
  unfolding hex_encode data_check_string
  init_data_hash values bot_token = hex_encode (
      w.hmac_sha256 (w.hmac_sha256 (codes "WebAppData") bot_token)
        (data_check_string values (codes "hash" ∷ [])))

  abbrev pub with_hash : List ℕ → UrlValues → WebAppInitData J → WebAppInitData J
  with_hash hash values d = record d { hash = hash; signature = get values (codes "signature") }

  unfoldable pub validate_values : UrlValues → List ℕ → ℕ → InitDataError ⊎ WebAppInitData J
  unfolding parse_fields init_data_hash
  validate_values values bot_token max_age =
      let got = get values (codes "hash") in
      if text_eq got []
      then inl no_hash
      else if text_eq (init_data_hash values bot_token) got
      then (parse_fields values max_age >>= λ d. inr (with_hash got values d))
      else inl mismatch

  -- The message that Telegram signs for a bot.
  unfoldable pub signed_message : UrlValues → ℕ → List ℕ
  unfolding data_check_string format_int
  signed_message values bot_id =
      format_int bot_id
      ++ codes ":WebAppData\n"
      ++ data_check_string values (codes "hash" ∷ codes "signature" ∷ [])

  abbrev pub with_signature : List ℕ → UrlValues → WebAppInitData J → WebAppInitData J
  with_signature sig values d = record d { hash = get values (codes "hash"); signature = sig }

  unfoldable pub verify_signature :
      UrlValues → ℕ → List ℕ → ℕ → Option (List ℕ) → InitDataError ⊎ WebAppInitData J
  unfolding parse_fields signed_message
  verify_signature values bot_id key max_age none = inl bad_signature
  verify_signature values bot_id key max_age (some sig) =
      if w.ed25519_verify key (signed_message values bot_id) sig
      then (parse_fields values max_age >>= λ d.
          inr (with_signature (get values (codes "signature")) values d))
      else inl mismatch

  unfoldable pub validate_third_party_values :
      UrlValues → ℕ → List ℕ → ℕ → InitDataError ⊎ WebAppInitData J
  unfolding verify_signature
  validate_third_party_values values bot_id key max_age =
      let got = get values (codes "signature") in
      if text_eq got []
      then inl no_signature
      else verify_signature values bot_id key max_age (w.decode_base64_url got)

  -- ValidateWebAppInitDataThirdParty; the environment is given by its key.
  unfoldable pub validate_third_party : List ℕ → ℕ → List ℕ → ℕ → InitDataError ⊎ WebAppInitData J
  unfolding validate_third_party_values
  validate_third_party init_data bot_id key max_age = elim (w.parse_query init_data) [
    | none ↦ inl bad_query
    | some values ↦ validate_third_party_values values bot_id key max_age
  ]

  -- The hash of a login under a bot's token.
  unfoldable pub login_hash : UrlValues → List ℕ → List ℕ
  unfolding hex_encode data_check_string
  login_hash values bot_token =
      hex_encode (w.hmac_sha256 (w.sha256 bot_token) (data_check_string values (codes "hash" ∷ [])))

  unfoldable pub login_fields : UrlValues → ℕ → InitDataError ⊎ LoginWidgetData
  unfolding number_field check_fresh get
  login_fields values max_age = do
    id ← number_field values (codes "id")
    auth_date ← number_field values (codes "auth_date")
    guard (check_fresh (w.since) auth_date max_age) (record {
      id = number_or_zero id;
      first_name = get values (codes "first_name");
      last_name = get values (codes "last_name");
      username = get values (codes "username");
      photo_url = get values (codes "photo_url");
      auth_date = auth_date;
      hash = get values (codes "hash");
    })

  unfoldable pub validate_login_widget_data :
      UrlValues → List ℕ → ℕ → InitDataError ⊎ LoginWidgetData
  unfolding login_fields login_hash
  validate_login_widget_data values bot_token max_age =
      let got = get values (codes "hash") in
      if text_eq got []
      then inl no_hash
      else if text_eq (login_hash values bot_token) got
      then login_fields values max_age
      else inl mismatch

  unfoldable pub validate_web_app_init_data : List ℕ → List ℕ → ℕ → InitDataError ⊎ WebAppInitData J
  unfolding validate_values
  validate_web_app_init_data init_data bot_token max_age = elim (w.parse_query init_data) [
    | none ↦ inl bad_query
    | some values ↦ validate_values values bot_token max_age
  ]
