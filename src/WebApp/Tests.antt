-- ===== src/WebApp/Tests.antt =====
-- Validation of init data with small stand-ins for the services.
use golagram.Base.{ℕ, ◌*◌, ◌%◌, ◌≡◌, refl, true, [], ◌∷◌, none, some, length, codes}
use golagram.Backoff.{second}
use golagram.WebApp.{UrlValues, data_check_string, WebAppInitData}
use golagram.WebApp.Validators.{Services}

abbrev fields : UrlValues
fields =
    (codes "query_id", codes "AA" ∷ [])
    ∷ (codes "hash", codes "19" ∷ [])
    ∷ (codes "auth_date", codes "100" ∷ [])
    ∷ []

-- Every field but the hash, sorted by key.
check_string : data_check_string fields (codes "hash" ∷ []) ≡ codes "auth_date=100\nquery_id=AA"
unfolding data_check_string
check_string = refl

-- The tag of a text is its length; the clock stands five seconds behind.
abbrev toy : Services ℕ
toy = record {
  parse_query = λ s. some fields;
  hmac_sha256 = λ key text. (length text % 256) ∷ [];
  sha256 = λ s. s;
  ed25519_verify = λ key text sig. true;
  decode_base64_url = λ s. some s;
  unmarshal = λ field s. none;
  since = λ unix. 5 * second;
}

abbrev payload : WebAppInitData ℕ
payload = record {
  query_id = codes "AA";
  user = none;
  receiver = none;
  chat = none;
  chat_type = [];
  chat_instance = [];
  start_param = [];
  can_send_after = 0;
  auth_date = some 100;
  hash = codes "19";
  signature = [];
  raw = fields;
}
