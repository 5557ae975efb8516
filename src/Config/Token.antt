-- ===== src/Config/Token.antt =====
-- src/auth.rs: `load`, `save`, `refresh`, `bearer_token` and `urlencode`. The state directory, the clock
-- and `serde_json` are parameters.
use onedrive_davfs.Base.{
  ℕ, ◌+◌, ◌-◌, ◌%◌, ◌^◌, ◌/◌, not, ◌||◌, Option, none, some, [], ◌∷◌, ◌++◌, Bytes, codes, ltb, ◌==◌,
  Result, ok, err, ok_or, if◌then◌else◌,
}
use onedrive_davfs.Base.Effect.{Op, lift, ◌>>=◌}
use onedrive_davfs.Http.Message.{Method, HttpRequest, HttpResponse}
use onedrive_davfs.Http.Send.{Wire, send}
use onedrive_davfs.Graph.Request.{plain, status_error, parsed}
use onedrive_davfs.Xml.Percent.{is_alnum, hex_digit}

pub record TokenFile : Type 0 where
  pub refresh_token : Bytes
  pub access_token : Option Bytes
  pub expires_at : ℕ

pub record TokenResponse : Type 0 where
  pub new_access : Bytes
  pub new_refresh : Option Bytes
  pub expires_in : ℕ

-- `client_id` and `tenant_id` of the configuration, `state_file::read_file` and `state_file::write_file` of
-- the token file, the clock, the host's wasi:http, and `serde_json`.
pub record TokenEnv (W : Type 0) : Type 0 where
  pub client_id : Option Bytes
  pub tenant_id : Bytes
  pub read_file : W → Result Bytes (Option Bytes)
  pub write_file : Bytes → Op W (Unit {0})
  pub now_secs : W → ℕ
  pub handle : Wire → Op W HttpResponse
  pub token_file : Bytes → Result Bytes TokenFile
  pub token_text : TokenFile → Result Bytes Bytes
  pub token_response : Bytes → Result Bytes TokenResponse

unfoldable pub form_byte : ℕ → Bytes
unfolding is_alnum hex_digit
form_byte b =
    if is_alnum b || b == b'-' || b == b'_' || b == b'.' || b == b'~'
    then b ∷ []
    else if b == b' '
    then b'+' ∷ []
    else b'%' ∷ hex_digit (b / 16) ∷ hex_digit (b % 16) ∷ []

unfoldable pub urlencode : Bytes → Bytes
unfolding form_byte
urlencode [] = []
urlencode (b ∷ s) = form_byte b ++ urlencode s

unfoldable pub token_url : Bytes → Bytes
token_url tenant_id =
    codes "https://login.microsoftonline.com/" ++ tenant_id ++ codes "/oauth2/v2.0/token"

unfoldable pub refresh_form : Bytes → Bytes → Bytes
unfolding urlencode
refresh_form client_id refresh_token =
    codes "client_id="
    ++ urlencode client_id
    ++ codes "&grant_type=refresh_token&refresh_token="
    ++ urlencode refresh_token
    ++ codes "&scope="
    ++ urlencode (codes "offline_access Files.ReadWrite.All User.Read")

abbrev pub expiry_safety_margin_secs : ℕ
expiry_safety_margin_secs = 60

unfoldable pub or_same : Bytes → Option Bytes → Bytes
or_same old none = old
or_same old (some s) = s

-- The sum of two `u64` wraps.
unfoldable pub refreshed : Bytes → ℕ → TokenResponse → TokenFile
unfolding or_same
refreshed old now r = record {
  refresh_token = or_same old r.new_refresh;
  access_token = some r.new_access;
  expires_at = (now + (r.expires_in - expiry_safety_margin_secs)) % 2 ^ 64;
}

unfoldable pub bearer_text : Bytes → Bytes
bearer_text access = codes "Bearer " ++ access

module _ {W : Type 0} (auth : TokenEnv W) where
  unfoldable pub parsed_file : Option Bytes → Result Bytes TokenFile
  unfolding parsed
  parsed_file none =
      err (codes "no token.json found in state dir; run tools/device-code-login.sh first")
  parsed_file (some bytes) = parsed (codes "failed to parse token.json") (auth.token_file bytes)

  unfoldable pub load : Op W TokenFile
  unfolding parsed_file
  load w = (lift (auth.read_file w) >>= (λ bytes. lift (parsed_file bytes))) w

  unfoldable pub save : TokenFile → Op W (Unit {0})
  unfolding parsed
  save token = do
    bytes ← lift (parsed (codes "failed to serialize token.json") (auth.token_text token))
    auth.write_file bytes

  unfoldable pub refresh_reply : HttpResponse → Result Bytes TokenResponse
  unfolding status_error parsed
  refresh_reply response =
      if not (response.status == 200)
      then err (status_error (codes "token refresh") response)
      else parsed (codes "failed to parse token response") (auth.token_response response.body)

  unfoldable pub refresh_request : Bytes → Bytes → HttpRequest
  unfolding token_url refresh_form plain
  refresh_request client_id refresh_token =
      plain Method.post (token_url auth.tenant_id)
        ((codes "content-type", codes "application/x-www-form-urlencoded") ∷ [])
        (refresh_form client_id refresh_token)

  unfoldable pub renew : Bytes → TokenResponse → Op W TokenFile
  unfolding refreshed
  renew old r w = (w, ok (refreshed old (auth.now_secs w) r))

  unfoldable pub refresh : Bytes → Op W TokenFile
  unfolding refresh_reply refresh_request renew
  refresh refresh_token = do
    client_id ← lift (
        ok_or (codes "missing required env var ONEDRIVE_CLIENT_ID for token refresh")
          auth.client_id)
    response ← send auth.handle (refresh_request client_id refresh_token)
    r ← lift (refresh_reply response)
    renew refresh_token r

  -- A token from `refresh` has an access token.
  unfoldable pub bearer_of : TokenFile → Op W Bytes
  unfolding bearer_text
  bearer_of token = lift (elim token.access_token [
    | none ↦ err (codes "access_token set by refresh() above")
    | some access ↦ ok (bearer_text access)
  ])

  unfoldable pub renewed : Bytes → Op W Bytes
  unfolding refresh save bearer_of
  renewed refresh_token = do token ← refresh refresh_token; _ ← save token; bearer_of token

  -- An access token that has not run out is used as it is.
  unfoldable pub use_token : TokenFile → Option Bytes → Op W Bytes
  unfolding renewed bearer_text
  use_token token none w = renewed token.refresh_token w
  use_token token (some access) w =
      if ltb (auth.now_secs w) token.expires_at
      then (w, ok (bearer_text access))
      else renewed token.refresh_token w

  unfoldable pub bearer_token : Op W Bytes
  unfolding load use_token
  bearer_token = do token ← load; use_token token token.access_token
