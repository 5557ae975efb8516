-- ===== src/Config/Load.antt =====
-- `Config::load` and `validate_basic_auth_secret` of src/config.rs. The environment and the preopened
-- directories are lists, as the host gives them. A `usize` of the guest has 32 bits.
use onedrive_davfs.Base.{
  ℕ, ◌^◌, max, Bool, false, not, ◌&&◌, ◌||◌, Option, none, some, List, [], ◌∷◌, ◌++◌, Bytes,
  bytes_eq, codes, ltb, every, find, length, Result, ok, err, ◌>>=◌, if◌then◌else◌,
}
use onedrive_davfs.Base.Str.{is_empty, eq_ignore_ascii_case}
use onedrive_davfs.Base.Decimal.{value}
use onedrive_davfs.Guest.Destination.{is_ascii_digit}

pub record Config (Dir : Type 0) : Type 0 where
  pub client_id : Option Bytes
  pub tenant_id : Bytes
  pub drive_base : Bytes
  pub basic_auth_secret : Option Bytes
  pub state_dir : Dir
  pub index_enabled : Bool
  pub sync_max_pages : ℕ
  pub sync_budget_ms : ℕ

unfoldable pub value_of : Option (Bytes × Bytes) → Option Bytes
value_of none = none
value_of (some (k, v)) = some v

unfoldable pub env : List (Bytes × Bytes) → Bytes → Option Bytes
unfolding value_of bytes_eq
env vars name = value_of (find (λ (k, v). bytes_eq k name) vars)

abbrev pub min_basic_auth_secret_len : ℕ
min_basic_auth_secret_len = 16

abbrev pub placeholder_secrets : List Bytes
placeholder_secrets = codes "REPLACE_ME" ∷ codes "changeme" ∷ codes "secret" ∷ codes "password" ∷ []

unfoldable pub is_placeholder : Bytes → List Bytes → Bool
unfolding eq_ignore_ascii_case
is_placeholder s [] = false
is_placeholder s (p ∷ ps) = eq_ignore_ascii_case p s || is_placeholder s ps

unfoldable pub validate_basic_auth_secret : Option Bytes → Bool → Result Bytes (Option Bytes)
unfolding is_placeholder
validate_basic_auth_secret none allow =
    if allow
    then ok none
    else err (
        codes "ONEDRIVE_BASIC_AUTH_SECRET is not set; refusing to serve unauthenticated. "
        ++ codes "Set a secret (>= 16 chars) or ONEDRIVE_ALLOW_UNAUTHENTICATED=1 for local dev")
validate_basic_auth_secret (some s) allow =
    if ltb (length s) min_basic_auth_secret_len
    then err (codes "ONEDRIVE_BASIC_AUTH_SECRET is too short (need at least 16 characters)")
    else if is_placeholder s placeholder_secrets
    then err (
        codes "ONEDRIVE_BASIC_AUTH_SECRET is a placeholder value; generate a real secret "
        ++ codes "(e.g. `openssl rand -base64 32`)")
    else ok (some s)

unfoldable pub or_else_value : Bytes → Option Bytes → Bytes
or_else_value otherwise none = otherwise
or_else_value otherwise (some s) = s

-- Whether a variable has one of some values.
unfoldable pub is_set_to : Option Bytes → Bytes → Bool
unfolding bytes_eq
is_set_to none text = false
is_set_to (some s) text = bytes_eq s text

unfoldable pub is_enabled : Option Bytes → Bool
unfolding is_set_to
is_enabled v =
    not (is_set_to v (codes "0") || is_set_to v (codes "false") || is_set_to v (codes "FALSE"))

unfoldable pub unsigned : Bytes → Bytes
unsigned [] = []
unsigned (c ∷ s) = if bytes_eq (c ∷ []) (codes "+") then s else c ∷ s

-- `s.parse().ok()` into an unsigned number of `width` bits: digits, after a plus sign or none.
unfoldable pub parse_digits : ℕ → Bytes → Option ℕ
unfolding is_ascii_digit is_empty
parse_digits width s =
    if not (is_empty s) && every is_ascii_digit s && ltb (value s) (2 ^ width)
    then some (value s)
    else none

unfoldable pub parse_uint : ℕ → Bytes → Option ℕ
unfolding parse_digits unsigned
parse_uint width s = parse_digits width (unsigned s)

unfoldable pub limit_of : ℕ → ℕ → Option Bytes → ℕ
unfolding parse_uint
limit_of width otherwise none = otherwise
limit_of width otherwise (some s) = elim (parse_uint width s) [
  | none ↦ otherwise
  | some n ↦ max n 1
]

unfoldable pub state_dir_of : {Dir : Type 0} → List (Dir × Bytes) → Option Dir
unfolding bytes_eq
state_dir_of [] = none
state_dir_of ((dir, path) ∷ dirs) =
    let rest = state_dir_of dirs in if bytes_eq path (codes "/state") then some dir else rest

unfoldable pub allows_unauthenticated : List (Bytes × Bytes) → Bool
unfolding env is_set_to
allows_unauthenticated vars =
    is_set_to (env vars (codes "ONEDRIVE_ALLOW_UNAUTHENTICATED")) (codes "1")

unfoldable pub configured : {Dir : Type 0} → List (Bytes × Bytes) → Option Bytes → Dir → Config Dir
unfolding env is_enabled limit_of or_else_value
configured vars secret dir = record {
  client_id = env vars (codes "ONEDRIVE_CLIENT_ID");
  tenant_id = or_else_value (codes "common") (env vars (codes "ONEDRIVE_TENANT_ID"));
  drive_base = or_else_value (codes "me/drive") (env vars (codes "ONEDRIVE_DRIVE_BASE"));
  basic_auth_secret = secret;
  state_dir = dir;
  index_enabled = is_enabled (env vars (codes "ONEDRIVE_INDEX_ENABLED"));
  sync_max_pages = limit_of 32 8 (env vars (codes "ONEDRIVE_SYNC_MAX_PAGES"));
  sync_budget_ms = limit_of 64 20000 (env vars (codes "ONEDRIVE_SYNC_BUDGET_MS"));
}

unfoldable pub with_dir :
    {Dir : Type 0} → List (Bytes × Bytes) → Option Bytes → Option Dir → Result Bytes (Config Dir)
unfolding configured
with_dir vars secret none =
    err (codes "no /state preopen found; run wasmtime with --dir <state-dir>::/state")
with_dir vars secret (some dir) = ok (configured vars secret dir)

unfoldable pub load :
    {Dir : Type 0} → List (Bytes × Bytes) → List (Dir × Bytes) → Result Bytes (Config Dir)
unfolding env validate_basic_auth_secret allows_unauthenticated state_dir_of with_dir
load vars dirs = do
  secret ←
      validate_basic_auth_secret (env vars (codes "ONEDRIVE_BASIC_AUTH_SECRET"))
        (allows_unauthenticated vars)
  with_dir vars secret (state_dir_of dirs)
