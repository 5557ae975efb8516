-- ===== src/Config/Tests.antt =====
-- Runs of the model of the configuration and the tokens, and their theorems at concrete inputs.
use onedrive_davfs.Base.{
  ℕ, ◌≤◌, ◌≡◌, refl, Option, none, some, List, [], ◌∷◌, ◌++◌, Bytes, bytes_eq, codes, ok, err,
  length, All, All-append, if◌then◌else◌, true,
}
use onedrive_davfs.Base.Effect.{Keeps, pure}
use onedrive_davfs.Host.Config.{capture}
use onedrive_davfs.Http.Message.{split_url}
use onedrive_davfs.Http.Send.{Wire, send}
use onedrive_davfs.Graph.BearerSafe.{IsSafe}
use onedrive_davfs.Graph.Request.{Env}
use onedrive_davfs.Graph.Read
use onedrive_davfs.Graph.Upload
use onedrive_davfs.Graph.Write
use onedrive_davfs.Config.Load.{Config, load, allows_unauthenticated}
use onedrive_davfs.Config.Guarded.{IsGuarded, load-IsGuarded, guest-IsClosed}
use onedrive_davfs.Config.Token.{TokenEnv, bearer_token, urlencode}
use onedrive_davfs.Config.TokenSafe.{authenticated, authenticated-Keeps}

abbrev a_secret : Bytes
a_secret = codes "k9F2mQ7vX1pL4zR8wB3n"

abbrev host_vars : Bytes → Option Bytes
host_vars name = if bytes_eq name (codes "ONEDRIVE_BASIC_AUTH_SECRET") then some a_secret else none

abbrev dirs : List (ℕ × Bytes)
dirs = (3, codes "/state") ∷ []

abbrev loaded : Config ℕ
loaded = record {
  client_id = none;
  tenant_id = codes "common";
  drive_base = codes "me/drive";
  basic_auth_secret = some a_secret;
  state_dir = 3;
  index_enabled = true;
  sync_max_pages = 8;
  sync_budget_ms = 20000;
}

loads : load (capture host_vars) dirs ≡ ok loaded
unfolding load capture
loads = refl

guest-IsClosed_example : (s : Bytes) × (loaded.basic_auth_secret ≡ some s) × (16 ≤ length s)
guest-IsClosed_example = guest-IsClosed host_vars dirs loaded loads

load-IsGuarded_example :
    IsGuarded (allows_unauthenticated (capture host_vars)) loaded.basic_auth_secret
    × (1 ≤ loaded.sync_max_pages)
    × (1 ≤ loaded.sync_budget_ms)
load-IsGuarded_example = load-IsGuarded (capture host_vars) dirs loaded loads

form_text : urlencode (codes "a b/~") ≡ codes "a+b%2F~"
unfolding urlencode
form_text = refl

-- A world that is what was sent. The token of the file has run out.
abbrev logins : TokenEnv (List Wire)
logins = record {
  client_id = some (codes "client");
  tenant_id = codes "common";
  read_file = λ w. ok (some []);
  write_file = λ bytes. pure tt;
  now_secs = λ w. 1000;
  handle = λ m log. (log ++ m ∷ [], ok (record { status = 200; headers = []; body = [] }));
  token_file = λ s.
      ok (record { refresh_token = codes "r"; access_token = some (codes "t"); expires_at = 5 });
  token_text = λ t. ok [];
  token_response =
      λ s. ok (record { new_access = codes "new"; new_refresh = none; expires_in = 3600 });
}

refreshes : (bearer_token logins []).1 ≡ ok (codes "Bearer new")
unfolding bearer_token send split_url
refreshes = refl

abbrev client : Env (List Wire)
client = record {
  drive_base = codes "me/drive";
  bearer = pure (codes "Bearer t");
  handle = logins.handle;
  drive_item = λ s. err (codes "no item");
  item_page = λ s. err (codes "no page");
  delta_page = λ s. err (codes "no page");
  error_code = λ s. none;
  upload_url = λ s. ok (codes "https://x.sharepoint.com/u");
  session_body = codes "{}";
  folder_body = λ name. name;
  move_body = λ name parent. name;
}

abbrev with_tokens : Env (List Wire)
with_tokens = authenticated logins client

logins-Keeps : (m : Wire) → IsSafe m → Keeps (All IsSafe) (logins.handle m)
logins-Keeps m h = record { keep = λ log all. All-append IsSafe log (m ∷ []) all (h, tt) }

write-Keeps : (bytes : Bytes) → Keeps (All IsSafe) (logins.write_file bytes)
write-Keeps bytes = record { keep = λ log all. all }

authenticated-Keeps_example :
    All IsSafe (Read.stat with_tokens (codes "/a") []).0
    × All IsSafe (Read.children with_tokens (codes "/a") []).0
    × All IsSafe (Read.get_content with_tokens (codes "/a") []).0
    × All IsSafe (Upload.put_content with_tokens (codes "/a") (codes "x") []).0
    × All IsSafe (Write.create_folder with_tokens (codes "/a") (codes "/b") []).0
    × All IsSafe (Write.delete with_tokens (codes "/a") []).0
    × All IsSafe (Write.move_or_rename with_tokens (codes "/a") (codes "/b") []).0
    × All IsSafe (Read.delta with_tokens (codes "/a") []).0
authenticated-Keeps_example =
    authenticated-Keeps logins client (All IsSafe) logins-Keeps write-Keeps (codes "/a")
      (codes "/b") (codes "x") [] tt
