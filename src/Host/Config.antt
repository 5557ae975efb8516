-- ===== src/Host/Config.antt =====
-- `HostConfig::parse` and `GuestEnv::capture` of host/src/main.rs. The arguments are those after the
-- program's name; the parser of an address and the file system's answers are parameters.
use onedrive_davfs.Base.{
  Bool, not, ◌||◌, Option, none, some, List, [], ◌∷◌, ◌++◌, Bytes, bytes_eq, codes, if◌then◌else◌,
}
use onedrive_davfs.Base.Utf8.{from_utf8_lossy}

pub record HostConfig (Addr : Type 0) : Type 0 where
  pub component_path : Bytes
  pub state_dir : Bytes
  pub listen_addr : Addr

-- The local variables of the loop.
pub record Args (Addr : Type 0) : Type 0 where
  pub component : Option Bytes
  pub state : Option Bytes
  pub addr : Addr

-- What the program does with its arguments: it goes on, prints its usage, or fails.
pub data Parsed (A : Type 0) : Type 0 where
  proceeds : A → Parsed A
  usage : Parsed A
  fails : Bytes → Parsed A

unfoldable pub takes_value : Bytes → Bool
unfolding bytes_eq
takes_value arg =
    bytes_eq arg (codes "--component")
    || bytes_eq arg (codes "--state-dir")
    || bytes_eq arg (codes "--addr")

unfoldable pub asks_help : Bytes → Bool
unfolding bytes_eq
asks_help arg = bytes_eq arg (codes "--help") || bytes_eq arg (codes "-h")

module _ {Addr : Type 0} where
  -- An argument that takes no value.
  unfoldable pub lone : Bytes → Parsed (Args Addr)
  unfolding asks_help
  lone arg = if asks_help arg then usage else fails (codes "unrecognized argument: " ++ arg)

  unfoldable pub with_addr : Args Addr → Bytes → Option Addr → Parsed (Args Addr)
  with_addr st value none = fails (codes "invalid --addr value: " ++ value)
  with_addr st value (some a) = proceeds (record st { addr = a })

  -- An argument with its value.
  unfoldable pub set_value : (Bytes → Option Addr) → Args Addr → Bytes → Bytes → Parsed (Args Addr)
  unfolding with_addr bytes_eq
  set_value parse_addr st arg value =
      if bytes_eq arg (codes "--component")
      then proceeds (record st { component = some value })
      else if bytes_eq arg (codes "--state-dir")
      then proceeds (record st { state = some value })
      else with_addr st value (parse_addr value)

  unfoldable pub or_stop :
      Parsed (Args Addr) → (Args Addr → Parsed (Args Addr)) → Parsed (Args Addr)
  or_stop (proceeds st) rest = rest st
  or_stop usage rest = usage
  or_stop (fails e) rest = fails e

  -- The loop over the arguments.
  unfoldable pub parse_args : (Bytes → Option Addr) → Args Addr → List Bytes → Parsed (Args Addr)
  unfolding takes_value lone set_value or_stop
  parse_args parse_addr st [] = proceeds st
  parse_args parse_addr st (arg ∷ []) =
      if takes_value arg then fails (codes "missing value for " ++ arg) else lone arg
  parse_args parse_addr st (arg ∷ value ∷ args) =
      if takes_value arg
      then or_stop (set_value parse_addr st arg value) (λ st'. parse_args parse_addr st' args)
      else lone arg

  unfoldable pub checked :
      (is_file is_dir : Bytes → Bool)
      → Args Addr
      → Option Bytes
      → Option Bytes
      → Parsed (HostConfig Addr)
  checked is_file is_dir st none state = fails (codes "missing required --component")
  checked is_file is_dir st (some component) none = fails (codes "missing required --state-dir")
  checked is_file is_dir st (some component) (some state) =
      if not (is_file component)
      then fails (codes "component does not exist or is not a file: " ++ component)
      else if not (is_dir state)
      then fails (codes "state dir does not exist or is not a directory: " ++ state)
      else proceeds
          (record { component_path = component; state_dir = state; listen_addr = st.addr })

  unfoldable pub config_of :
      (is_file is_dir : Bytes → Bool) → Parsed (Args Addr) → Parsed (HostConfig Addr)
  unfolding checked
  config_of is_file is_dir usage = usage
  config_of is_file is_dir (fails e) = fails e
  config_of is_file is_dir (proceeds st) = checked is_file is_dir st st.component st.state

  unfoldable pub parse :
      (Bytes → Option Addr)
      → (is_file is_dir : Bytes → Bool) → Addr
      → List Bytes
      → Parsed (HostConfig Addr)
  unfolding parse_args config_of
  parse parse_addr is_file is_dir default_addr args =
      config_of is_file is_dir (
        parse_args parse_addr (record { component = none; state = none; addr = default_addr }) args)

abbrev pub guest_env_names : List Bytes
guest_env_names =
    codes "ONEDRIVE_CLIENT_ID"
    ∷ codes "ONEDRIVE_TENANT_ID"
    ∷ codes "ONEDRIVE_DRIVE_BASE"
    ∷ codes "ONEDRIVE_BASIC_AUTH_SECRET"
    ∷ codes "ONEDRIVE_INDEX_ENABLED"
    ∷ codes "ONEDRIVE_SYNC_MAX_PAGES"
    ∷ codes "ONEDRIVE_SYNC_BUDGET_MS"
    ∷ []

unfoldable pub capture_each : (Bytes → Option Bytes) → List Bytes → List (Bytes × Bytes)
unfolding from_utf8_lossy
capture_each var_os [] = []
capture_each var_os (name ∷ names) =
    let rest = capture_each var_os names in
    elim (var_os name) [ none ↦ rest | some value ↦ (name, from_utf8_lossy value) ∷ rest ]

unfoldable pub capture : (Bytes → Option Bytes) → List (Bytes × Bytes)
unfolding capture_each
capture var_os = capture_each var_os guest_env_names
