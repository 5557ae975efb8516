-- ===== src/Config/Guarded.antt =====
-- What src/config.rs accepts as a secret, and what host/src/main.rs lets it see.
use mathlib.Core.Bool.{false≢true}
use onedrive_davfs.Base.{
  ℕ, ◌≤◌, ◌≡◌, refl, subst, Bool, true, false, Bool-cases, Option, none, some, Option-cases, List,
  [], ◌∷◌, Bytes, bytes_eq, codes, length, ltb, ok, ok->>=, ok-injective, inl, inr, arith, All,
}
use onedrive_davfs.Base.Str.{eq_ignore_ascii_case}
use onedrive_davfs.Host.Config.{capture, capture_each, guest_env_names}
use onedrive_davfs.Config.Load.{
  Config, env, value_of, is_placeholder, placeholder_secrets, validate_basic_auth_secret,
  allows_unauthenticated, is_set_to, limit_of, parse_uint, state_dir_of, configured, with_dir, load,
}

-- A secret of at least 16 bytes that is no placeholder in any case, or none by the operator's choice.
abbrev pub IsGuarded : Bool → Option Bytes → Type 0
IsGuarded allow none = allow ≡ true
IsGuarded allow (some s) =
    (16 ≤ length s) × All (λ p. eq_ignore_ascii_case p s ≡ false) placeholder_secrets

no_placeholder :
    (s : Bytes) (ps : List Bytes)
    → is_placeholder s ps ≡ false
    → All (λ p. eq_ignore_ascii_case p s ≡ false) ps
unfolding is_placeholder
no_placeholder s [] h = tt
no_placeholder s (p ∷ ps) h = elim (Bool-cases (eq_ignore_ascii_case p s)) [
  | inl y ↦ absurd (ground (arith, h, y))
  | inr n ↦ (n, no_placeholder s ps (rw n at h))
]

validate-IsGuarded :
    (secret : Option Bytes) (allow : Bool) (o : Option Bytes)
    → validate_basic_auth_secret secret allow ≡ ok o
    → IsGuarded allow o
unfolding validate_basic_auth_secret
validate-IsGuarded none true o h = subst (IsGuarded true) (ok-injective h) refl
validate-IsGuarded none false o h = cc
validate-IsGuarded (some s) allow o h = elim (Bool-cases (ltb (length s) 16)) [
  | inl short ↦ absurd (ground (arith, h, short))
  | inr long ↦ elim (Bool-cases (is_placeholder s placeholder_secrets)) [
    | inl y ↦ absurd (ground (arith, h, long, y))
    | inr n ↦
        let h' = rw (long, n) at h in
        subst (IsGuarded allow) (ok-injective h')
          (ground (arith, long), no_placeholder s placeholder_secrets n)
  ]
]

limit_of_positive :
    (width otherwise : ℕ) (v : Option Bytes) → 1 ≤ otherwise → 1 ≤ limit_of width otherwise v
unfolding limit_of
limit_of_positive width otherwise none h = h
limit_of_positive width otherwise (some s) h = elim (Option-cases (parse_uint width s)) [
  | inl e ↦ rw (e, limit_of) h
  | inr (n, e) ↦ rw (e, limit_of) (omega arith)
]

with_dir-IsGuarded :
    {Dir : Type 0} (vars : List (Bytes × Bytes)) (secret : Option Bytes) (dir : Option Dir)
    (c : Config Dir)
    → IsGuarded (allows_unauthenticated vars) secret
    → with_dir vars secret dir ≡ ok c
    → IsGuarded (allows_unauthenticated vars) c.basic_auth_secret
      × (1 ≤ c.sync_max_pages)
      × (1 ≤ c.sync_budget_ms)
unfolding with_dir configured
with_dir-IsGuarded vars secret none c g h = cc
with_dir-IsGuarded vars secret (some dir) c g h =
    subst
      (λ x.
        IsGuarded (allows_unauthenticated vars) x.basic_auth_secret
        × (1 ≤ x.sync_max_pages)
        × (1 ≤ x.sync_budget_ms))
      (ok-injective h)
      (
        g,
        limit_of_positive 32 8 (env vars (codes "ONEDRIVE_SYNC_MAX_PAGES")) (omega arith),
        limit_of_positive 64 20000 (env vars (codes "ONEDRIVE_SYNC_BUDGET_MS")) (omega arith),
      )

-- A configuration that loads has a secret of at least 16 bytes that is none of the placeholders in upper or
-- lower case, or has none because the environment asks for that, and its limits of pages and of time
-- are not zero.
pub load-IsGuarded :
    {Dir : Type 0} (vars : List (Bytes × Bytes)) (dirs : List (Dir × Bytes)) (c : Config Dir)
    → load vars dirs ≡ ok c
    → IsGuarded (allows_unauthenticated vars) c.basic_auth_secret
      × (1 ≤ c.sync_max_pages)
      × (1 ≤ c.sync_budget_ms)
unfolding load
load-IsGuarded vars dirs c h =
    let given : Option Bytes = env vars (codes "ONEDRIVE_BASIC_AUTH_SECRET") in
    let (secret, rest, first) =
      ok->>= (λ secret. with_dir vars secret (state_dir_of dirs))
        (validate_basic_auth_secret given (allows_unauthenticated vars)) h in
    with_dir-IsGuarded vars secret (state_dir_of dirs) c
      (validate-IsGuarded given (allows_unauthenticated vars) secret first) rest

-- A variable that the host does not name does not reach the guest.
unnamed_absent :
    (var_os : Bytes → Option Bytes) (names : List Bytes) (name : Bytes)
    → All (λ n. bytes_eq n name ≡ false) names
    → env (capture_each var_os names) name ≡ none
unfolding env capture_each value_of
unnamed_absent var_os [] name h = refl
unnamed_absent var_os (n ∷ names) name (ne, h) = elim (Option-cases (var_os n)) [
  | inl e ↦ rw (e, capture_each) (unnamed_absent var_os names name h)
  | inr (v, e) ↦ rw (e, capture_each, ne) (unnamed_absent var_os names name h)
]

captured_closed : (var_os : Bytes → Option Bytes) → allows_unauthenticated (capture var_os) ≡ false
unfolding allows_unauthenticated capture is_set_to bytes_eq
captured_closed var_os =
    rw
      (unnamed_absent var_os guest_env_names (codes "ONEDRIVE_ALLOW_UNAUTHENTICATED")
        (refl, (refl, (refl, (refl, (refl, (refl, (refl, tt))))))))
      refl

-- Whatever the environment of the host, a configuration that loads in its guest has a secret of at least 16
-- bytes: the host does not hand on the variable that would allow none.
pub guest-IsClosed :
    {Dir : Type 0} (var_os : Bytes → Option Bytes) (dirs : List (Dir × Bytes)) (c : Config Dir)
    → load (capture var_os) dirs ≡ ok c
    → (s : Bytes) × (c.basic_auth_secret ≡ some s) × (16 ≤ length s)
guest-IsClosed var_os dirs c h = has_secret c.basic_auth_secret (
    subst (λ b. IsGuarded b c.basic_auth_secret) (captured_closed var_os)
      (load-IsGuarded (capture var_os) dirs c h).0)
  where
    has_secret :
        (o : Option Bytes) → IsGuarded false o → (s : Bytes) × (o ≡ some s) × (16 ≤ length s)
    has_secret none g = absurd (false≢true g)
    has_secret (some s) g = (s, refl, g.0)
