-- ===== src/Guest/Destination.antt =====
-- `destination_path` and `is_loopback_hostport` of src/lib.rs.
use onedrive_davfs.Base.{
  ℕ, suc, Bool, not, ◌&&◌, ◌||◌, Option, none, some, [], ◌∷◌, Bytes, codes, bytes_eq, leb, every,
  take, drop, Result, ok, err, if◌then◌else◌,
}
use onedrive_davfs.Base.Str.{strip_prefix, split_once, find_byte, rfind_byte, trim, is_empty}
use onedrive_davfs.Index.Paths.{slash}

unfoldable pub is_ascii_digit : ℕ → Bool
is_ascii_digit b = leb b'0' b && leb b b'9'

unfoldable pub first_part : Bytes → Bytes
unfolding split_once
first_part s = elim (split_once b']' s) [ none ↦ s | some (before, after) ↦ before ]

-- A port is dropped; a colon with no number behind it belongs to the host.
unfoldable pub without_port : Bytes → Option ℕ → Bytes
unfolding is_ascii_digit is_empty
without_port hostport none = hostport
without_port hostport (some i) =
    let port = drop (suc i) hostport in
    if not (is_empty port) && every is_ascii_digit port then take i hostport else hostport

unfoldable pub host_of : Bytes → Bytes
unfolding first_part without_port strip_prefix rfind_byte
host_of hostport = elim (strip_prefix hostport (codes "[")) [
  | some rest ↦ first_part rest
  | none ↦ without_port hostport (rfind_byte b':' hostport)
]

unfoldable pub is_loopback_host : Bytes → Bool
unfolding bytes_eq
is_loopback_host host =
    bytes_eq host (codes "127.0.0.1")
    || bytes_eq host (codes "localhost")
    || bytes_eq host (codes "localhost.localdomain")
    || bytes_eq host (codes "::1")

unfoldable pub is_loopback_hostport : Bytes → Bool
unfolding is_loopback_host host_of
is_loopback_hostport hostport = is_loopback_host (host_of hostport)

-- What stands behind the first `://`.
unfoldable pub after_scheme : Bytes → Option Bytes
unfolding strip_prefix
after_scheme [] = none
after_scheme (c ∷ s) =
    let rest = after_scheme s in
    elim (strip_prefix (c ∷ s) (codes "://")) [ some r ↦ some r | none ↦ rest ]

unfoldable pub split_path : Bytes → Option ℕ → Bytes × Bytes
split_path rest none = (rest, codes "/")
split_path rest (some i) = (take i rest, drop i rest)

unfoldable pub loopback_path : Bytes → Result Bytes Bytes
unfolding split_path find_byte is_loopback_hostport
loopback_path rest =
    let (hostport, path) = split_path rest (find_byte slash rest) in
    if not (is_loopback_hostport hostport)
    then err (codes "Destination host must be loopback")
    else ok path

-- `contains("://")` and `split_once("://")` are both `after_scheme`, so the error that the source has
-- for a `split_once` that fails does not occur.
unfoldable pub destination_path : Bytes → Result Bytes Bytes
unfolding after_scheme loopback_path trim
destination_path raw = elim (after_scheme (trim raw)) [
  | none ↦ ok (trim raw)
  | some rest ↦ loopback_path rest
]
