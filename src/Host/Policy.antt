-- ===== src/Host/Policy.antt =====
-- `OutboundPolicy`, `resolve_public_addr` and the start of `send_restricted_request` of host/src/main.rs.
-- A `Uri` is what the http crate gives of one; the parser of an IP address and the name service are
-- parameters.
use onedrive_davfs.Base.{
  ℕ, Bool, true, false, not, ◌||◌, Option, none, some, List, [], ◌∷◌, map, Bytes, bytes_eq, codes,
  ◌==◌, Result, ok, err, ◌>>=◌, if◌then◌else◌,
}
use onedrive_davfs.Base.Str.{ends_with, ascii_lower, find_byte}
use onedrive_davfs.Host.PublicIp.{IpAddr, is_public_ip}

pub record Authority : Type 0 where
  pub text : Bytes
  pub host : Bytes
  pub port_u16 : Option ℕ

pub record Uri : Type 0 where
  pub scheme : Option Bytes
  pub authority : Option Authority

-- The errors of the wasmtime_wasi_http crate that these functions give.
pub data HttpError : Type 0 where
  http_request_denied : HttpError
  http_request_uri_invalid : HttpError
  destination_ip_prohibited : HttpError
  dns_timeout : HttpError
  destination_not_found : HttpError

pub record ValidatedAuthority : Type 0 where
  pub host : Bytes
  pub port : ℕ

unfoldable pub has_dns_suffix : Bytes → Bytes → Bool
unfolding ends_with bytes_eq
has_dns_suffix host suffix = bytes_eq host suffix || ends_with host (b'.' ∷ suffix)

unfoldable pub is_allowed_host : Bytes → Bool
unfolding has_dns_suffix bytes_eq
is_allowed_host host =
    bytes_eq host (codes "graph.microsoft.com")
    || bytes_eq host (codes "login.microsoftonline.com")
    || has_dns_suffix host (codes "sharepoint.com")
    || has_dns_suffix host (codes "sharepoint-df.com")
    || has_dns_suffix host (codes "microsoftpersonalcontent.com")
    || has_dns_suffix host (codes "1drv.com")

unfoldable pub unwrap_or {ℓ} : {A : Type ℓ} → A → Option A → A
unwrap_or a none = a
unwrap_or a (some b) = b

unfoldable pub has_at : Bytes → Bool
unfolding find_byte
has_at text = elim (find_byte b'@' text) [ none ↦ false | some i ↦ true ]

module _ (is_ip : Bytes → Bool) where
  unfoldable pub validate_authority : Authority → Result HttpError ValidatedAuthority
  unfolding is_allowed_host unwrap_or has_at ascii_lower
  validate_authority authority =
      if has_at authority.text
      then err http_request_denied
      else if is_ip (map ascii_lower authority.host)
      then err destination_ip_prohibited
      else if not (unwrap_or 443 authority.port_u16 == 443)
      then err destination_ip_prohibited
      else if not (is_allowed_host (map ascii_lower authority.host))
      then err http_request_denied
      else ok (record {
        host = map ascii_lower authority.host;
        port = unwrap_or 443 authority.port_u16;
      })

  unfoldable pub or_invalid : Option Authority → Result HttpError ValidatedAuthority
  unfolding validate_authority
  or_invalid none = err http_request_uri_invalid
  or_invalid (some authority) = validate_authority authority

  unfoldable pub validate_uri : Uri → Result HttpError ValidatedAuthority
  unfolding or_invalid unwrap_or bytes_eq
  validate_uri uri =
      if not (bytes_eq (unwrap_or (codes "https") uri.scheme) (codes "https"))
      then err http_request_denied
      else or_invalid uri.authority

pub record SocketAddr : Type 0 where
  pub ip : IpAddr
  pub port : ℕ

-- What `lookup_host` gives within the timeout.
pub data Resolved : Type 0 where
  timed_out : Resolved
  not_found : Resolved
  addrs : List SocketAddr → Resolved

unfoldable pub first_public : List SocketAddr → Result HttpError SocketAddr
unfolding is_public_ip
first_public [] = err destination_ip_prohibited
first_public (addr ∷ rest) = if is_public_ip addr.ip then ok addr else first_public rest

unfoldable pub resolve_public_addr : Resolved → Result HttpError SocketAddr
unfolding first_public
resolve_public_addr timed_out = err dns_timeout
resolve_public_addr not_found = err destination_not_found
resolve_public_addr (addrs found) = first_public found

-- Where the connection goes, and the name that TLS checks.
pub record Connection : Type 0 where
  pub addr : SocketAddr
  pub server_name : Bytes

unfoldable pub connection_of :
    (is_ip : Bytes → Bool) (lookup_host : Bytes → ℕ → Resolved) → Uri → Result HttpError Connection
unfolding validate_uri resolve_public_addr
connection_of is_ip lookup_host uri = do
  validated ← validate_uri is_ip uri
  addr ← resolve_public_addr (lookup_host validated.host validated.port)
  ok (record { addr = addr; server_name = validated.host })
