-- ===== src/Http/Message.antt =====
-- `HttpRequest`, `HttpResponse`, `header_value` and `split_url` of src/http_client.rs.
use onedrive_davfs.Base.{
  ℕ, Option, none, some, List, ◌++◌, Bytes, codes, Result, ok, err, find, take, drop,
}
use onedrive_davfs.Base.Str.{strip_prefix, find_byte, eq_ignore_ascii_case}
use onedrive_davfs.Base.Utf8.{from_utf8_lossy}

-- The methods of wasi:http that the guest sends.
pub data Method : Type 0 where
  get : Method
  put : Method
  post : Method
  patch : Method
  delete : Method

pub record HttpRequest : Type 0 where
  pub method : Method
  pub url : Bytes
  pub headers : List (Bytes × Bytes)
  pub body : Bytes

pub record HttpResponse : Type 0 where
  pub status : ℕ
  pub headers : List (Bytes × Bytes)
  pub body : Bytes

unfoldable pub value_text : Option (Bytes × Bytes) → Option Bytes
unfolding from_utf8_lossy
value_text none = none
value_text (some (name, value)) = some (from_utf8_lossy value)

unfoldable pub header_value : HttpResponse → Bytes → Option Bytes
unfolding value_text eq_ignore_ascii_case
header_value response name = value_text (find (λ h. eq_ignore_ascii_case h.0 name) response.headers)

unfoldable pub split_at : Bytes → Option ℕ → Bytes × Bytes
split_at rest none = (rest, codes "/")
split_at rest (some i) = (take i rest, drop i rest)

unfoldable pub split_url : Bytes → Result Bytes (Bytes × Bytes)
unfolding split_at find_byte strip_prefix
split_url url = elim (strip_prefix url (codes "https://")) [
  | none ↦ err (codes "only https:// URLs are supported, got: " ++ url)
  | some rest ↦ ok (split_at rest (find_byte b'/' rest))
]
