-- ===== src/Xml/Escape.antt =====
-- `xml_escape` and `quoted_etag_xml` of src/xml.rs. The characters that are escaped are ASCII, so the
-- loop over characters is one over bytes.
use onedrive_davfs.Base.{ℕ, Option, none, some, [], ◌∷◌, ◌++◌, Bytes, codes, ◌==◌, if◌then◌else◌}
use onedrive_davfs.Base.Str.{strip_prefix, trim}
use mathlib.Core.List.{reverse}

unfoldable pub escape_char : ℕ → Bytes
escape_char c =
    if c == b'&'
    then codes "&amp;"
    else if c == b'<'
    then codes "&lt;"
    else if c == b'>'
    then codes "&gt;"
    else if c == b'"'
    then codes "&quot;"
    else if c == 39
    then codes "&apos;"
    else c ∷ []

unfoldable pub xml_escape : Bytes → Bytes
unfolding escape_char
xml_escape [] = []
xml_escape (c ∷ s) = escape_char c ++ xml_escape s

-- `s.strip_suffix(p)`.
unfoldable pub strip_suffix : Bytes → Bytes → Option Bytes
unfolding strip_prefix
strip_suffix s p = elim (strip_prefix (reverse s) (reverse p)) [
  | none ↦ none
  | some r ↦ some (reverse r)
]

abbrev pub quote : Bytes
quote = b'"' ∷ []

unfoldable pub unquoted : Bytes → Bytes
unfolding strip_suffix strip_prefix
unquoted inner = elim (strip_prefix inner quote) [
  | none ↦ inner
  | some s ↦ elim (strip_suffix s quote) [ none ↦ inner | some t ↦ t ]
]

unfoldable pub quoted_etag_xml : Bytes → Bytes
unfolding unquoted trim xml_escape
quoted_etag_xml etag = codes "&quot;" ++ xml_escape (unquoted (trim etag)) ++ codes "&quot;"
