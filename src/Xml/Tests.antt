-- ===== src/Xml/Tests.antt =====
-- The theorems on src/xml.rs at concrete texts.
use onedrive_davfs.Base.{◌≡◌, ◌≤◌, refl, true, some, Bytes, codes, All, IsByte, arith}
use onedrive_davfs.Base.Utf8.{is_utf8}
use onedrive_davfs.Xml.Percent.{pct_encode, pct_decode}
use onedrive_davfs.Xml.PercentRoundTrip.{IsPathByte, pct_decode-pct_encode, pct_encode-IsPathByte}
use onedrive_davfs.Xml.Escape.{xml_escape}
use onedrive_davfs.Xml.EscapeReads.{IsPlain, Reads, xml_escape-Reads}
use onedrive_davfs.Xml.Date.{civil_from_days, http_date}
use onedrive_davfs.Xml.DateBounds.{civil_bounds, http_date_returns}

-- `/a %`, with a space and a percent sign.
abbrev spaced : Bytes
spaced = codes "/a %"

spaced_bytes : All IsByte spaced
spaced_bytes = (omega arith, (omega arith, (omega arith, (omega arith, tt))))

spaced_utf8 : is_utf8 spaced ≡ true
unfolding is_utf8
spaced_utf8 = refl

pct_decode-pct_encode_example : pct_decode (pct_encode (codes "/a %")) ≡ some (codes "/a %")
pct_decode-pct_encode_example = pct_decode-pct_encode spaced spaced_bytes spaced_utf8

pct_encode-IsPathByte_example : All IsPathByte (pct_encode (codes "/a %"))
pct_encode-IsPathByte_example = pct_encode-IsPathByte spaced spaced_bytes

xml_escape-Reads_example :
    All IsPlain (xml_escape (codes "a<b&c")) × Reads (xml_escape (codes "a<b&c")) (codes "a<b&c")
xml_escape-Reads_example = xml_escape-Reads (codes "a<b&c")

civil_bounds_example :
    (1 ≤ (civil_from_days 20423).month)
    × ((civil_from_days 20423).month ≤ 12)
    × (1 ≤ (civil_from_days 20423).day)
    × ((civil_from_days 20423).day ≤ 31)
civil_bounds_example = civil_bounds 20423

http_date_returns_example : (s : Bytes) × (http_date 1700000000 ≡ some s)
http_date_returns_example = http_date_returns 1700000000
