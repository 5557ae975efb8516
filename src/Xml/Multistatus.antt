-- ===== src/Xml/Multistatus.antt =====
-- `DavEntry`, `response_xml` and `multistatus` of src/xml.rs. The texts are the source's raw strings,
-- with a line feed as the byte 10.
use onedrive_davfs.Base.{
  ℕ, Bool, Option, none, some, List, [], ◌∷◌, ◌++◌, Bytes, codes, not, ◌&&◌, if◌then◌else◌,
}
use onedrive_davfs.Base.Str.{join, ends_with}
use onedrive_davfs.Base.Decimal.{decimal}
use onedrive_davfs.Xml.Percent.{pct_encode}
use onedrive_davfs.Xml.Escape.{quoted_etag_xml}
use onedrive_davfs.Xml.Date.{http_date}

pub record DavEntry : Type 0 where
  pub href : Bytes
  pub is_dir : Bool
  pub size : ℕ
  pub last_modified : ℕ
  pub etag : Bytes

abbrev pub newline : Bytes
newline = 10 ∷ []

-- `http_date` always returns (Xml/DateBounds).
unfoldable pub date_text : Option Bytes → Bytes
date_text none = []
date_text (some s) = s

unfoldable pub entry_href : DavEntry → Bytes
unfolding pct_encode ends_with
entry_href entry =
    let href = pct_encode entry.href in
    if entry.is_dir && not (ends_with href (codes "/")) then href ++ codes "/" else href

unfoldable pub content_length : DavEntry → Bytes
unfolding decimal
content_length entry =
    if entry.is_dir
    then []
    else codes "<D:getcontentlength>" ++ decimal entry.size ++ codes "</D:getcontentlength>"

unfoldable pub response_xml : DavEntry → Bytes
unfolding entry_href content_length date_text http_date quoted_etag_xml
response_xml entry =
    codes "<D:response>"
    ++ newline
    ++ codes "  <D:href>"
    ++ entry_href entry
    ++ codes "</D:href>"
    ++ newline
    ++ codes "  <D:propstat>"
    ++ newline
    ++ codes "    <D:prop>"
    ++ newline
    ++ codes "      <D:resourcetype>"
    ++ (if entry.is_dir then codes "<D:collection/>" else [])
    ++ codes "</D:resourcetype>"
    ++ newline
    ++ codes "      <D:getlastmodified>"
    ++ date_text (http_date entry.last_modified)
    ++ codes "</D:getlastmodified>"
    ++ newline
    ++ codes "      <D:getetag>"
    ++ quoted_etag_xml entry.etag
    ++ codes "</D:getetag>"
    ++ newline
    ++ codes "      "
    ++ content_length entry
    ++ newline
    ++ codes "    </D:prop>"
    ++ newline
    ++ codes "    <D:status>HTTP/1.1 200 OK</D:status>"
    ++ newline
    ++ codes "  </D:propstat>"
    ++ newline
    ++ codes "</D:response>"

unfoldable pub responses : List DavEntry → List Bytes
unfolding response_xml
responses [] = []
responses (entry ∷ entries) = response_xml entry ∷ responses entries

unfoldable pub multistatus : List DavEntry → Bytes
unfolding responses join
multistatus entries =
    codes "<?xml version=\"1.0\" encoding=\"utf-8\"?>"
    ++ newline
    ++ codes "<D:multistatus xmlns:D=\"DAV:\">"
    ++ newline
    ++ join 10 (responses entries)
    ++ newline
    ++ codes "</D:multistatus>"
