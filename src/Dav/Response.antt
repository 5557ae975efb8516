-- ===== src/Dav/Response.antt =====
-- `DavResponse`, `to_entry`, `entry_from_info`, `parent_of`, `lock` and `unlock` of src/dav.rs.
use onedrive_davfs.Base.{
  ℕ, Bool, Option, none, some, List, [], ◌∷◌, ◌++◌, Bytes, codes, take, if◌then◌else◌,
}
use onedrive_davfs.Base.Str.{is_empty, trim_matches, trim_end_matches, rfind_byte}
use onedrive_davfs.Index.Paths.{normalize_path}
use onedrive_davfs.Snapshot.Child.{ChildInfo}
use onedrive_davfs.Xml.Multistatus.{DavEntry, newline}
use onedrive_davfs.Xml.Percent.{pct_encode}
use onedrive_davfs.Graph.Item.{GraphItem}

pub record DavResponse : Type 0 where
  pub status : ℕ
  pub content_type : Bytes
  pub body : Bytes
  pub headers : List (Bytes × Bytes)
  pub content_length : Option ℕ

-- A response without headers of its own.
unfoldable pub respond : ℕ → Bytes → Bytes → Option ℕ → DavResponse
respond status content_type body content_length = record {
  status = status;
  content_type = content_type;
  body = body;
  headers = [];
  content_length = content_length;
}

unfoldable pub xml : ℕ → Bytes → DavResponse
unfolding respond
xml status body = respond status (codes "application/xml; charset=utf-8") body none

unfoldable pub empty : ℕ → DavResponse
unfolding respond
empty status = respond status (codes "text/plain") [] none

unfoldable pub error : ℕ → Bytes → DavResponse
unfolding respond
error status text = respond status (codes "text/plain") text none

unfoldable pub unauthorized : DavResponse
unauthorized = record {
  status = 401;
  content_type = codes "text/plain";
  body = codes "unauthorized";
  headers =
      (codes "www-authenticate", codes "Basic realm=" ++ b'"' ∷ codes "onedrive-davfs" ++ b'"' ∷ [])
      ∷ [];
  content_length = none;
}

unfoldable pub options : DavResponse
options = record {
  status = 200;
  content_type = codes "text/plain";
  body = [];
  headers =
      (codes "allow", codes "OPTIONS, PROPFIND, GET, PUT, MKCOL, DELETE, MOVE, LOCK, UNLOCK")
      ∷ (codes "dav", codes "1, 2")
      ∷ (codes "ms-author-via", codes "DAV")
      ∷ [];
  content_length = none;
}

-- `path.trim_matches('/').is_empty()`.
unfoldable pub is_root_path : Bytes → Bool
unfolding is_empty trim_matches
is_root_path path = is_empty (trim_matches b'/' path)

-- The address of an entry of a directory.
unfoldable pub child_href : Bytes → Bytes → Bytes
unfolding is_root_path trim_end_matches
child_href path name =
    if is_root_path path then b'/' ∷ name else trim_end_matches b'/' path ++ b'/' ∷ name

unfoldable pub to_entry : Bytes → GraphItem → DavEntry
unfolding child_href
to_entry path item = record {
  href = child_href path item.name;
  is_dir = item.is_dir;
  size = item.size;
  last_modified = item.last_modified;
  etag = item.etag;
}

unfoldable pub self_href : Bytes → Bytes
unfolding is_root_path normalize_path
self_href path = if is_root_path path then codes "/" else normalize_path path

unfoldable pub entry_from_info : Bytes → ChildInfo → Bool → DavEntry
unfolding self_href child_href
entry_from_info path info is_self = record {
  href = if is_self then self_href path else child_href path info.name;
  is_dir = info.is_dir;
  size = info.size;
  last_modified = info.mtime;
  etag = info.etag;
}

unfoldable pub prefix_of : Bytes → Option ℕ → Bytes
prefix_of path none = []
prefix_of path (some i) = take i path

unfoldable pub parent_of : Bytes → Bytes
unfolding prefix_of rfind_byte trim_end_matches
parent_of path = prefix_of path (rfind_byte b'/' (trim_end_matches b'/' path))

-- `opaquelocktoken:{token}`.
unfoldable pub lock_token : Bytes → Bytes
unfolding pct_encode
lock_token path = codes "opaquelocktoken:" ++ pct_encode path

-- The lines of the answer's body before the token, between the token and the address, and after it.
abbrev pub lock_head : Bytes
lock_head =
    codes "<?xml version="
    ++ b'"' ∷ codes "1.0"
    ++ b'"' ∷ codes " encoding="
    ++ b'"' ∷ codes "utf-8"
    ++ b'"' ∷ codes "?>"
    ++ newline
    ++ codes "<D:prop xmlns:D="
    ++ b'"' ∷ codes "DAV:"
    ++ b'"' ∷ codes ">"
    ++ newline
    ++ codes "  <D:lockdiscovery>"
    ++ newline
    ++ codes "    <D:activelock>"
    ++ newline
    ++ codes "      <D:locktype><D:write/></D:locktype>"
    ++ newline
    ++ codes "      <D:lockscope><D:exclusive/></D:lockscope>"
    ++ newline
    ++ codes "      <D:depth>0</D:depth>"
    ++ newline
    ++ codes "      <D:owner>onedrive-davfs</D:owner>"
    ++ newline
    ++ codes "      <D:timeout>Second-3600</D:timeout>"
    ++ newline
    ++ codes "      <D:locktoken><D:href>"

abbrev pub lock_middle : Bytes
lock_middle = codes "</D:href></D:locktoken>" ++ newline ++ codes "      <D:lockroot><D:href>"

abbrev pub lock_tail : Bytes
lock_tail =
    codes "</D:href></D:lockroot>"
    ++ newline
    ++ codes "    </D:activelock>"
    ++ newline
    ++ codes "  </D:lockdiscovery>"
    ++ newline
    ++ codes "</D:prop>"

unfoldable pub lock : Bytes → DavResponse
unfolding lock_token pct_encode xml respond
lock path =
    record (xml 200 (lock_head ++ lock_token path ++ lock_middle ++ pct_encode path ++ lock_tail)) {
      headers = (codes "lock-token", codes "<" ++ lock_token path ++ codes ">") ∷ [];
    }

unfoldable pub unlock : Bytes → DavResponse
unfolding empty
unlock path = empty 204
