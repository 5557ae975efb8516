-- ===== src/Guest/Route.antt =====
-- `handle_request` of src/lib.rs: which handler answers a request, and with what. The request is what the
-- host's `IncomingRequest` gives: `header` is `header_value` on its headers.
use onedrive_davfs.Base.{
  ℕ, Bool, true, false, not, ◌||◌, Option, none, some, List, [], Bytes, codes, bytes_eq, Result, ok,
  err, ◌>>=◌, if◌then◌else◌,
}
use onedrive_davfs.Base.Str.{split_once}
use onedrive_davfs.Guest.Body.{BodyError, too_large, Event, read_request_body}
use onedrive_davfs.Guest.Auth.{check_basic_auth}
use onedrive_davfs.Guest.Path.{sanitize_path}
use onedrive_davfs.Guest.Destination.{destination_path}

pub data Method : Type 0 where
  get_method : Method
  head_method : Method
  post_method : Method
  put_method : Method
  delete_method : Method
  options_method : Method
  -- `CONNECT`, `TRACE` and `PATCH`, by the name that `{:?}` prints.
  unused_method : Bytes → Method
  other_method : Bytes → Method

pub record Request : Type 0 where
  pub method : Method
  pub path_with_query : Option Bytes
  pub header : Bytes → Option Bytes
  pub body : List Event

-- The handler that is called, with its arguments, or the answer that is given at once.
pub data Answer : Type 0 where
  config_error : Bytes → Answer
  unauthorized : Answer
  sync_run : Answer
  api_status : Answer
  api_tree : Option Bytes → Answer
  api_search : Option Bytes → Answer
  bad_path : Bytes → Answer
  bad_destination : Bytes → Answer
  options : Answer
  head : Bytes → Answer
  get : Bytes → Answer
  put : Bytes → Bytes → Answer
  body_too_large : Answer
  body_error : Bytes → Answer
  body_waits : Answer
  delete : Bytes → Answer
  propfind : Bytes → Option Bytes → Answer
  mkcol : Bytes → Answer
  move : Bytes → Bytes → Answer
  missing_destination : Answer
  lock : Bytes → Answer
  unlock : Bytes → Answer
  unsupported : Bytes → Answer

unfoldable pub header_is_one : Option Bytes → Bool
unfolding bytes_eq
header_is_one none = false
header_is_one (some v) = bytes_eq v (codes "1")

unfoldable pub split_query : Option Bytes → Bytes × Option Bytes
unfolding split_once
split_query none = ([], none)
split_query (some full) = elim (split_once b'?' full) [
  | none ↦ (full, none)
  | some (p, q) ↦ (p, some q)
]

-- The three paths of the plugin's interface.
unfoldable pub plugin_answer : Bytes → Option Bytes → Option Answer
unfolding bytes_eq
plugin_answer path query =
    if bytes_eq path (codes "/_status") || bytes_eq path (codes "_status")
    then some api_status
    else if bytes_eq path (codes "/_tree") || bytes_eq path (codes "_tree")
    then some (api_tree query)
    else if bytes_eq path (codes "/_search") || bytes_eq path (codes "_search")
    then some (api_search query)
    else none

unfoldable pub destination_of : Option Bytes → Result Bytes (Option Bytes)
destination_of none = ok none
destination_of (some d) = do path ← destination_path d; clean ← sanitize_path path; ok (some clean)

unfoldable pub put_answer : Bytes → Option (Result BodyError Bytes) → Answer
put_answer path none = body_waits
put_answer path (some (ok body)) = put path body
put_answer path (some (err too_large)) = body_too_large
put_answer path (some (err (BodyError.read e))) = body_error e

unfoldable pub move_answer : Bytes → Option Bytes → Answer
move_answer path none = missing_destination
move_answer path (some dest) = move path dest

unfoldable pub other_answer : Bytes → Bytes → Option Bytes → Option Bytes → Answer
unfolding bytes_eq move_answer
other_answer m path depth destination =
    if bytes_eq m (codes "PROPFIND")
    then propfind path depth
    else if bytes_eq m (codes "MKCOL")
    then mkcol path
    else if bytes_eq m (codes "MOVE")
    then move_answer path destination
    else if bytes_eq m (codes "LOCK")
    then lock path
    else if bytes_eq m (codes "UNLOCK")
    then unlock path
    else unsupported m

-- The last `match`.
unfoldable pub dispatch : ℕ → List Event → Option Bytes → Bytes → Option Bytes → Method → Answer
unfolding put_answer other_answer
dispatch max_upload body depth path destination options_method = options
dispatch max_upload body depth path destination head_method = head path
dispatch max_upload body depth path destination get_method = get path
dispatch max_upload body depth path destination put_method =
    put_answer path (read_request_body max_upload body)
dispatch max_upload body depth path destination delete_method = delete path
dispatch max_upload body depth path destination (other_method m) =
    other_answer m path depth destination
dispatch max_upload body depth path destination post_method = unsupported (codes "Method::Post")
dispatch max_upload body depth path destination (unused_method m) = unsupported m

unfoldable pub with_destination : ℕ → Request → Bytes → Result Bytes (Option Bytes) → Answer
unfolding dispatch
with_destination max_upload request path (err e) = bad_destination e
with_destination max_upload request path (ok destination) =
    dispatch max_upload request.body (request.header (codes "depth")) path destination
      request.method

unfoldable pub with_path : ℕ → Request → Result Bytes Bytes → Answer
unfolding with_destination destination_of
with_path max_upload request (err e) = bad_path e
with_path max_upload request (ok path) =
    with_destination max_upload request path (destination_of (request.header (codes "destination")))

-- A WebDAV request, once it is not for the plugin's interface.
unfoldable pub or_dav : Option Answer → Answer → Answer
or_dav (some a) dav = a
or_dav none dav = dav

unfoldable pub plugin_of : Method → Bool → Bytes → Option Bytes → Option Answer
unfolding plugin_answer
plugin_of get_method true path query = plugin_answer path query
plugin_of method asked path query = none

unfoldable pub post_answer : Bool → Answer
post_answer asked = if asked then sync_run else unsupported (codes "POST")

unfoldable pub unless_post : Method → Answer → Answer → Answer
unless_post post_method post dav = post
unless_post method post dav = dav

unfoldable pub route : ℕ → Request → Bytes × Option Bytes → Answer
unfolding or_dav plugin_of header_is_one with_path post_answer unless_post
route max_upload request (raw_path, query) =
    unless_post request.method
      (post_answer (header_is_one (request.header (codes "x-onedrive-sync"))))
      (or_dav
        (plugin_of request.method (header_is_one (request.header (codes "x-onedrive-plugin")))
          raw_path query)
        (with_path max_upload request (sanitize_path raw_path)))

-- `config` is what `Config::load` gives: the password, if one is set.
unfoldable pub handle_request : ℕ → Result Bytes (Option Bytes) → Request → Answer
unfolding route split_query
handle_request max_upload (err e) request = config_error e
handle_request max_upload (ok secret) request =
    if not (check_basic_auth secret (request.header (codes "authorization")))
    then unauthorized
    else route max_upload request (split_query request.path_with_query)
