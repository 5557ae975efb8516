-- ===== src/Guest/RouteSafe.antt =====
-- The paths that `handle_request` (src/lib.rs) hands to a handler, and the requests that reach none.
use mathlib.Core.Option.{some-injective}
use onedrive_davfs.Base.{
  bytes_eq, ◌∙◌, ◌||◌, ap, ℕ, ◌≡◌, refl, Bool, true, false, Option, none, some, Bool-cases, List,
  [], ◌∷◌, Bytes, codes, Result, ok, err, ok->>=, ok-injective, All, inl, inr, arith, subst,
  if◌then◌else◌,
}
use onedrive_davfs.Index.Paths.{render}
use onedrive_davfs.Guest.Body.{BodyError, too_large, Event, read_request_body}
use onedrive_davfs.Guest.Auth.{check_basic_auth}
use onedrive_davfs.Guest.Path.{sanitize_path}
use onedrive_davfs.Guest.PathClean.{IsClean, sanitize_path-IsClean}
use onedrive_davfs.Guest.Destination.{destination_path}
use onedrive_davfs.Guest.Route

abbrev pub IsSafePath : Bytes → Type 0
IsSafePath p = (segs : List Bytes) × (p ≡ render segs) × All IsClean segs

-- The paths in a handler's arguments.
unfoldable pub handed : Route.Answer → List Bytes
handed (Route.head p) = p ∷ []
handed (Route.get p) = p ∷ []
handed (Route.put p body) = p ∷ []
handed (Route.delete p) = p ∷ []
handed (Route.propfind p depth) = p ∷ []
handed (Route.mkcol p) = p ∷ []
handed (Route.move p dest) = p ∷ dest ∷ []
handed (Route.lock p) = p ∷ []
handed (Route.unlock p) = p ∷ []
handed _ = []

abbrev pub IsSafeAnswer : Route.Answer → Type 0
IsSafeAnswer a = All IsSafePath (handed a)

sanitize_path-IsSafePath : (raw p : Bytes) → sanitize_path raw ≡ ok p → IsSafePath p
sanitize_path-IsSafePath raw p e =
    let (segs, same, clean, _, _) = sanitize_path-IsClean raw p e in (segs, same, clean)

move_answer-IsSafeAnswer :
    (path : Bytes) (dest : Option Bytes)
    → IsSafePath path
    → ((d : Bytes) → dest ≡ some d → IsSafePath d)
    → IsSafeAnswer (Route.move_answer path dest)
unfolding Route.move_answer handed
move_answer-IsSafeAnswer path none h k = tt
move_answer-IsSafeAnswer path (some d) h k = (h, (k d refl, tt))

put_answer-IsSafeAnswer :
    (path : Bytes) (read : Option (Result BodyError Bytes))
    → IsSafePath path
    → IsSafeAnswer (Route.put_answer path read)
unfolding Route.put_answer handed
put_answer-IsSafeAnswer path none h = tt
put_answer-IsSafeAnswer path (some (ok body)) h = (h, tt)
put_answer-IsSafeAnswer path (some (err too_large)) h = tt
put_answer-IsSafeAnswer path (some (err (BodyError.read e))) h = tt

-- Either answer of a test.
either :
    (b : Bool) (x y : Route.Answer)
    → IsSafeAnswer x
    → IsSafeAnswer y
    → IsSafeAnswer (if b then x else y)
either true x y h k = h
either false x y h k = k

other_answer-IsSafeAnswer :
    (m path : Bytes) (depth dest : Option Bytes)
    → IsSafePath path
    → ((d : Bytes) → dest ≡ some d → IsSafePath d)
    → IsSafeAnswer (Route.other_answer m path depth dest)
unfolding Route.other_answer handed
other_answer-IsSafeAnswer m path depth dest h k =
    either (bytes_eq m (codes "PROPFIND")) (Route.propfind path depth) _ (h, tt)
      (either (bytes_eq m (codes "MKCOL")) (Route.mkcol path) _ (h, tt)
        (either (bytes_eq m (codes "MOVE")) (Route.move_answer path dest) _
          (move_answer-IsSafeAnswer path dest h k)
          (either (bytes_eq m (codes "LOCK")) (Route.lock path) _ (h, tt)
            (either (bytes_eq m (codes "UNLOCK")) (Route.unlock path) (Route.unsupported m) (h, tt)
              tt))))

dispatch-IsSafeAnswer :
    (n : ℕ) (body : List Event) (depth : Option Bytes) (path : Bytes) (dest : Option Bytes)
    (m : Route.Method)
    → IsSafePath path
    → ((d : Bytes) → dest ≡ some d → IsSafePath d)
    → IsSafeAnswer (Route.dispatch n body depth path dest m)
unfolding Route.dispatch handed
dispatch-IsSafeAnswer n body depth path dest Route.options_method h k = tt
dispatch-IsSafeAnswer n body depth path dest Route.head_method h k = (h, tt)
dispatch-IsSafeAnswer n body depth path dest Route.get_method h k = (h, tt)
dispatch-IsSafeAnswer n body depth path dest Route.put_method h k =
    put_answer-IsSafeAnswer path (read_request_body n body) h
dispatch-IsSafeAnswer n body depth path dest Route.delete_method h k = (h, tt)
dispatch-IsSafeAnswer n body depth path dest Route.post_method h k = tt
dispatch-IsSafeAnswer n body depth path dest (Route.unused_method m) h k = tt
dispatch-IsSafeAnswer n body depth path dest (Route.other_method m) h k =
    other_answer-IsSafeAnswer m path depth dest h k

destination_of-IsSafePath :
    (given dest : Option Bytes)
    → Route.destination_of given ≡ ok dest
    → (d : Bytes) → dest ≡ some d
    → IsSafePath d
unfolding Route.destination_of
destination_of-IsSafePath none dest e d f = absurd (ground (arith, e, f))
destination_of-IsSafePath (some raw) dest e d f =
    let (path, e1, _) = ok->>= _ (destination_path raw) e in
    let (clean, e2, c) = ok->>= _ (sanitize_path path) e1 in
    let same : some clean ≡ some d = ok-injective e2 ∙ f in
    subst (λ x. IsSafePath x) (some-injective clean d same) (sanitize_path-IsSafePath path clean c)

with_path-IsSafeAnswer :
    (n : ℕ) (request : Route.Request) (checked : Result Bytes Bytes)
    → ((p : Bytes) → checked ≡ ok p → IsSafePath p)
    → IsSafeAnswer (Route.with_path n request checked)
unfolding Route.with_path handed
with_path-IsSafeAnswer n request (err e) h = tt
with_path-IsSafeAnswer n request (ok p) h =
    given (Route.destination_of (request.header (codes "destination"))) refl
  where
    given :
        (r : Result Bytes (Option Bytes))
        → Route.destination_of (request.header (codes "destination")) ≡ r
        → IsSafeAnswer (Route.with_destination n request p r)
    given (err e) q = tt
    given (ok dest) q =
        dispatch-IsSafeAnswer n request.body (request.header (codes "depth")) p dest request.method
          (h p refl) (destination_of-IsSafePath (request.header (codes "destination")) dest q)

either_dav :
    (b : Bool) (x y : Option Route.Answer) (dav : Route.Answer)
    → IsSafeAnswer (Route.or_dav x dav)
    → IsSafeAnswer (Route.or_dav y dav)
    → IsSafeAnswer (Route.or_dav (if b then x else y) dav)
either_dav true x y dav h k = h
either_dav false x y dav h k = k

plugin_answer-IsSafeAnswer :
    (path : Bytes) (query : Option Bytes) (dav : Route.Answer)
    → IsSafeAnswer dav
    → IsSafeAnswer (Route.or_dav (Route.plugin_answer path query) dav)
unfolding Route.or_dav Route.plugin_answer handed
plugin_answer-IsSafeAnswer path query dav h =
    either_dav (bytes_eq path (codes "/_status") || bytes_eq path (codes "_status"))
      (some Route.api_status) _ dav tt
      (either_dav (bytes_eq path (codes "/_tree") || bytes_eq path (codes "_tree"))
        (some (Route.api_tree query)) _ dav tt
        (either_dav (bytes_eq path (codes "/_search") || bytes_eq path (codes "_search"))
          (some (Route.api_search query)) none dav tt h))

plugin_of-IsSafeAnswer :
    (m : Route.Method) (asked : Bool) (path : Bytes) (query : Option Bytes) (dav : Route.Answer)
    → IsSafeAnswer dav
    → IsSafeAnswer (Route.or_dav (Route.plugin_of m asked path query) dav)
unfolding Route.or_dav Route.plugin_of handed
plugin_of-IsSafeAnswer Route.get_method true path query dav h =
    plugin_answer-IsSafeAnswer path query dav h
plugin_of-IsSafeAnswer Route.get_method false path query dav h = h
plugin_of-IsSafeAnswer Route.head_method asked path query dav h = h
plugin_of-IsSafeAnswer Route.post_method asked path query dav h = h
plugin_of-IsSafeAnswer Route.put_method asked path query dav h = h
plugin_of-IsSafeAnswer Route.delete_method asked path query dav h = h
plugin_of-IsSafeAnswer Route.options_method asked path query dav h = h
plugin_of-IsSafeAnswer (Route.unused_method m) asked path query dav h = h
plugin_of-IsSafeAnswer (Route.other_method m) asked path query dav h = h

unless_post-IsSafeAnswer :
    (m : Route.Method) (post dav : Route.Answer)
    → IsSafeAnswer post
    → IsSafeAnswer dav
    → IsSafeAnswer (Route.unless_post m post dav)
unfolding Route.unless_post
unless_post-IsSafeAnswer Route.get_method post dav h k = k
unless_post-IsSafeAnswer Route.head_method post dav h k = k
unless_post-IsSafeAnswer Route.post_method post dav h k = h
unless_post-IsSafeAnswer Route.put_method post dav h k = k
unless_post-IsSafeAnswer Route.delete_method post dav h k = k
unless_post-IsSafeAnswer Route.options_method post dav h k = k
unless_post-IsSafeAnswer (Route.unused_method m) post dav h k = k
unless_post-IsSafeAnswer (Route.other_method m) post dav h k = k

route-IsSafeAnswer :
    (n : ℕ) (request : Route.Request) (split : Bytes × Option Bytes)
    → IsSafeAnswer (Route.route n request split)
unfolding Route.route Route.post_answer handed
route-IsSafeAnswer n request (raw, query) =
    unless_post-IsSafeAnswer request.method _ _
      (either (Route.header_is_one (request.header (codes "x-onedrive-sync"))) Route.sync_run
        (Route.unsupported (codes "POST")) tt tt)
      (plugin_of-IsSafeAnswer request.method
        (Route.header_is_one (request.header (codes "x-onedrive-plugin"))) raw query _
        (with_path-IsSafeAnswer n request (sanitize_path raw) (sanitize_path-IsSafePath raw)))

-- Whatever the request, each path that a handler gets, the destination of a `MOVE` included, is the
-- rendering of clean segments; and if the configuration loads and the request fails the check of its
-- password, it is answered `unauthorized`, whatever else it holds.
pub handle_request-IsSafeAnswer :
    (n : ℕ) (config : Result Bytes (Option Bytes)) (request : Route.Request)
    → IsSafeAnswer (Route.handle_request n config request)
      × ((secret : Option Bytes)
          → config ≡ ok secret
          → check_basic_auth secret (request.header (codes "authorization")) ≡ false
          → Route.handle_request n config request ≡ Route.unauthorized)
unfolding Route.handle_request handed
handle_request-IsSafeAnswer n (err e) request = (tt, λ secret q bad. absurd (cc))
handle_request-IsSafeAnswer n (ok given) request = (
  elim (Bool-cases (check_basic_auth given (request.header (codes "authorization")))) [
    | inl y ↦ rw y (route-IsSafeAnswer n request (Route.split_query request.path_with_query))
    | inr no_match ↦ rw no_match tt
  ],
  λ secret q bad.
      let same = ok-injective q in
      let bad' : check_basic_auth given (request.header (codes "authorization")) ≡ false =
        ap (λ s. check_basic_auth s (request.header (codes "authorization"))) same ∙ bad in
      rw bad' refl,
)
