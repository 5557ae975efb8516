-- ===== src/Guest/Tests.antt =====
-- The theorems on src/lib.rs at concrete requests.
use onedrive_davfs.Base.{
  false, none, Option, Result, ◌≡◌, ◌↔◌, refl, true, some, List, [], ◌∷◌, ◌++◌, map, Bytes, codes,
  ok, err, All, IsByte, Lacks, arith, length, ltb, if◌then◌else◌,
}
use onedrive_davfs.Base.Utf8.{is_utf8}
use onedrive_davfs.Index.Paths.{segments, render, normalize_path}
use onedrive_davfs.Guest.Body.{too_large, chunk, closed, read_request_body}
use onedrive_davfs.Guest.BodyLimit.{flatten, read_request_body_lem}
use onedrive_davfs.Guest.Base64.{base64_decode}
use onedrive_davfs.Guest.Auth.{constant_time_eq, check_basic_auth}
use onedrive_davfs.Guest.AuthAccepts.{constant_time_eq_iff, check_basic_auth_iff}
use onedrive_davfs.Guest.Path.{sanitize_path}
use onedrive_davfs.Guest.Route
use onedrive_davfs.Guest.RouteSafe.{IsSafeAnswer, handle_request-IsSafeAnswer}
use onedrive_davfs.Guest.PathClean.{IsClean, sanitize_path-IsClean}

read_request_body_lem_example :
    read_request_body 3 (map chunk (codes "ab" ∷ codes "cd" ∷ []) ++ (closed ∷ []))
    ≡ some (
        if ltb 3 (length (flatten (codes "ab" ∷ codes "cd" ∷ [])))
        then err too_large
        else ok (flatten (codes "ab" ∷ codes "cd" ∷ [])))
read_request_body_lem_example = read_request_body_lem 3 (codes "ab" ∷ codes "cd" ∷ []) []

word_bytes : All IsByte (codes "pw")
word_bytes = (omega arith, (omega arith, tt))

constant_time_eq_iff_example :
    (constant_time_eq (codes "pw") (codes "pw") ≡ true) ↔ (codes "pw" ≡ codes "pw")
constant_time_eq_iff_example = constant_time_eq_iff (codes "pw") (codes "pw") word_bytes word_bytes

user_colon : Lacks b':' (codes "u")
user_colon = (λ e. absurd (omega (arith, e)), tt)

pair_utf8 : is_utf8 (codes "u" ++ (b':' ∷ codes "pw")) ≡ true
unfolding is_utf8
pair_utf8 = refl

pair_decodes : base64_decode (codes "dTpwdw==") ≡ some (codes "u" ++ (b':' ∷ codes "pw"))
unfolding base64_decode
pair_decodes = refl

check_basic_auth_iff_example :
    (check_basic_auth (some (codes "pw")) (some (codes "Basic " ++ codes "dTpwdw==")) ≡ true)
    ↔ (codes "pw" ≡ codes "pw")
check_basic_auth_iff_example =
    check_basic_auth_iff (codes "pw") (codes "dTpwdw==") (codes "u") (codes "pw") word_bytes
      word_bytes user_colon pair_utf8 pair_decodes

dotted : sanitize_path (codes "/a//./b%20c") ≡ ok (codes "/a/b c")
unfolding sanitize_path
dotted = refl

sanitize_path-IsClean_example :
    (segs : List Bytes) × (codes "/a/b c" ≡ render segs)
    × All IsClean segs
    × (segments (codes "/a/b c") ≡ segs)
    × (normalize_path (codes "/a/b c") ≡ codes "/a/b c")
sanitize_path-IsClean_example = sanitize_path-IsClean (codes "/a//./b%20c") (codes "/a/b c") dotted

abbrev move_request : Route.Request
move_request = record {
  method = Route.other_method (codes "MOVE");
  path_with_query = some (codes "/a");
  header = λ name. some (codes "/b");
  body = [];
}

handle_request-IsSafeAnswer_example :
    IsSafeAnswer (Route.handle_request 10 (ok none) move_request)
    × ((secret : Option Bytes)
        → ◌≡◌ {A = Result Bytes (Option Bytes)} (ok none) (ok secret)
        → check_basic_auth secret (move_request.header (codes "authorization")) ≡ false
        → Route.handle_request 10 (ok none) move_request ≡ Route.unauthorized)
handle_request-IsSafeAnswer_example = handle_request-IsSafeAnswer 10 (ok none) move_request
