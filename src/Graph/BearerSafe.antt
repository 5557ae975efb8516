-- ===== src/Graph/BearerSafe.antt =====
-- The requests of src/graph.rs with an `authorization` header, as src/http_client.rs puts them on the wire.
use mathlib.Core.Bool.{false≢true}
use onedrive_davfs.Base.{
  ℕ, zero, suc, ◌+◌, ◌≡◌, refl, sym, ap, ◌∙◌, subst, Bool, true, false, not, ◌||◌, Option, none,
  some, Bool-cases, List, [], ◌∷◌, ◌++◌, map, Bytes, codes, Result, ok, err, ok-injective, arith,
  inl, inr, leb, ◌==◌,
}
use onedrive_davfs.Base.Effect.{
  Op, ◌>>=◌, Keeps, Keeps->>=, Keeps-lift, Keeps-pure, Keeps-fail, Keeps-checked, Keeps-if,
}
use onedrive_davfs.Base.Str.{
  starts_with, starts_with-eq, strip_prefix, find_byte, eq_ignore_ascii_case, trim,
}
use onedrive_davfs.Http.Message.{Method, HttpRequest, HttpResponse, split_at, split_url}
use onedrive_davfs.Http.Send.{Wire, wire, send}
use onedrive_davfs.Graph.Address.{graph_origin, item_url, is_https_url}
use onedrive_davfs.Graph.Item.{GraphItem, to_item}
use onedrive_davfs.Graph.Links.{validate_next_link, max_children_pages}
use onedrive_davfs.Graph.Request.{Env, authorized, plain, graph_request}
use onedrive_davfs.Graph.Read

unfoldable pub carries_token : List (Bytes × Bytes) → Bool
unfolding eq_ignore_ascii_case
carries_token [] = false
carries_token ((name, value) ∷ headers) =
    eq_ignore_ascii_case name (codes "authorization") || carries_token headers

-- A request that carries the token goes to Graph.
abbrev pub IsSafe : Wire → Type 0
IsSafe w = carries_token w.headers ≡ true → w.authority ≡ codes "graph.microsoft.com"

abbrev pub IsOrigin : Bytes → Type 0
IsOrigin url = (r : Bytes) × (url ≡ graph_origin ++ r)

split_url-origin :
    (r : Bytes) → split_url (graph_origin ++ r) ≡ ok (codes "graph.microsoft.com", b'/' ∷ r)
unfolding split_url strip_prefix find_byte split_at
split_url-origin r = refl

pub item_url-IsOrigin : (drive path suffix : Bytes) → IsOrigin (item_url drive path suffix)
unfolding item_url
item_url-IsOrigin drive path suffix = (_, refl)

validate_next_link-IsOrigin :
    (next : Bytes) (pages : ℕ) (url : Bytes) → validate_next_link next pages ≡ ok url → IsOrigin url
unfolding validate_next_link
validate_next_link-IsOrigin next pages url h = elim (Bool-cases (leb max_children_pages pages)) [
  | inl y ↦ absurd (ground (arith, h, y))
  | inr n ↦ elim (Bool-cases (starts_with next graph_origin)) [
    | inr no_match ↦ absurd (ground (arith, h, n, no_match))
    | inl y ↦
        let same : next ≡ url = ground (arith, h, n, y) in
        subst IsOrigin same (starts_with-eq next graph_origin y)
  ]
]

module _ {W : Type 0} (env : Env W) (P : W → Type 0)
    (handle_keeps : (w : Wire) → IsSafe w → Keeps P (env.handle w))
    (bearer_keeps : Keeps P env.bearer) where
  pub send-Keeps :
      (req : HttpRequest)
      → ((parts : Bytes × Bytes) → split_url req.url ≡ ok parts → IsSafe (wire req parts))
      → Keeps P (send env.handle req)
  unfolding send
  send-Keeps req safe =
      Keeps-checked P (split_url req.url) _
        (λ parts e. handle_keeps (wire req parts) (safe parts e))

  pub graph_request-Keeps :
      (m : Method) (url : Bytes) (ct : Option Bytes) (body : Bytes)
      → IsOrigin url
      → Keeps P (graph_request env m url ct body)
  unfolding graph_request authorized wire
  graph_request-Keeps m url ct body (r, e) = Keeps->>= P env.bearer _ bearer_keeps (λ b.
      send-Keeps (authorized b m url ct body) (λ parts q _.
        let same = ok-injective (sym (split_url-origin r) ∙ ap split_url (sym e) ∙ q) in
        ap (λ p. p.0) (sym same)))

  pub request-Keeps :
      (req : HttpRequest) → carries_token req.headers ≡ false → Keeps P (send env.handle req)
  unfolding wire
  request-Keeps req h = send-Keeps req (λ parts q c. absurd (false≢true (sym h ∙ c)))

  pub plain-Keeps :
      (m : Method) (url : Bytes) (headers : List (Bytes × Bytes)) (body : Bytes)
      → carries_token headers ≡ false
      → Keeps P (send env.handle (plain m url headers body))
  unfolding plain
  plain-Keeps m url headers body h = request-Keeps (plain m url headers body) h

  -- A request to an item's address and a reply that is only read.
  pub item-Keeps :
      {A : Type 0} (m : Method) (url : Bytes) (ct : Option Bytes) (body : Bytes)
      (reply : HttpResponse → Op W A)
      → IsOrigin url
      → ((response : HttpResponse) → Keeps P (reply response))
      → Keeps P (graph_request env m url ct body >>= reply)
  item-Keeps m url ct body reply o k =
      Keeps->>= P (graph_request env m url ct body) reply (graph_request-Keeps m url ct body o) k

  pub stat-Keeps : (path : Bytes) → Keeps P (Read.stat env path)
  unfolding Read.stat
  stat-Keeps path =
      item-Keeps Method.get (item_url env.drive_base path []) none [] _
        (item_url-IsOrigin env.drive_base path [])
        (λ response. Keeps-lift P (Read.stat_reply env response))

  pub next_page-Keeps :
      (rest : Bytes → Op W (List GraphItem)) (items : List GraphItem) (pages : ℕ)
      (link : Option Bytes)
      → ((next : Bytes) → IsOrigin next → Keeps P (rest next))
      → Keeps P (Read.next_page env rest items pages link)
  unfolding Read.next_page
  next_page-Keeps rest items pages none k = Keeps-pure P items
  next_page-Keeps rest items pages (some next) k =
      Keeps-checked P (validate_next_link next pages) rest
        (λ url e. k url (validate_next_link-IsOrigin next pages url e))

  pub children_pages-Keeps :
      (rounds : ℕ) (url : Bytes) (items : List GraphItem) (pages : ℕ)
      → IsOrigin url
      → Keeps P (Read.children_pages env rounds url items pages)
  unfolding Read.children_pages
  children_pages-Keeps zero url items pages o = Keeps-fail P _
  children_pages-Keeps (suc rounds) url items pages o =
      item-Keeps Method.get url none [] _ o (λ response.
        Keeps->>= P _ _ (Keeps-lift P (Read.page_reply env response)) (λ page.
          next_page-Keeps _ _ (pages + 1) page.next_link (λ next q.
            children_pages-Keeps rounds next (items ++ map to_item page.items) (pages + 1) q)))

  pub children-Keeps : (path : Bytes) → Keeps P (Read.children env path)
  unfolding Read.children
  children-Keeps path =
      children_pages-Keeps max_children_pages _ [] 0
        (item_url-IsOrigin env.drive_base path (codes "/children?$top=200"))

  pub follow-Keeps : (location : Bytes) → Keeps P (Read.follow env location)
  unfolding Read.follow carries_token
  follow-Keeps location = Keeps-if P (not (is_https_url location)) _ _ (Keeps-fail P _) (
      Keeps->>= P _ _ (plain-Keeps Method.get location [] [] refl)
        (λ response. Keeps-lift P (Read.redirected_reply env response)))

  pub content_reply-Keeps : (response : HttpResponse) → Keeps P (Read.content_reply env response)
  unfolding Read.content_reply
  content_reply-Keeps response =
      Keeps-if P (response.status == 200) _ _ (Keeps-pure P response.body) (
        Keeps-if P (Read.is_redirect env response.status) _ _
          (Keeps->>= P _ _ (Keeps-lift P _) (λ location. follow-Keeps (trim location)))
          (Keeps-fail P _))

  pub get_content-Keeps : (path : Bytes) → Keeps P (Read.get_content env path)
  unfolding Read.get_content
  get_content-Keeps path =
      item-Keeps Method.get _ none [] _ (item_url-IsOrigin env.drive_base path (codes "/content"))
        content_reply-Keeps

  pub delta_reply-Keeps : (r : W × Result Bytes HttpResponse) → P r.0 → P (Read.delta_reply env r).0
  unfolding Read.delta_reply
  delta_reply-Keeps (w, ok response) h = h
  delta_reply-Keeps (w, err e) h = h

  pub delta-Keeps : (url : Bytes) (w : W) → P w → P (Read.delta env url w).0
  unfolding Read.delta
  delta-Keeps url w h = elim (Bool-cases (starts_with url graph_origin)) [
    | inr n ↦ rw n h
    | inl y ↦ rw y (
        delta_reply-Keeps (graph_request env Method.get url none [] w) (
          (graph_request-Keeps Method.get url none [] (starts_with-eq url graph_origin y)).keep w
            h))
  ]
