-- ===== src/Graph/Read.antt =====
-- The calls of src/graph.rs that read: `delta`, `stat`, `children` and `get_content`.
use onedrive_davfs.Base.{
  ℕ, zero, suc, ◌+◌, Bool, false, not, ◌||◌, Option, none, some, List, [], ◌++◌, map, Bytes, codes,
  ◌==◌, Result, ok, err, ok_or, if◌then◌else◌,
}
use onedrive_davfs.Base.Effect.{Op, lift, fail, pure, ◌>>=◌}
use onedrive_davfs.Base.Str.{starts_with, eq_ignore_ascii_case, trim}
use onedrive_davfs.Http.Message.{Method, HttpResponse, header_value}
use onedrive_davfs.Http.Send.{send}
use onedrive_davfs.Sync.Crawl.{Page, DeltaError, resync, other}
use onedrive_davfs.Graph.Address.{graph_origin, item_url, is_https_url}
use onedrive_davfs.Graph.Item.{GraphItem, to_item}
use onedrive_davfs.Graph.Links.{DeltaPageJson, validate_next_link, max_children_pages, page_of}
use onedrive_davfs.Graph.Request.{
  ItemPage, Env, plain, graph_request, status_text, status_error, parsed,
}

unfoldable pub asks_resync : Option Bytes → Bool
unfolding eq_ignore_ascii_case
asks_resync none = false
asks_resync (some code) = eq_ignore_ascii_case code (codes "resyncRequired")

unfoldable pub page_error : Result Bytes DeltaPageJson → Option Bytes
page_error (ok page) = page.error
page_error (err e) = none

module _ {W : Type 0} (env : Env W) where
  unfoldable pub is_resync : HttpResponse → Bool
  unfolding asks_resync page_error
  is_resync response =
      response.status == 410
      || asks_resync (page_error (env.delta_page response.body))
      || asks_resync (env.error_code response.body)

  unfoldable pub parse_delta_page : Bytes → Result Bytes Page
  unfolding page_of parsed
  parse_delta_page body = elim (parsed (codes "failed to parse delta page") (env.delta_page body)) [
    | err e ↦ err e
    | ok page ↦ page_of page
  ]

  unfoldable pub or_other : Result Bytes Page → Result DeltaError Page
  or_other (ok page) = ok page
  or_other (err e) = err (other e)

  unfoldable pub delta_reply : W × Result Bytes HttpResponse → W × Result DeltaError Page
  unfolding is_resync or_other parse_delta_page status_error
  delta_reply (w, err e) = (w, err (other e))
  delta_reply (w, ok response) = (
    w,
    if is_resync response
        then err resync
        else if not (response.status == 200)
        then err (other (status_error (codes "graph delta") response))
        else or_other (parse_delta_page response.body),
  )

  unfoldable pub delta : Bytes → W → W × Result DeltaError Page
  unfolding delta_reply
  delta url w =
      if starts_with url graph_origin
      then delta_reply (graph_request env Method.get url none [] w)
      else (w, err (other (codes "delta url is not a graph.microsoft.com link")))

  unfoldable pub stat_reply : HttpResponse → Result Bytes GraphItem
  unfolding status_error parsed to_item
  stat_reply response =
      if response.status == 404
      then err (codes "not found")
      else if not (response.status == 200)
      then err (status_error (codes "graph stat") response)
      else elim (parsed (codes "failed to parse drive item") (env.drive_item response.body)) [
        | err e ↦ err e
        | ok item ↦ ok (to_item item)
      ]

  unfoldable pub stat : Bytes → Op W GraphItem
  unfolding stat_reply
  stat path = do
    response ← graph_request env Method.get (item_url env.drive_base path []) none []
    lift (stat_reply response)

  unfoldable pub page_reply : HttpResponse → Result Bytes ItemPage
  unfolding status_error parsed
  page_reply response =
      if not (response.status == 200)
      then err (status_error (codes "graph children") response)
      else parsed (codes "failed to parse children page") (env.item_page response.body)

  unfoldable pub next_page :
      (Bytes → Op W (List GraphItem)) → List GraphItem → ℕ → Option Bytes → Op W (List GraphItem)
  unfolding validate_next_link
  next_page rest items pages none = pure items
  next_page rest items pages (some next) = do url ← lift (validate_next_link next pages); rest url

  -- The loop. A link is followed only while fewer than 500 pages are read, so 500 rounds are enough.
  unfoldable pub children_pages : ℕ → Bytes → List GraphItem → ℕ → Op W (List GraphItem)
  unfolding page_reply next_page to_item
  children_pages zero url items pages = fail (codes "no rounds left")
  children_pages (suc rounds) url items pages = do
    response ← graph_request env Method.get url none []
    page ← lift (page_reply response)
    next_page (λ next. children_pages rounds next (items ++ map to_item page.items) (pages + 1))
        (items ++ map to_item page.items) (pages + 1) page.next_link

  unfoldable pub children : Bytes → Op W (List GraphItem)
  unfolding children_pages
  children path =
      children_pages max_children_pages (item_url env.drive_base path (codes "/children?$top=200"))
        [] 0

  unfoldable pub redirected_reply : HttpResponse → Result Bytes Bytes
  unfolding status_text
  redirected_reply response =
      if not (response.status == 200)
      then err (status_text (codes "graph redirected get_content") response)
      else ok response.body

  unfoldable pub is_redirect : ℕ → Bool
  is_redirect status =
      status == 301 || status == 302 || status == 303 || status == 307 || status == 308

  -- The redirected request goes out without the bearer.
  unfoldable pub follow : Bytes → Op W Bytes
  unfolding redirected_reply is_https_url plain
  follow location =
      if not (is_https_url location)
      then fail (codes "graph get_content redirect is not https: " ++ location)
      else do
        response ← send env.handle (plain Method.get location [] [])
        lift (redirected_reply response)

  unfoldable pub content_reply : HttpResponse → Op W Bytes
  unfolding follow is_redirect status_text
  content_reply response =
      if response.status == 200
      then pure response.body
      else if is_redirect response.status
      then (do
        location ← lift (
            ok_or (codes "graph get_content redirect missing Location header")
              (header_value response (codes "location")))
        follow (trim location))
      else fail (status_text (codes "graph get_content") response)

  unfoldable pub get_content : Bytes → Op W Bytes
  unfolding content_reply
  get_content path = do
    response ←
        graph_request env Method.get (item_url env.drive_base path (codes "/content")) none []
    content_reply response
