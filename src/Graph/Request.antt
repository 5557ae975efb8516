-- ===== src/Graph/Request.antt =====
-- What the calls of src/graph.rs share: the environment, `graph_request` and the errors of a status.
use onedrive_davfs.Base.{Option, none, some, List, [], ◌∷◌, ◌++◌, Bytes, codes, Result, ok, err}
use onedrive_davfs.Base.Effect.{Op, ◌>>=◌}
use onedrive_davfs.Base.Utf8.{from_utf8_lossy}
use onedrive_davfs.Base.Decimal.{decimal}
use onedrive_davfs.Index.State.{DeltaItem}
use onedrive_davfs.Http.Message.{Method, HttpRequest, HttpResponse}
use onedrive_davfs.Http.Send.{Wire, send}
use onedrive_davfs.Graph.Item.{DriveItem, to_delta_item}
use onedrive_davfs.Graph.Links.{DeltaPageJson}

pub record ItemPage : Type 0 where
  pub items : List DriveItem
  pub next_link : Option Bytes

-- The drive of the configuration, `auth::bearer_token`, the host's wasi:http, and `serde_json` on the
-- texts that are read and written.
pub record Env (W : Type 0) : Type 0 where
  pub drive_base : Bytes
  pub bearer : Op W Bytes
  pub handle : Wire → Op W HttpResponse
  pub drive_item : Bytes → Result Bytes DriveItem
  pub item_page : Bytes → Result Bytes ItemPage
  pub delta_page : Bytes → Result Bytes DeltaPageJson
  -- `pointer("/error/code")` as a string.
  pub error_code : Bytes → Option Bytes
  pub upload_url : Bytes → Result Bytes Bytes
  pub session_body : Bytes
  pub folder_body : Bytes → Bytes
  pub move_body : Bytes → Bytes → Bytes

unfoldable pub content_type_header : Option Bytes → List (Bytes × Bytes)
content_type_header none = []
content_type_header (some ct) = (codes "content-type", ct) ∷ []

unfoldable pub authorized : Bytes → Method → Bytes → Option Bytes → Bytes → HttpRequest
unfolding content_type_header
authorized bearer method url content_type body = record {
  method = method;
  url = url;
  headers = (codes "authorization", bearer) ∷ content_type_header content_type;
  body = body;
}

-- A request without the bearer.
unfoldable pub plain : Method → Bytes → List (Bytes × Bytes) → Bytes → HttpRequest
plain method url headers body = record {
  method = method;
  url = url;
  headers = headers;
  body = body;
}

unfoldable pub graph_request :
    {W : Type 0} → Env W → Method → Bytes → Option Bytes → Bytes → Op W HttpResponse
unfolding authorized
graph_request env method url content_type body = do
  bearer ← env.bearer
  send env.handle (authorized bearer method url content_type body)

unfoldable pub status_text : Bytes → HttpResponse → Bytes
unfolding decimal
status_text what response = what ++ codes " failed with status " ++ decimal response.status

unfoldable pub status_error : Bytes → HttpResponse → Bytes
unfolding status_text from_utf8_lossy
status_error what response =
    status_text what response ++ codes ": " ++ from_utf8_lossy response.body

-- `map_err(|e| format!("{what}: {e}"))`.
unfoldable pub parsed : {A : Type 0} → Bytes → Result Bytes A → Result Bytes A
parsed what (ok a) = ok a
parsed what (err e) = err (what ++ codes ": " ++ e)

-- `from_slice(..).ok().and_then(|item| to_delta_item(&item))`.
unfoldable pub delta_item_of : Result Bytes DriveItem → Option DeltaItem
unfolding to_delta_item
delta_item_of (err e) = none
delta_item_of (ok item) = to_delta_item item
