-- ===== src/Graph/Tests.antt =====
-- Runs of the model of the Graph client, and its theorems at concrete inputs.
use onedrive_davfs.Base.{◌≡◌, none, List, [], ◌∷◌, ◌++◌, codes, ok, err, All, All-append}
use onedrive_davfs.Base.Effect.{Op, Keeps, pure}
use onedrive_davfs.Xml.Date.{civil_from_days}
use onedrive_davfs.Http.Message.{HttpResponse}
use onedrive_davfs.Http.Send.{Wire}
use onedrive_davfs.Base.Int.{pos}
use onedrive_davfs.Graph.Time.{days_from_civil}
use onedrive_davfs.Graph.DateRoundTrip.{days_from_civil-civil_from_days}
use onedrive_davfs.Graph.Request.{Env}
use onedrive_davfs.Graph.Read
use onedrive_davfs.Graph.Upload
use onedrive_davfs.Graph.Write
use onedrive_davfs.Graph.BearerSafe.{IsSafe}
use onedrive_davfs.Graph.BearerStays.{client-Keeps}

-- A host that keeps what is sent and answers with a redirect.
abbrev redirecting : Wire → Op (List Wire) HttpResponse
redirecting w log = (
  log ++ w ∷ [],
  ok (record {
    status = 302;
    headers = (codes "Location", codes "https://x.sharepoint.com/d") ∷ [];
    body = [];
  }),
)

abbrev logging : Env (List Wire)
logging = record {
  drive_base = codes "me/drive";
  bearer = pure (codes "Bearer t");
  handle = redirecting;
  drive_item = λ s. err (codes "no item");
  item_page = λ s. err (codes "no page");
  delta_page = λ s. err (codes "no page");
  error_code = λ s. none;
  upload_url = λ s. ok (codes "https://x.sharepoint.com/u");
  session_body = codes "{}";
  folder_body = λ name. name;
  move_body = λ name parent. name;
}

redirecting-Keeps : (w : Wire) → IsSafe w → Keeps (All IsSafe) (redirecting w)
redirecting-Keeps w h = record { keep = λ log all. All-append IsSafe log (w ∷ []) all (h, tt) }

bearer-Keeps : Keeps (All IsSafe) logging.bearer
bearer-Keeps = record { keep = λ log all. all }

client-keeps_example :
    All IsSafe (Read.stat logging (codes "/a") []).0
    × All IsSafe (Read.children logging (codes "/a") []).0
    × All IsSafe (Read.get_content logging (codes "/a") []).0
    × All IsSafe (Upload.put_content logging (codes "/a") (codes "text") []).0
    × All IsSafe (Write.create_folder logging (codes "/a") (codes "/b") []).0
    × All IsSafe (Write.delete logging (codes "/a") []).0
    × All IsSafe (Write.move_or_rename logging (codes "/a") (codes "/b") []).0
    × All IsSafe (Read.delta logging (codes "/a") []).0
client-keeps_example =
    client-Keeps logging (All IsSafe) redirecting-Keeps bearer-Keeps (codes "/a") (codes "/b")
      (codes "text") [] tt

days_from_civil-civil_from_days_example :
    days_from_civil
      (pos (civil_from_days 20418).year)
      (civil_from_days 20418).month
      (civil_from_days 20418).day
    ≡ pos 20418
days_from_civil-civil_from_days_example = days_from_civil-civil_from_days 20418
