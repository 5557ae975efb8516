-- ===== src/Graph/UploadTests.antt =====
-- Runs of the uploads of src/graph.rs, and the theorems on them at concrete inputs.
use mathlib.Core.List.{flatten}
use onedrive_davfs.Base.{◌+◌, ◌≡◌, refl, sym, ap, none, [], ◌++◌, Bytes, codes, ok, err, arith}
use onedrive_davfs.Base.Effect.{pure}
use onedrive_davfs.Http.Message.{Method, HttpRequest, HttpResponse, split_url}
use onedrive_davfs.Http.Send.{Wire, send, chunks}
use onedrive_davfs.Graph.Address.{item_url}
use onedrive_davfs.Graph.Request.{Env, graph_request}
use onedrive_davfs.Graph.Read
use onedrive_davfs.Graph.Upload
use onedrive_davfs.Graph.UploadWhole.{adds, put_content_receives}
use onedrive_davfs.Graph.Rounds.{upload_rounds, children_rounds}

-- A server that keeps what it gets by PUT.
abbrev keeping : Env Bytes
keeping = record {
  drive_base = codes "me/drive";
  bearer = pure (codes "Bearer t");
  handle = λ m got. (
    got ++ adds m.method (flatten m.chunks),
    ok (record { status = 201; headers = []; body = [] }),
  );
  drive_item = λ s. err (codes "no item");
  item_page = λ s. err (codes "no page");
  delta_page = λ s. err (codes "no page");
  error_code = λ s. none;
  upload_url = λ s. ok (codes "https://x.sharepoint.com/u");
  session_body = codes "{}";
  folder_body = λ name. name;
  move_body = λ name parent. name;
}

handle_receives :
    (m : Wire) (w v : Bytes) (response : HttpResponse)
    → keeping.handle m w ≡ (v, ok response)
    → v ≡ w ++ adds m.method (flatten m.chunks)
handle_receives m w v response h = sym (ap (λ p. p.0) h)

bearer_receives : (w v : Bytes) (bearer : Bytes) → keeping.bearer w ≡ (v, ok bearer) → v ≡ w
bearer_receives w v bearer h = sym (ap (λ p. p.0) h)

put_hello : Upload.put_content keeping (codes "/a") (codes "hello") [] ≡ (codes "hello", ok none)
unfolding Upload.put_content graph_request send split_url item_url chunks flatten
put_hello = refl

put_content_receives_example : codes "hello" ≡ [] ++ codes "hello"
put_content_receives_example =
    put_content_receives keeping (λ w. w) handle_receives bearer_receives (codes "/a")
      (codes "hello") [] (codes "hello") none put_hello

upload_rounds_example :
    Upload.upload_chunks keeping (5 + 3) 2 (codes "https://x/u") (codes "hello") 0
    ≡ Upload.upload_chunks keeping 5 2 (codes "https://x/u") (codes "hello") 0
upload_rounds_example =
    upload_rounds keeping 5 3 2 (codes "https://x/u") (codes "hello") 0 (omega arith) (omega arith)

children_rounds_example :
    Read.children_pages keeping
      (500 + 7)
      (item_url (codes "me/drive") (codes "/a") (codes "/children?$top=200"))
      []
      0
    ≡ Read.children keeping (codes "/a")
children_rounds_example = children_rounds keeping 7 (codes "/a")

abbrev hello_request : HttpRequest
hello_request = record {
  method = Method.put;
  url = codes "https://x.sharepoint.com/u";
  headers = [];
  body = codes "hello";
}
