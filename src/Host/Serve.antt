-- ===== src/Host/Serve.antt =====
-- `plain_response` and the answers of `HostServer::handle_request` of host/src/main.rs. What the guest does
-- with a request is a parameter.
use onedrive_davfs.Base.{
  ℕ, Option, none, some, List, [], ◌∷◌, Bytes, codes, length, Result, ok, err,
}
use onedrive_davfs.Base.Decimal.{decimal}

pub record Response : Type 0 where
  pub status : ℕ
  pub headers : List (Bytes × Bytes)
  pub body : Bytes

unfoldable pub plain_response : ℕ → Bytes → Response
unfolding decimal
plain_response status text = record {
  status = status;
  headers =
      (codes "content-type", codes "text/plain; charset=utf-8")
      ∷ (codes "content-length", decimal (length text))
      ∷ [];
  body = text;
}

-- How the guest's task ended: it returned, failed, or was not joined.
pub data TaskEnd : Type 0 where
  returned : TaskEnd
  failed : TaskEnd
  not_joined : TaskEnd

-- What the response channel gives: a response, an error code of wasi:http, or the end of the task.
pub data Received : Type 0 where
  response : Response → Received
  error_code : Received
  dropped : TaskEnd → Received

unfoldable pub ended : TaskEnd → Response
unfolding plain_response
ended returned = plain_response 500 (codes "guest never produced an HTTP response")
ended failed = plain_response 502 (codes "guest request failed")
ended not_joined = plain_response 500 (codes "guest task failed")

unfoldable pub received : Received → Response
unfolding ended plain_response
received (response r) = r
received error_code = plain_response 502 (codes "component returned wasi:http error")
received (dropped end) = ended end

-- `none` is a request that `admit` refuses. An error of the setup is answered by `main`.
unfoldable pub handle_request : Option (Result Bytes Received) → Response
unfolding received plain_response
handle_request none = plain_response 503 (codes "request queue full")
handle_request (some (err e)) = plain_response 500 (codes "internal host error")
handle_request (some (ok r)) = received r
