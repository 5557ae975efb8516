-- ===== src/Http/Send.antt =====
-- `send` and `read_body` of src/http_client.rs. What wasi:http does with a request that is built, and
-- with the chunks of its body, is the parameter `handle`.
use onedrive_davfs.Base.{
  ℕ, zero, suc, Option, none, some, List, [], ◌∷◌, ◌++◌, Bytes, codes, Result, ok, err, take, drop,
  length,
}
use onedrive_davfs.Base.Effect.{Op, lift, ◌>>=◌}
use onedrive_davfs.Http.Message.{Method, HttpRequest, HttpResponse, split_url}

-- What goes out: always over HTTPS.
pub record Wire : Type 0 where
  pub method : Method
  pub authority : Bytes
  pub path_with_query : Bytes
  pub headers : List (Bytes × Bytes)
  pub chunks : List Bytes

abbrev pub write_chunk : ℕ
write_chunk = 4096

-- `body.chunks(n)`: at most one chunk for each byte.
unfoldable pub chunks_steps : ℕ → ℕ → Bytes → List Bytes
chunks_steps fuel n [] = []
chunks_steps zero n (b ∷ s) = []
chunks_steps (suc fuel) n (b ∷ s) = take n (b ∷ s) ∷ chunks_steps fuel n (drop n (b ∷ s))

unfoldable pub chunks : ℕ → Bytes → List Bytes
unfolding chunks_steps
chunks n s = chunks_steps (length s) n s

unfoldable pub wire : HttpRequest → Bytes × Bytes → Wire
wire req (authority, path_with_query) = record {
  method = req.method;
  authority = authority;
  path_with_query = path_with_query;
  headers = req.headers;
  chunks = chunks write_chunk req.body;
}

unfoldable pub send : {W : Type 0} → (Wire → Op W HttpResponse) → HttpRequest → Op W HttpResponse
unfolding wire
send handle req = do parts ← lift (split_url req.url); handle (wire req parts)

-- What one `blocking_read` of the response's stream gives.
pub data ReadEvent : Type 0 where
  chunk : Bytes → ReadEvent
  closed : ReadEvent
  failed : Bytes → ReadEvent

-- `none` is a response that still waits for the host.
unfoldable pub read_body : Bytes → List ReadEvent → Option (Result Bytes Bytes)
read_body buf [] = none
read_body buf (chunk s ∷ events) = read_body (buf ++ s) events
read_body buf (closed ∷ events) = some (ok buf)
read_body buf (failed e ∷ events) = some (err (codes "error reading response body: " ++ e))
