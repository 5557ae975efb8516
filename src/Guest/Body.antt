-- ===== src/Guest/Body.antt =====
-- `read_request_body` of src/lib.rs. The body stream is a resource of the host: it is the list of what
-- its reads give, one by one. `none` stands for a request that is still waiting for the host.
use onedrive_davfs.Base.{
  ℕ, ◌+◌, Option, none, some, List, [], ◌∷◌, ◌++◌, Bytes, ltb, length, if◌then◌else◌,
}
use onedrive_davfs.Base.{Result, ok, err}

pub data BodyError : Type 0 where
  too_large : BodyError
  read : Bytes → BodyError

-- What one `blocking_read` gives: a chunk, the end, or another error with its message.
pub data Event : Type 0 where
  chunk : Bytes → Event
  closed : Event
  failed : Bytes → Event

unfoldable pub read_chunks : ℕ → Bytes → List Event → Option (Result BodyError Bytes)
read_chunks max_bytes buf [] = none
read_chunks max_bytes buf (closed ∷ events) = some (ok buf)
read_chunks max_bytes buf (failed message ∷ events) = some (err (BodyError.read message))
read_chunks max_bytes buf (chunk [] ∷ events) = read_chunks max_bytes buf events
read_chunks max_bytes buf (chunk (b ∷ data_left) ∷ events) =
    let next = read_chunks max_bytes (buf ++ b ∷ data_left) events in
    if ltb max_bytes (length buf + length (b ∷ data_left)) then some (err too_large) else next

unfoldable pub read_request_body : ℕ → List Event → Option (Result BodyError Bytes)
unfolding read_chunks
read_request_body max_bytes events = read_chunks max_bytes [] events
