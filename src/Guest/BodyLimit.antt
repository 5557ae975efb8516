-- ===== src/Guest/BodyLimit.antt =====
-- The limit on a request body (src/lib.rs).
use onedrive_davfs.Base.{
  ℕ, ◌≤◌, ◌≡◌, some, List, [], ◌∷◌, ◌++◌, Bytes, arith, length, length-append, ok, err,
  append_assoc, append-nil, ltb, map, if◌then◌else◌,
}
use onedrive_davfs.Guest.Body.{too_large, chunk, closed, Event, read_chunks, read_request_body}

-- The bytes of all chunks.
abbrev pub flatten : List Bytes → Bytes
flatten [] = []
flatten (s ∷ chunks) = s ++ flatten chunks

-- The answer for a stream of chunks that ends.
read_chunks_lem :
    (max_bytes : ℕ) (buf : Bytes) (chunks : List Bytes) (rest : List Event)
    → length buf ≤ max_bytes
    → read_chunks max_bytes buf (map chunk chunks ++ (closed ∷ rest))
      ≡ some (
          if ltb max_bytes (length (buf ++ flatten chunks))
          then err too_large
          else ok (buf ++ flatten chunks))
unfolding read_chunks
read_chunks_lem max_bytes buf [] rest h = ground (arith, append-nil buf, h)
read_chunks_lem max_bytes buf ([] ∷ chunks) rest h = read_chunks_lem max_bytes buf chunks rest h
read_chunks_lem max_bytes buf ((b ∷ s) ∷ chunks) rest h = ground (
  arith,
  read_chunks_lem max_bytes (buf ++ b ∷ s) chunks rest,
  length-append buf (b ∷ s),
  length-append (buf ++ b ∷ s) (flatten chunks),
  append_assoc buf (b ∷ s) (flatten chunks),
)

-- Of a client that sends its body in any chunks and then ends the stream, `read_request_body` gives the
-- whole body if it is within the limit, and refuses it as too large otherwise.
pub read_request_body_lem :
    (max_bytes : ℕ) (chunks : List Bytes) (rest : List Event)
    → read_request_body max_bytes (map chunk chunks ++ (closed ∷ rest))
      ≡ some
          (if ltb max_bytes (length (flatten chunks)) then err too_large else ok (flatten chunks))
unfolding read_request_body
read_request_body_lem max_bytes chunks rest = read_chunks_lem max_bytes [] chunks rest (omega arith)
