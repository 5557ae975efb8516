-- ===== src/Graph/Upload.antt =====
-- `put_content`, `put_simple` and `put_chunked` of src/graph.rs.
use onedrive_davfs.Base.{
  ℕ, zero, suc, ◌+◌, ◌-◌, ◌*◌, min, Bool, not, ◌||◌, Option, none, some, [], ◌∷◌, ◌++◌, Bytes,
  codes, ◌==◌, leb, ltb, length, Result, ok, err, if◌then◌else◌,
}
use onedrive_davfs.Base.Effect.{Op, lift, fail, pure, ◌>>=◌}
use onedrive_davfs.Base.Bits.{slice}
use onedrive_davfs.Base.Decimal.{decimal}
use onedrive_davfs.Base.Str.{trim}
use onedrive_davfs.Base.Utf8.{from_utf8_lossy}
use onedrive_davfs.Index.State.{DeltaItem}
use onedrive_davfs.Http.Message.{Method, HttpRequest, HttpResponse}
use onedrive_davfs.Http.Send.{send}
use onedrive_davfs.Graph.Address.{item_url, is_https_url}
use onedrive_davfs.Graph.Request.{Env, plain, graph_request, status_error, parsed, delta_item_of}

abbrev pub max_simple_upload_bytes : ℕ
max_simple_upload_bytes = 4 * 1024 * 1024

abbrev pub max_upload_bytes : ℕ
max_upload_bytes = 64 * 1024 * 1024

abbrev pub upload_chunk_bytes : ℕ
upload_chunk_bytes = 10 * 1024 * 1024

-- `bytes {first}-{last}/{total}`.
unfoldable pub range_text : ℕ → ℕ → ℕ → Bytes
unfolding decimal
range_text offset end total =
    codes "bytes " ++ decimal offset ++ codes "-" ++ decimal (end - 1) ++ codes "/" ++ decimal total

unfoldable pub chunk_request : Bytes → Bytes → ℕ → ℕ → HttpRequest
unfolding range_text decimal slice plain
chunk_request upload_url bytes offset end =
    plain Method.put upload_url
      ((codes "content-range", range_text offset end (length bytes))
        ∷ (codes "content-length", decimal (length (slice offset end bytes)))
        ∷ (codes "content-type", codes "application/octet-stream")
        ∷ [])
      (slice offset end bytes)

-- The last chunk is answered by 200 or 201, another one by 202.
unfoldable pub accepted : Bool → ℕ → Bool
accepted last status = if last then status == 200 || status == 201 else status == 202

unfoldable pub chunk_error : ℕ → ℕ → HttpResponse → Bytes
unfolding decimal from_utf8_lossy
chunk_error offset end response =
    codes "graph upload session chunk "
    ++ decimal offset
    ++ codes "-"
    ++ decimal (end - 1)
    ++ codes " failed with status "
    ++ decimal response.status
    ++ codes ": "
    ++ from_utf8_lossy response.body

unfoldable pub is_created : ℕ → Bool
is_created status = status == 200 || status == 201

module _ {W : Type 0} (env : Env W) where
  unfoldable pub item_reply : Bytes → HttpResponse → Result Bytes (Option DeltaItem)
  unfolding delta_item_of status_error is_created
  item_reply what response =
      if not (is_created response.status)
      then err (status_error what response)
      else ok (delta_item_of (env.drive_item response.body))

  unfoldable pub put_simple : Bytes → Bytes → Op W (Option DeltaItem)
  unfolding item_reply
  put_simple path bytes = do
    response ←
        graph_request env Method.put (item_url env.drive_base path (codes "/content"))
          (some (codes "application/octet-stream")) bytes
    lift (item_reply (codes "graph put_content") response)

  -- After a chunk: the item of the last answer, or the next round.
  unfoldable pub chunk_reply :
      Op W (Option DeltaItem) → ℕ → ℕ → ℕ → HttpResponse → Op W (Option DeltaItem)
  unfolding accepted chunk_error delta_item_of
  chunk_reply rest offset end total response =
      if not (accepted (end == total) response.status)
      then fail (chunk_error offset end response)
      else if end == total
      then pure (delta_item_of (env.drive_item response.body))
      else rest

  -- `while offset < total` with chunks of `size` bytes. A chunk is not empty, so as many rounds as
  -- there are bytes are enough.
  unfoldable pub upload_chunks : ℕ → ℕ → Bytes → Bytes → ℕ → Op W (Option DeltaItem)
  unfolding chunk_reply
  upload_chunks zero size upload_url bytes offset =
      if leb (length bytes) offset then pure none else fail (codes "no rounds left")
  upload_chunks (suc rounds) size upload_url bytes offset =
      if leb (length bytes) offset then pure none else do
        response ←
            send env.handle
              (chunk_request upload_url bytes offset (min (offset + size) (length bytes)))
        chunk_reply
            (upload_chunks rounds size upload_url bytes (min (offset + size) (length bytes))) offset
            (min (offset + size) (length bytes)) (length bytes) response

  unfoldable pub session_reply : HttpResponse → Result Bytes Bytes
  unfolding parsed status_error is_created
  session_reply response =
      if not (is_created response.status)
      then err (status_error (codes "graph createUploadSession") response)
      else parsed (codes "failed to parse upload session") (env.upload_url response.body)

  -- A failed upload deletes its session; what that call gives does not matter.
  unfoldable pub or_abort :
      Bytes → W × Result Bytes (Option DeltaItem) → W × Result Bytes (Option DeltaItem)
  unfolding plain
  or_abort upload_url (w, ok item) = (w, ok item)
  or_abort upload_url (w, err e) =
      ((send env.handle (plain Method.delete upload_url [] []) w).0, err e)

  unfoldable pub upload_to : Bytes → Bytes → Op W (Option DeltaItem)
  unfolding or_abort upload_chunks is_https_url
  upload_to upload_url bytes w =
      if not (is_https_url upload_url)
      then (w, err (codes "graph createUploadSession returned a non-https uploadUrl"))
      else or_abort upload_url
          (upload_chunks (length bytes) upload_chunk_bytes upload_url bytes 0 w)

  unfoldable pub put_chunked : Bytes → Bytes → Op W (Option DeltaItem)
  unfolding session_reply upload_to
  put_chunked path bytes = do
    response ←
        graph_request env Method.post (item_url env.drive_base path (codes "/createUploadSession"))
          (some (codes "application/json")) env.session_body
    url ← lift (session_reply response)
    upload_to (trim url) bytes

  unfoldable pub put_content : Bytes → Bytes → Op W (Option DeltaItem)
  unfolding put_simple put_chunked
  put_content path bytes =
      if ltb max_upload_bytes (length bytes)
      then fail (
          codes "file is "
          ++ decimal (length bytes)
          ++ codes " bytes, larger than this build's 67108864-byte upload limit")
      else if ltb max_simple_upload_bytes (length bytes)
      then put_chunked path bytes
      else put_simple path bytes
