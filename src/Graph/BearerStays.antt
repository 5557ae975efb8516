-- ===== src/Graph/BearerStays.antt =====
-- Where the calls of src/graph.rs send a request that has an `authorization` header.
use onedrive_davfs.Base.{
  ℕ, zero, suc, ◌+◌, ◌≡◌, refl, true, false, not, Option, none, [], Bytes, bytes_eq, codes,
  Bool-cases, inl, inr, ◌⊎◌, Result, ok, err, leb, ltb, ◌==◌, min, length,
}
use onedrive_davfs.Base.Effect
use onedrive_davfs.Base.Effect.{
  Op, lift, Keeps, Keeps->>=, Keeps-lift, Keeps-pure, Keeps-fail, Keeps-if,
}
use onedrive_davfs.Base.Str.{trim}
use onedrive_davfs.Index.State.{DeltaItem}
use onedrive_davfs.Http.Message.{Method, HttpResponse}
use onedrive_davfs.Http.Send.{Wire}
use onedrive_davfs.Graph.Address.{item_url, is_https_url}
use onedrive_davfs.Graph.Request.{Env, plain, graph_request}
use onedrive_davfs.Graph.Read
use onedrive_davfs.Graph.Upload
use onedrive_davfs.Graph.Write
use onedrive_davfs.Graph.BearerSafe
use onedrive_davfs.Graph.BearerSafe.{carries_token, IsSafe, item_url-IsOrigin}

chunk_request-no_token :
    (url bytes : Bytes) (offset end : ℕ)
    → carries_token (Upload.chunk_request url bytes offset end).headers ≡ false
unfolding Upload.chunk_request plain carries_token bytes_eq
chunk_request-no_token url bytes offset end = refl

module _ {W : Type 0} (env : Env W) (P : W → Type 0)
    (handle_keeps : (w : Wire) → IsSafe w → Keeps P (env.handle w))
    (bearer_keeps : Keeps P env.bearer) where
  item-Keeps :
      {A : Type 0} (m : Method) (path suffix : Bytes) (ct : Option Bytes) (body : Bytes)
      (reply : HttpResponse → Op W A)
      → ((response : HttpResponse) → Keeps P (reply response))
      → Keeps P
          (Effect.◌>>=◌ (graph_request env m (item_url env.drive_base path suffix) ct body) reply)
  item-Keeps m path suffix ct body reply =
      BearerSafe.item-Keeps env P handle_keeps bearer_keeps m (item_url env.drive_base path suffix)
        ct body reply (item_url-IsOrigin env.drive_base path suffix)

  chunk_reply-Keeps :
      (rest : Op W (Option DeltaItem)) (offset end total : ℕ) (response : HttpResponse)
      → Keeps P rest
      → Keeps P (Upload.chunk_reply env rest offset end total response)
  unfolding Upload.chunk_reply
  chunk_reply-Keeps rest offset end total response h =
      Keeps-if P (not (Upload.accepted (end == total) response.status)) _ _ (Keeps-fail P _)
        (Keeps-if P (end == total) _ _ (Keeps-pure P _) h)

  upload_chunks-Keeps :
      (rounds size : ℕ) (url bytes : Bytes) (offset : ℕ)
      → Keeps P (Upload.upload_chunks env rounds size url bytes offset)
  unfolding Upload.upload_chunks
  upload_chunks-Keeps zero size url bytes offset =
      Keeps-if P (leb (length bytes) offset) _ _ (Keeps-pure P none) (Keeps-fail P _)
  upload_chunks-Keeps (suc rounds) size url bytes offset =
      Keeps-if P (leb (length bytes) offset) _ _ (Keeps-pure P none) (
        Keeps->>= P _ _
          (BearerSafe.request-Keeps env P handle_keeps bearer_keeps _
            (chunk_request-no_token url bytes offset (min (offset + size) (length bytes))))
          (λ response.
            chunk_reply-Keeps _ offset _ (length bytes) response
              (upload_chunks-Keeps rounds size url bytes (min (offset + size) (length bytes)))))

  or_abort-Keeps :
      (url : Bytes) (r : W × Result Bytes (Option DeltaItem))
      → P r.0
      → P (Upload.or_abort env url r).0
  unfolding Upload.or_abort carries_token
  or_abort-Keeps url (w, ok item) h = h
  or_abort-Keeps url (w, err e) h =
      (BearerSafe.plain-Keeps env P handle_keeps bearer_keeps Method.delete url [] [] refl).keep w h

  upload_to-Keeps : (url bytes : Bytes) → Keeps P (Upload.upload_to env url bytes)
  unfolding Upload.upload_to
  upload_to-Keeps url bytes = record {
    keep = λ w h. split w h (Bool-cases (not (is_https_url url)));
  }
    where
      split :
          (w : W)
          → P w
          → (not (is_https_url url) ≡ true) ⊎ (not (is_https_url url) ≡ false)
          → P (Upload.upload_to env url bytes w).0
      split w h (inl y) = rw y h
      split w h (inr n) = rw n (
          or_abort-Keeps url _
            ((upload_chunks-Keeps (length bytes) Upload.upload_chunk_bytes url bytes 0).keep w h))

  put_simple-Keeps : (path bytes : Bytes) → Keeps P (Upload.put_simple env path bytes)
  unfolding Upload.put_simple
  put_simple-Keeps path bytes =
      item-Keeps Method.put path (codes "/content") _ bytes _ (λ response. Keeps-lift P _)

  put_chunked-Keeps : (path bytes : Bytes) → Keeps P (Upload.put_chunked env path bytes)
  unfolding Upload.put_chunked
  put_chunked-Keeps path bytes =
      item-Keeps Method.post path (codes "/createUploadSession") _ _ _ (λ response.
        Keeps->>= P _ _ (Keeps-lift P (Upload.session_reply env response))
          (λ url. upload_to-Keeps (trim url) bytes))

  put_content-Keeps : (path bytes : Bytes) → Keeps P (Upload.put_content env path bytes)
  unfolding Upload.put_content
  put_content-Keeps path bytes =
      Keeps-if P (ltb Upload.max_upload_bytes (length bytes)) _ _ (Keeps-fail P _) (
        Keeps-if P (ltb Upload.max_simple_upload_bytes (length bytes)) _ _
          (put_chunked-Keeps path bytes) (put_simple-Keeps path bytes))

  create_folder-Keeps : (path name : Bytes) → Keeps P (Write.create_folder env path name)
  unfolding Write.create_folder
  create_folder-Keeps path name =
      item-Keeps Method.post path (codes "/children") _ _ _ (λ response. Keeps-lift P _)

  delete-Keeps : (path : Bytes) → Keeps P (Write.delete env path)
  unfolding Write.delete
  delete-Keeps path = item-Keeps Method.delete path [] none [] _ (λ response. Keeps-lift P _)

  move_or_rename-Keeps : (path to : Bytes) → Keeps P (Write.move_or_rename env path to)
  unfolding Write.move_or_rename
  move_or_rename-Keeps path to = item-Keeps Method.patch path [] _ _ _ (λ response. Keeps-lift P _)

  -- A property of the world that every safe request and the fetching of a token keep is kept by every
  -- call of the client, so of the requests that a call sends to the host only those to
  -- `graph.microsoft.com` carry an `authorization` header: neither the target of a redirect nor an
  -- upload session, nor a link of a page, gets that header.
  pub client-Keeps :
      (path to body : Bytes) (w : W)
      → P w
      → P (Read.stat env path w).0
        × P (Read.children env path w).0
        × P (Read.get_content env path w).0
        × P (Upload.put_content env path body w).0
        × P (Write.create_folder env path to w).0
        × P (Write.delete env path w).0
        × P (Write.move_or_rename env path to w).0
        × P (Read.delta env path w).0
  client-Keeps path to body w h = (
    (BearerSafe.stat-Keeps env P handle_keeps bearer_keeps path).keep w h,
    (BearerSafe.children-Keeps env P handle_keeps bearer_keeps path).keep w h,
    (BearerSafe.get_content-Keeps env P handle_keeps bearer_keeps path).keep w h,
    (put_content-Keeps path body).keep w h,
    (create_folder-Keeps path to).keep w h,
    (delete-Keeps path).keep w h,
    (move_or_rename-Keeps path to).keep w h,
    BearerSafe.delta-Keeps env P handle_keeps bearer_keeps path w h,
  )
