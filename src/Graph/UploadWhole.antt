-- ===== src/Graph/UploadWhole.antt =====
-- What the server has received after an upload of src/graph.rs.
use mathlib.Core.List.{flatten}
use onedrive_davfs.Base.{
  ℕ, zero, suc, ◌+◌, ◌-◌, ◌≤◌, ◌≡◌, refl, sym, ap, ◌∙◌, true, not, Bool-cases, Option, [], ◌∷◌,
  ◌++◌, append_assoc, append-nil, Bytes, codes, drop, take, length, take-append-drop, Result, ok,
  err, inl, inr, arith, leb, ltb, ◌==◌, min,
}
use onedrive_davfs.Base.Bits.{slice, drop-drop}
use onedrive_davfs.Base.Str.{trim}
use onedrive_davfs.Base.Effect
use onedrive_davfs.Base.Effect.{Op, lift, proceed, proceed-ok}
use onedrive_davfs.Index.State.{DeltaItem}
use onedrive_davfs.Http.Message.{Method, HttpRequest, HttpResponse, split_url}
use onedrive_davfs.Http.Send.{Wire, wire, send, write_chunk}
use onedrive_davfs.Http.Chunks.{chunks-flatten}
use onedrive_davfs.Graph.Address.{is_https_url}
use onedrive_davfs.Graph.Request.{Env, graph_request, authorized, plain}
use onedrive_davfs.Graph.Upload

drop-all : (n : ℕ) (xs : Bytes) → length xs ≤ n → drop n xs ≡ []
drop-all zero [] h = refl
drop-all (suc n) [] h = refl
drop-all zero (x ∷ xs) h = absurd (omega (arith, h))
drop-all (suc n) (x ∷ xs) h = drop-all n xs (omega (arith, h))

slice-drop :
    (start end : ℕ) (xs : Bytes) → start ≤ end → slice start end xs ++ drop end xs ≡ drop start xs
unfolding slice
slice-drop start end xs h =
    let e : start + (end - start) ≡ end = omega (arith, h) in
    ap (λ k. take (end - start) (drop start xs) ++ drop k xs) (sym e)
    ∙ ap (λ t. take (end - start) (drop start xs) ++ t) (drop-drop start (end - start) xs)
    ∙ take-append-drop (end - start) (drop start xs)

-- What a request adds to what the server has of the file.
abbrev pub adds : Method → Bytes → Bytes
adds Method.put body = body
adds Method.get body = []
adds Method.post body = []
adds Method.patch body = []
adds Method.delete body = []

module _ {W : Type 0} (env : Env W) (received : W → Bytes)
    (handle_receives : (m : Wire) (w v : W) (response : HttpResponse)
      → env.handle m w ≡ (v, ok response)
      → received v ≡ received w ++ adds m.method (flatten m.chunks))
    (bearer_receives : (w v : W) (bearer : Bytes)
      → env.bearer w ≡ (v, ok bearer)
      → received v ≡ received w) where
  send_receives :
      (req : HttpRequest) (w v : W) (response : HttpResponse)
      → send env.handle req w ≡ (v, ok response)
      → received v ≡ received w ++ adds req.method req.body
  unfolding send wire
  send_receives req w v response h =
      let (u, parts, first, last) =
        proceed-ok (λ parts. env.handle (wire req parts)) (w, split_url req.url) v response h in
      let same : w ≡ u = ap (λ p. p.0) first in
      let got = handle_receives (wire req parts) u v response last in
      got
      ∙ ap (λ t. received u ++ adds req.method t)
          (chunks-flatten write_chunk req.body (omega arith))
      ∙ ap (λ t. received t ++ adds req.method req.body) (sym same)

  request_receives :
      (m : Method) (url : Bytes) (ct : Option Bytes) (body : Bytes) (w v : W)
      (response : HttpResponse)
      → graph_request env m url ct body w ≡ (v, ok response)
      → received v ≡ received w ++ adds m body
  unfolding graph_request authorized
  request_receives m url ct body w v response h =
      let (u, bearer, first, last) =
        proceed-ok (λ b. send env.handle (authorized b m url ct body)) (env.bearer w) v response
          h in
      send_receives (authorized bearer m url ct body) u v response last
      ∙ ap (λ t. t ++ adds m body) (bearer_receives w u bearer first)

  chunk_reply_receives :
      (rest : Op W (Option DeltaItem)) (offset end : ℕ) (bytes : Bytes) (response : HttpResponse)
      (v w' : W) (item : Option DeltaItem)
      → ((item : Option DeltaItem)
          → rest v ≡ (w', ok item)
          → received w' ≡ received v ++ drop end bytes)
      → Upload.chunk_reply env rest offset end (length bytes) response v ≡ (w', ok item)
      → received w' ≡ received v ++ drop end bytes
  unfolding Upload.chunk_reply
  chunk_reply_receives rest offset end bytes response v w' item k h =
      elim (Bool-cases (Upload.accepted (end == length bytes) response.status)) [
        | inr n ↦ let e = ap (λ p. p.1) (rw n at h) in cc
        | inl y ↦ elim (Bool-cases (end == length bytes)) [
          | inr n ↦ k item (rw (y, n) at h)
          | inl last ↦
              let same : v ≡ w' = ap (λ p. p.0) (rw (y, last) at h) in
              ap received (sym same)
              ∙ sym (append-nil (received v))
              ∙ ap (λ t. received v ++ t) (sym (drop-all end bytes (ground (arith, last))))
        ]
      ]

  -- Nothing is left to send.
  done_receives :
      (bytes : Bytes) (offset : ℕ) (w w' : W)
      → leb (length bytes) offset ≡ true
      → w ≡ w'
      → received w' ≡ received w ++ drop offset bytes
  done_receives bytes offset w w' done same =
      ap received (sym same)
      ∙ sym (append-nil (received w))
      ∙ ap (λ t. received w ++ t) (sym (drop-all offset bytes (ground (arith, done))))

  chunk_receives :
      (url bytes : Bytes) (offset end : ℕ) (w v : W) (response : HttpResponse)
      → send env.handle (Upload.chunk_request url bytes offset end) w ≡ (v, ok response)
      → received v ≡ received w ++ slice offset end bytes
  unfolding Upload.chunk_request plain
  chunk_receives url bytes offset end w v response h =
      send_receives (Upload.chunk_request url bytes offset end) w v response h

  upload_chunks_receives :
      (rounds size : ℕ) (url bytes : Bytes) (offset : ℕ) (w w' : W) (item : Option DeltaItem)
      → Upload.upload_chunks env rounds size url bytes offset w ≡ (w', ok item)
      → received w' ≡ received w ++ drop offset bytes
  unfolding Upload.upload_chunks
  upload_chunks_receives zero size url bytes offset w w' item h =
      elim (Bool-cases (leb (length bytes) offset)) [
        | inl done ↦ done_receives bytes offset w w' done (ap (λ p. p.0) (rw done at h))
        | inr more ↦ let e = ap (λ p. p.1) (rw more at h) in cc
      ]
  upload_chunks_receives (suc rounds) size url bytes offset w w' item h =
      elim (Bool-cases (leb (length bytes) offset)) [
        | inl done ↦ done_receives bytes offset w w' done (ap (λ p. p.0) (rw done at h))
        | inr more ↦
            let end : ℕ = min (offset + size) (length bytes) in
            let next : HttpResponse → Op W (Option DeltaItem) = λ response.
              Upload.chunk_reply env (Upload.upload_chunks env rounds size url bytes end) offset end
                (length bytes) response in
            let h' : proceed next (send env.handle (Upload.chunk_request url bytes offset end) w)
                ≡ (w', ok item) =
              rw more at h in
            let (v, response, first, last) = proceed-ok next _ w' item h' in
            let rest =
              chunk_reply_receives (Upload.upload_chunks env rounds size url bytes end) offset end
                bytes response v w' item
                (λ i q. upload_chunks_receives rounds size url bytes end v w' i q) last in
            rest
            ∙ ap (λ t. t ++ drop end bytes) (chunk_receives url bytes offset end w v response first)
            ∙ append_assoc (received w) (slice offset end bytes) (drop end bytes)
            ∙ ap (λ t. received w ++ t) (slice-drop offset end bytes (ground (arith, more)))
      ]

  or_abort_ok :
      (url : Bytes) (r : W × Result Bytes (Option DeltaItem)) (w' : W) (item : Option DeltaItem)
      → Upload.or_abort env url r ≡ (w', ok item)
      → r ≡ (w', ok item)
  unfolding Upload.or_abort
  or_abort_ok url (w, ok i) w' item h = h
  or_abort_ok url (w, err e) w' item h = let e' = ap (λ p. p.1) h in cc

  upload_to_receives :
      (url bytes : Bytes) (w w' : W) (item : Option DeltaItem)
      → Upload.upload_to env url bytes w ≡ (w', ok item)
      → received w' ≡ received w ++ bytes
  unfolding Upload.upload_to
  upload_to_receives url bytes w w' item h = elim (Bool-cases (not (is_https_url url))) [
    | inl bad ↦ let e = ap (λ p. p.1) (rw bad at h) in cc
    | inr good ↦
        upload_chunks_receives (length bytes) Upload.upload_chunk_bytes url bytes 0 w w' item
          (or_abort_ok url _ w' item (rw good at h))
  ]

  put_simple_receives :
      (path bytes : Bytes) (w w' : W) (item : Option DeltaItem)
      → Upload.put_simple env path bytes w ≡ (w', ok item)
      → received w' ≡ received w ++ bytes
  unfolding Upload.put_simple
  put_simple_receives path bytes w w' item h =
      let (v, response, first, last) =
        proceed-ok (λ response. lift (Upload.item_reply env (codes "graph put_content") response)) _
          w' item h in
      let same : v ≡ w' = ap (λ p. p.0) last in
      ap received (sym same) ∙ request_receives Method.put _ _ bytes w v response first

  after_session : Bytes → HttpResponse → Op W (Option DeltaItem)
  after_session bytes response =
      Effect.◌>>=◌ (lift (Upload.session_reply env response))
        (λ url. Upload.upload_to env (trim url) bytes)

  put_chunked_receives :
      (path bytes : Bytes) (w w' : W) (item : Option DeltaItem)
      → Upload.put_chunked env path bytes w ≡ (w', ok item)
      → received w' ≡ received w ++ bytes
  unfolding Upload.put_chunked after_session
  put_chunked_receives path bytes w w' item h =
      let (v, response, first, last) = proceed-ok (after_session bytes) _ w' item h in
      let (u, url, second, third) =
        proceed-ok (λ url. Upload.upload_to env (trim url) bytes) _ w' item last in
      let same : v ≡ u = ap (λ p. p.0) second in
      upload_to_receives (trim url) bytes u w' item third
      ∙ ap (λ t. received t ++ bytes) (sym same)
      ∙ ap (λ t. t ++ bytes)
          (request_receives Method.post _ _ _ w v response first ∙ append-nil (received w))

  -- When `put_content` succeeds, the server has received the whole content in order, once, and nothing else
  -- by PUT, whether it went in one request or through an upload session: `received` is any account of the
  -- world to which a PUT that is answered adds its body, and which no other answered request and no
  -- fetching of a token changes.
  pub put_content_receives :
      (path bytes : Bytes) (w w' : W) (item : Option DeltaItem)
      → Upload.put_content env path bytes w ≡ (w', ok item)
      → received w' ≡ received w ++ bytes
  unfolding Upload.put_content
  put_content_receives path bytes w w' item h =
      elim (Bool-cases (ltb Upload.max_upload_bytes (length bytes))) [
        | inl big ↦ let e = ap (λ p. p.1) (rw big at h) in cc
        | inr fits ↦ elim (Bool-cases (ltb Upload.max_simple_upload_bytes (length bytes))) [
          | inl large ↦ put_chunked_receives path bytes w w' item (rw (fits, large) at h)
          | inr small ↦ put_simple_receives path bytes w w' item (rw (fits, small) at h)
        ]
      ]
