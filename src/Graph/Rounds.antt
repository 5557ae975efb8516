-- ===== src/Graph/Rounds.antt =====
-- The loops of src/graph.rs end: more rounds than those given make no difference.
use mathlib.Core.Path.{fun_ext}
use onedrive_davfs.Base.{
  ℕ, zero, suc, ◌+◌, ◌≤◌, ◌≡◌, refl, sym, ap, ◌∙◌, true, Bool-cases, Option, none, some, List, [],
  ◌++◌, map, Bytes, codes, length, inl, inr, arith, leb, min, if◌then◌else◌,
}
use onedrive_davfs.Base.Effect
use onedrive_davfs.Base.Effect.{Op, lift}
use onedrive_davfs.Http.Message.{Method}
use onedrive_davfs.Http.Send.{send}
use onedrive_davfs.Graph.Address.{item_url}
use onedrive_davfs.Graph.Item.{GraphItem, to_item}
use onedrive_davfs.Graph.Links.{validate_next_link, max_children_pages}
use onedrive_davfs.Graph.Request.{Env, graph_request}
use onedrive_davfs.Graph.Read
use onedrive_davfs.Graph.Upload

module _ {W : Type 0} (env : Env W) where
  -- Nothing is left to send, so no round is needed.
  upload_done :
      (rounds size : ℕ) (url bytes : Bytes) (offset : ℕ)
      → leb (length bytes) offset ≡ true
      → Upload.upload_chunks env rounds size url bytes offset ≡ Effect.pure none
  unfolding Upload.upload_chunks
  upload_done zero size url bytes offset h = rw h refl
  upload_done (suc rounds) size url bytes offset h = rw h refl

  -- The loop over the chunks of an upload is the same function with any more rounds than there are bytes
  -- left, so it never runs out of the rounds that `put_chunked` gives it, as many as the file has bytes.
  pub upload_rounds :
      (rounds extra size : ℕ) (url bytes : Bytes) (offset : ℕ)
      → 1 ≤ size
      → length bytes ≤ offset + rounds
      → Upload.upload_chunks env (rounds + extra) size url bytes offset
        ≡ Upload.upload_chunks env rounds size url bytes offset
  unfolding Upload.upload_chunks
  upload_rounds zero extra size url bytes offset s h =
      let done : leb (length bytes) offset ≡ true = ground (arith, h) in
      upload_done (0 + extra) size url bytes offset done
      ∙ sym (upload_done 0 size url bytes offset done)
  upload_rounds (suc rounds) extra size url bytes offset s h =
      let e : suc rounds + extra ≡ suc (rounds + extra) = omega arith in
      ap (λ k. Upload.upload_chunks env k size url bytes offset) e
      ∙ elim (Bool-cases (leb (length bytes) offset)) [
        | inl done ↦
            upload_done (suc (rounds + extra)) size url bytes offset done
            ∙ sym (upload_done (suc rounds) size url bytes offset done)
        | inr more ↦
            let end : ℕ = min (offset + size) (length bytes) in
            ap
              (λ rest.
                if leb (length bytes) offset
                then Effect.pure none
                else Effect.◌>>=◌ (send env.handle (Upload.chunk_request url bytes offset end))
                    (Upload.chunk_reply env rest offset end (length bytes)))
              (upload_rounds rounds extra size url bytes end s (ground (arith, more, h, s)))
      ]

  -- A link is only followed while fewer than 500 pages are read.
  next_page_same :
      (rest other : Bytes → Op W (List GraphItem)) (items : List GraphItem) (pages : ℕ)
      (link : Option Bytes)
      → ((pages + 1 ≤ 500) → (next : Bytes) → rest next ≡ other next)
      → Read.next_page env rest items pages link ≡ Read.next_page env other items pages link
  unfolding Read.next_page
  next_page_same rest other items pages none h = refl
  next_page_same rest other items pages (some next) h =
      elim (Bool-cases (leb max_children_pages pages)) [
        | inl full ↦ rw (validate_next_link, full) refl
        | inr more ↦
            let same : rest ≡ other = fun_ext (λ next. h (ground (arith, more)) next) in
            ap (λ r. Effect.◌>>=◌ (lift (validate_next_link next pages)) r) same
      ]

  children_pages_same :
      (rounds extra : ℕ) (url : Bytes) (items : List GraphItem) (pages : ℕ)
      → 1 ≤ rounds
      → 500 ≤ pages + rounds
      → Read.children_pages env (rounds + extra) url items pages
        ≡ Read.children_pages env rounds url items pages
  unfolding Read.children_pages
  children_pages_same zero extra url items pages r h = absurd (omega (arith, r))
  children_pages_same (suc rounds) extra url items pages r h =
      let e : suc rounds + extra ≡ suc (rounds + extra) = omega arith in
      ap (λ k. Read.children_pages env k url items pages) e
      ∙ ap (λ f. Effect.◌>>=◌ (graph_request env Method.get url none []) f)
          (fun_ext (λ response.
            ap (λ f. Effect.◌>>=◌ (lift (Read.page_reply env response)) f)
              (fun_ext (λ page.
                next_page_same _ _ (items ++ map to_item page.items) (pages + 1) page.next_link
                  (λ le next.
                    children_pages_same rounds extra next (items ++ map to_item page.items)
                      (pages + 1) (omega (arith, le, h)) (omega (arith, h)))))))

  -- The listing of a directory reads at most 500 pages, however the links of the pages go on: with any
  -- more rounds than these the loop gives the same.
  pub children_rounds :
      (extra : ℕ) (path : Bytes)
      → Read.children_pages env
          (500 + extra)
          (item_url env.drive_base path (codes "/children?$top=200"))
          []
          0
        ≡ Read.children env path
  unfolding Read.children
  children_rounds extra path = children_pages_same 500 extra _ [] 0 (omega arith) (omega arith)
