-- ===== src/Sync/Loop.antt =====
-- What every round of the crawl of src/sync.rs keeps, the whole crawl keeps.
use onedrive_davfs.Base.{
  ℕ, zero, suc, ◌+◌, ◌≤◌, ◌≡◌, refl, subst, false, Option, Option-cases, Bool-cases, Bytes, List,
  Result, ok, err, ok-injective, inl, inr, arith,
}
use onedrive_davfs.Index.State.{DeltaItem}
use onedrive_davfs.Sync.Crawl.{
  Page, DeltaError, resync, other, Crawl, World, take_items, more_pages, last_page, restart,
  over_budget, crawl,
}

module _ (w : World) (P : Crawl → Type 0)
    (again : (st : Crawl) → P st → P (restart w.initial w.live_usable st))
    (more : (st : Crawl) (items : List DeltaItem) (next : Bytes)
      → P st
      → P (more_pages (take_items st items) next))
    (last : (st : Crawl) (items : List DeltaItem) (token : Option Bytes)
      → P st
      → P (last_page (take_items st items) token)) where
  -- One round, given what the rest of the crawl does.
  round_keeps :
      (left : ℕ) (st end : Crawl)
      → ((next : Crawl)
          → P next
          → crawl w left next ≡ ok end
          → P end × (end.pages ≤ next.pages + left))
      → (reply : Result DeltaError Page) → w.delta st.pages st.url ≡ reply
      → over_budget w st ≡ false
      → P st
      → crawl w (suc left) st ≡ ok end
      → P end × (end.pages ≤ st.pages + suc left)
  unfolding crawl restart more_pages take_items last_page
  round_keeps left st end rest (err resync) d o h e =
      let (r, le) = rest (restart w.initial w.live_usable st) (again st h) (rw (o, d) at e) in
      (r, omega (arith, le))
  round_keeps left st end rest (err (other x)) d o h e = absurd (ground (arith, d, o, e))
  round_keeps left st end rest (ok page) d o h e = elim (Option-cases page.next_link) [
    | inr (next, n) ↦
        let (r, le) =
          rest (more_pages (take_items st page.items) next) (more st page.items next h)
            (rw (o, d, n) at e) in
        (r, omega (arith, le))
    | inl n ↦
        subst (λ x. P x × (x.pages ≤ st.pages + suc left)) (ok-injective (rw (o, d, n) at e))
          (last st page.items page.delta_token h, omega arith)
  ]

  -- A crawl of at most `left` pages that ends without an error keeps `P`, and counts at most `left`.
  pub crawl_keeps :
      (left : ℕ) (st end : Crawl)
      → P st
      → crawl w left st ≡ ok end
      → P end × (end.pages ≤ st.pages + left)
  unfolding crawl
  crawl_keeps zero st end h e =
      subst (λ x. P x × (x.pages ≤ st.pages + 0)) (ok-injective e) (h, omega arith)
  crawl_keeps (suc left) st end h e = elim (Bool-cases (over_budget w st)) [
    | inl y ↦
        subst (λ x. P x × (x.pages ≤ st.pages + suc left)) (ok-injective (rw y at e))
          (h, omega arith)
    | inr n ↦
        round_keeps left st end (λ next. crawl_keeps left next end) (w.delta st.pages st.url) refl n
          h e
  ]
