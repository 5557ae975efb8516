-- ===== src/Sync/Written.antt =====
-- What a run of `run_inner` (src/sync.rs) leaves in the files.
use onedrive_davfs.Base.{
  ℕ, ◌≤◌, ◌≡◌, ◌≢◌, refl, sym, ap, ◌∙◌, subst, Bool, true, false, ◌&&◌, Option, Bool-cases, Bytes,
  Result, ok, ok-injective, ok->>=, if◌then◌else◌, inl, inr, ◌⊎◌, arith,
}
use onedrive_davfs.Index.State.{Index}
use onedrive_davfs.Sync.Crawl.{Target, index_file, rebuild_file, Page, DeltaError, Crawl, crawl}
use onedrive_davfs.Sync.Resume.{IsResumable, crawl-Ends, start-IsResumable}
use onedrive_davfs.Sync.Run.{Store, resume_url, start, is_rebuild, world, write_back, run_inner}

-- What a run that began at `begin` and ended in the state `st` leaves in the files: the index of `st` in
-- the file of its target, or, if nothing was to be saved, the files as they were, and then from the index
-- of `st` a run begins at the URL of `begin`. A complete crawl of the rebuild file is renamed over the
-- live file, and no other is.
pub record IsWritten {F : Type 0} (s : Store F) (initial : Bytes) (begin st : Crawl)
    (files written : F) : Type 0 where
  pub saved : F
  pub kept :
      ((st.dirty ≡ true) × (s.save st.target st.idx files ≡ ok saved))
      ⊎ ((st.dirty ≡ false) × (saved ≡ files) × (resume_url initial st.idx ≡ begin.url))
  pub renamed :
      ((st.complete ≡ true) × (st.target ≡ rebuild_file) × (s.rename_over saved ≡ ok written))
      ⊎ ((written ≡ saved) × ((st.complete ≡ true) → st.target ≢ rebuild_file))

module _ {F : Type 0} (s : Store F) (initial : Bytes) (st : Crawl) where
  saved_as :
      (files saved : F)
      → (if st.dirty then s.save st.target st.idx files else ok files) ≡ ok saved
      → ((st.dirty ≡ true) × (s.save st.target st.idx files ≡ ok saved))
        ⊎ ((st.dirty ≡ false) × (saved ≡ files))
  saved_as files saved e = elim (Bool-cases st.dirty) [
    | inl y ↦ inl (y, rw y at e)
    | inr n ↦ inr (n, sym (ok-injective (rw n at e)))
  ]

  renamed_as :
      (target : Target) (saved written : F)
      → (if st.complete && is_rebuild target then s.rename_over saved else ok saved) ≡ ok written
      → ((st.complete ≡ true) × (target ≡ rebuild_file) × (s.rename_over saved ≡ ok written))
        ⊎ ((written ≡ saved) × ((st.complete ≡ true) → target ≢ rebuild_file))
  unfolding is_rebuild
  renamed_as rebuild_file saved written e = elim (Bool-cases st.complete) [
    | inl y ↦ inl (y, refl, rw y at e)
    | inr n ↦ inr (sym (ok-injective (rw n at e)), λ y. absurd (cc))
  ]
  renamed_as index_file saved written e = elim (Bool-cases st.complete) [
    | inl y ↦ inr (sym (ok-injective (rw y at e)), λ _ same. cc)
    | inr n ↦ inr (sym (ok-injective (rw n at e)), λ _ same. cc)
  ]

-- `begins` is what `run_inner` says of a crawl that has nothing to save.
write_back-IsWritten :
    {F : Type 0} (s : Store F) (initial : Bytes) (budget : ℕ) (elapsed : ℕ → ℕ)
    (delta : ℕ → Bytes → Result DeltaError Page) (begin st : Crawl) (files written : F)
    → (st.dirty ≡ false → resume_url initial st.idx ≡ begin.url)
    → write_back s initial budget elapsed delta st files ≡ ok written
    → IsWritten s initial begin st files written
unfolding write_back
write_back-IsWritten s initial budget elapsed delta begin st files written begins e =
    let (out, renaming, saving) =
      ok->>= _ (if st.dirty then s.save st.target st.idx files else ok files) e in
    record {
      saved = out;
      kept = elim (saved_as s initial st files out saving) [
        | inl h ↦ inl h
        | inr (clean, same) ↦ inr (clean, same, begins clean)
      ];
      renamed = renamed_as s initial st st.target out written renaming;
    }

start-url :
    (initial : Bytes) (stale : Bool) (live rebuild : Option Index)
    → (start initial stale live rebuild).url
      ≡ resume_url initial (start initial stale live rebuild).idx
unfolding start
start-url initial stale live rebuild = refl

same_links :
    (initial : Bytes) (a b : Index)
    → a.pending_next_link ≡ b.pending_next_link
    → a.delta_token ≡ b.delta_token
    → resume_url initial a ≡ resume_url initial b
unfolding resume_url
same_links initial a b pending token = rw pending (rw token refl)

-- Whatever the files hold and the server replies, a run that ends without an error has read at most
-- `max_pages` pages. It saves the index of its last state in the file of its target, or it saves nothing,
-- and then from that index a run begins at the URL at which this one did; after that, a complete crawl of
-- the rebuild file, and no other, is renamed over the live file. From the index of the last state a run
-- begins at the URL that this one had next, or, if the crawl is complete, the index says so and no page
-- is pending. Which of two files the next run loads is not spoken of.
pub run_inner-IsWritten :
    {F : Type 0} (s : Store F) (initial : Bytes) (budget : ℕ) (elapsed : ℕ → ℕ)
    (delta : ℕ → Bytes → Result DeltaError Page) (max_pages : ℕ) (files written : F) (st : Crawl)
    → run_inner s initial budget elapsed delta max_pages files ≡ ok (st, written)
    → (st.pages ≤ max_pages)
      × IsResumable initial st
      × ((live : Option Index) × (rebuild : Option Index) × (s.load index_file files ≡ ok live)
          × (s.load rebuild_file files ≡ ok rebuild)
          × IsWritten s initial (start initial (s.stale files) live rebuild) st files written)
unfolding run_inner
run_inner-IsWritten s initial budget elapsed delta max_pages files written st e =
    let (live, e1, l) = ok->>= _ (s.load index_file files) e in
    let (rebuild, e2, b) = ok->>= _ (s.load rebuild_file files) e1 in
    let begin = start initial (s.stale files) live rebuild in
    let w = world s initial budget elapsed delta files in
    let (end, e3, c) = ok->>= _ (crawl w max_pages begin) e2 in
    let (out, e4, k) = ok->>= _ (write_back s initial budget elapsed delta end files) e3 in
    let ((resumable, unmoved), le) =
      crawl-Ends w begin.idx max_pages begin end
        (start-IsResumable initial (s.stale files) live rebuild, λ _. (refl, refl)) c in
    let same : end ≡ st = ap (λ p. p.0) (ok-injective e4) in
    let goes_out : out ≡ written = ap (λ p. p.1) (ok-injective e4) in
    let begins = λ (clean : end.dirty ≡ false).
      let (pending, token) = unmoved clean in
      same_links initial end.idx begin.idx pending token
      ∙ sym (start-url initial (s.stale files) live rebuild) in
    let result = write_back-IsWritten s initial budget elapsed delta begin end files out begins k in
    subst
      (λ x.
        (x.pages ≤ max_pages)
        × IsResumable initial x
        × ((live : Option Index) × (rebuild : Option Index) × (s.load index_file files ≡ ok live)
            × (s.load rebuild_file files ≡ ok rebuild)
            × IsWritten s initial (start initial (s.stale files) live rebuild) x files written))
      same
      (
        omega (arith, le),
        resumable,
        (live, rebuild, l, b, subst (IsWritten s initial begin end files) goes_out result),
      )
