-- ===== src/Sync/Resume.antt =====
-- The state in which the crawl of src/sync.rs ends.
use mathlib.Core.List.{foldl}
use onedrive_davfs.Base.{
  ℕ, ◌+◌, ◌≤◌, ◌≡◌, refl, sym, ap, ◌∙◌, Bool, true, false, not, ◌&&◌, ◌||◌, Option, none, some,
  Option-cases, List, [], ◌∷◌, Bytes, bytes_eq_iff, ok, inl, inr, arith,
}
use onedrive_davfs.Base.Str.{is_empty}
use onedrive_davfs.Index.State.{Index, DeltaItem}
use onedrive_davfs.Index.Query.{sweep_from, sweep_orphans}
use onedrive_davfs.Sync.Crawl.{
  Crawl, World, take_items, more_pages, last_page, restart, crawl, differs, is_some, or_else,
}
use onedrive_davfs.Sync.Loop.{crawl_keeps}
use onedrive_davfs.Sync.Run.{resume_url, start, or_default}

-- While the crawl is not complete, the next run would begin at the URL that this one has next. Once it
-- is, the index says so, and no page is pending.
abbrev pub IsResumable : Bytes → Crawl → Type 0
IsResumable initial st =
    (st.complete ≡ false → resume_url initial st.idx ≡ st.url)
    × (st.complete ≡ true → (st.idx.crawl_complete ≡ true) × (st.idx.pending_next_link ≡ none))

sweep_orphans-links :
    (idx : Index)
    → ((sweep_orphans idx).crawl_complete ≡ idx.crawl_complete)
      × ((sweep_orphans idx).pending_next_link ≡ idx.pending_next_link)
      × ((sweep_orphans idx).delta_token ≡ idx.delta_token)
unfolding sweep_orphans sweep_from
sweep_orphans-links idx = elim (Option-cases idx.root) [
  | inl e ↦ rw (e, sweep_orphans) (refl, refl, refl)
  | inr (r, e) ↦ rw (e, sweep_orphans) (refl, refl, refl)
]

restart-IsResumable :
    (w : World) (st : Crawl) → IsResumable w.initial (restart w.initial w.live_usable st)
unfolding restart resume_url or_else
restart-IsResumable w st = (λ _. refl, λ f. absurd (cc))

more_pages-IsResumable :
    (initial : Bytes) (st : Crawl) (items : List DeltaItem) (next : Bytes)
    → IsResumable initial (more_pages (take_items st items) next)
unfolding more_pages take_items resume_url or_else
more_pages-IsResumable initial st items next = (λ _. refl, λ f. absurd (cc))

last_page-IsResumable :
    (initial : Bytes) (st : Crawl) (token : Option Bytes) → IsResumable initial (last_page st token)
unfolding last_page
last_page-IsResumable initial st token =
    (λ e. absurd (cc), λ _. let (done, pending, token) = sweep_orphans-links _ in (done, pending))

both_hold : (b : Bool) (o : Option Bytes) → (b && not (is_some o)) ≡ true → (b ≡ true) × (o ≡ none)
unfolding is_some
both_hold true none h = (refl, refl)
both_hold true (some a) h = cc
both_hold false o h = cc

pub start-IsResumable :
    (initial : Bytes) (stale : Bool) (live rebuild : Option Index)
    → IsResumable initial (start initial stale live rebuild)
unfolding start
start-IsResumable initial stale live rebuild = (
  λ _. refl,
  λ h. elim (Option-cases rebuild) [
    | inl e ↦
        let h' = rw (e, start) at h in
        rw (e, start)
          (both_hold (or_default live).crawl_complete (or_default live).pending_next_link h')
    | inr (r, e) ↦
        let h' = rw (e, start) at h in
        rw (e, start) (both_hold r.crawl_complete r.pending_next_link h')
  ],
)

differs-false : (a b : Option Bytes) → differs a b ≡ false → a ≡ b
unfolding differs
differs-false none none h = refl
differs-false none (some b) h = cc
differs-false (some a) none h = cc
differs-false (some a) (some b) h = ap some (ground (arith, bytes_eq_iff a b, h))

-- A crawl that is not `dirty` still has the links that it began with.
abbrev pub IsUnmoved : Index → Crawl → Type 0
IsUnmoved idx st =
    st.dirty ≡ false
    → (st.idx.pending_next_link ≡ idx.pending_next_link) × (st.idx.delta_token ≡ idx.delta_token)

all_false : (a b c : Bool) → ((a || b) || c) ≡ false → (a ≡ false) × (b ≡ false) × (c ≡ false)
all_false false false false h = (refl, refl, refl)
all_false true b c h = cc
all_false false true c h = cc
all_false false false true h = cc

or_same_token : (a b : Option Bytes) → b ≡ a → or_else a b ≡ b
unfolding or_else
or_same_token none b h = refl
or_same_token (some a) b h = sym h

not_some : (o : Option Bytes) → is_some o ≡ false → o ≡ none
unfolding is_some
not_some none h = refl
not_some (some a) h = cc

restart-IsUnmoved :
    (w : World) (idx : Index) (st : Crawl) → IsUnmoved idx (restart w.initial w.live_usable st)
unfolding restart
restart-IsUnmoved w idx st d = cc

more_pages-IsUnmoved :
    (idx : Index) (st : Crawl) (items : List DeltaItem) (next : Bytes)
    → IsUnmoved idx st
    → IsUnmoved idx (more_pages (take_items st items) next)
unfolding more_pages take_items foldl is_empty
more_pages-IsUnmoved idx st [] next h d =
    let (clean, _, same) =
      all_false st.dirty false (differs st.idx.pending_next_link (some next)) d in
    let (pending, token) = h clean in
    (sym (differs-false st.idx.pending_next_link (some next) same) ∙ pending, token)
more_pages-IsUnmoved idx st (item ∷ items) next h d = absurd (ground (arith, d))

last_page-IsUnmoved :
    (idx : Index) (st : Crawl) (items : List DeltaItem) (token : Option Bytes)
    → IsUnmoved idx st
    → IsUnmoved idx (last_page (take_items st items) token)
unfolding last_page take_items foldl is_empty
last_page-IsUnmoved idx st [] token h d =
    let (before, same, no_page) =
      all_false (st.dirty || false) (differs st.idx.delta_token token)
        (is_some st.idx.pending_next_link) d in
    let (pending, kept) = h (ground (arith, before)) in
    let (_, swept_pending, swept_token) = sweep_orphans-links (record (st.idx) {
      pending_next_link = none;
      delta_token = or_else token st.idx.delta_token;
      crawl_complete = true;
    }) in
    (
      swept_pending ∙ sym (not_some st.idx.pending_next_link no_page) ∙ pending,
      swept_token
          ∙ or_same_token token st.idx.delta_token (differs-false st.idx.delta_token token same)
          ∙ kept,
    )
last_page-IsUnmoved idx st (item ∷ items) token h d = absurd (ground (arith, d))

-- What the crawl ends in, as the conjunction of what its rounds keep.
abbrev pub Ends : Bytes → Index → Crawl → Type 0
Ends initial idx st = IsResumable initial st × IsUnmoved idx st

pub crawl-Ends :
    (w : World) (idx : Index) (left : ℕ) (st end : Crawl)
    → Ends w.initial idx st
    → crawl w left st ≡ ok end
    → Ends w.initial idx end × (end.pages ≤ st.pages + left)
crawl-Ends w idx =
    crawl_keeps w (Ends w.initial idx)
      (λ st h. (restart-IsResumable w st, restart-IsUnmoved w idx st))
      (λ st items next h. (
        more_pages-IsResumable w.initial st items next,
        more_pages-IsUnmoved idx st items next h.1,
      ))
      (λ st items token h. (
        last_page-IsResumable w.initial (take_items st items) token,
        last_page-IsUnmoved idx st items token h.1,
      ))
