-- ===== src/Dav/WriteThrough.antt =====
-- What the writing handlers of src/dav.rs do to the saved index.
use onedrive_davfs.Base.{
  ℕ, ◌≡◌, ◌≢◌, refl, ◌∙◌, Bool, true, false, Option, none, some, Bool-cases, [], Bytes, length, ltb,
  Result, ok, err, inl, inr, ◌⊎◌, subst, sym,
}
use onedrive_davfs.Base.Effect.{Keeps}
use onedrive_davfs.Index.State.{Index, DeltaItem, ItemMeta}
use onedrive_davfs.Index.Apply.{apply}
use onedrive_davfs.Index.Query.{resolve}
use onedrive_davfs.Index.Links.{IsConsistent}
use onedrive_davfs.Index.ApplyConsistent.{apply-IsConsistent}
use onedrive_davfs.Index.Write.{upsert_at_path, move_at_path}
use onedrive_davfs.Index.WriteConsistent.{
  upsert_at_path-IsConsistent, move_at_path-IsConsistent, remove_at_path-IsConsistent,
}
use onedrive_davfs.Sync.Crawl.{is_some}
use onedrive_davfs.Http.Send.{Wire}
use onedrive_davfs.Graph.BearerSafe.{IsSafe}
use onedrive_davfs.Graph.BearerStays.{client-Keeps}
use onedrive_davfs.Graph.Request.{Env}
use onedrive_davfs.Graph.Upload
use onedrive_davfs.Graph.Upload.{max_upload_bytes}
use onedrive_davfs.Graph.Write
use onedrive_davfs.Dav.Response.{parent_of}
use onedrive_davfs.Dav.Read.{Disk}
use onedrive_davfs.Dav.Write.{
  apply_or, apply_or_upsert, apply_or_move, new_file, new_folder, folder_name, save_changed, mutate,
  write_through, answered, put, mkcol, delete, move,
}

-- The item is not the drive's root.
abbrev pub NotRoot : Result Bytes (Option DeltaItem) → Type 0
NotRoot r = (it : DeltaItem) → r ≡ ok (some it) → it.is_root ≢ true

abbrev Preserves : (Index → Index × Bool) → Type 0
Preserves f = (idx : Index) → IsConsistent idx → IsConsistent (f idx).0

apply_or-IsConsistent :
    (otherwise : Index → Index × Bool) (path : Bytes) (item : Option DeltaItem)
    → Preserves otherwise
    → NotRoot (ok item)
    → Preserves (λ idx. apply_or otherwise path idx item)
unfolding apply_or
apply_or-IsConsistent otherwise path none h k idx c = h idx c
apply_or-IsConsistent otherwise path (some it) h k idx c =
    let applied = apply-IsConsistent idx it c (λ r. absurd (k it refl r)) in
    elim (Bool-cases (is_some (resolve (apply idx it) path))) [
      | inl y ↦ rw y applied
      | inr n ↦ rw n (h (apply idx it) applied)
    ]

-- The index that loads, where one does, is consistent.
abbrev pub IsSound : {W : Type 0} → Disk W → W → Type 0
IsSound disk w = (idx : Index) → disk.load w ≡ ok (some idx) → IsConsistent idx

-- A handler leaves the world as its calls of Graph left it, or saves in it, once, a consistent index that
-- comes from the one that was there.
abbrev pub IsSaved : {W : Type 0} → Disk W → W → W → Type 0
IsSaved disk called after =
    (after ≡ called)
    ⊎ ((before : Index) × (idx : Index) × (disk.load called ≡ ok (some before))
        × IsConsistent idx
        × (after ≡ disk.save idx called))

module _ {W : Type 0} (env : Env W) (disk : Disk W) where
  write_through-IsSaved :
      (f : Index → Index × Bool) (w : W)
      → Preserves f
      → IsSound disk w
      → IsSaved disk w (write_through env disk f w)
  unfolding write_through mutate
  write_through-IsSaved f w k h = elim (Bool-cases disk.index_enabled) [
    | inr off ↦ rw off (inl refl)
    | inl enabled ↦ rw enabled (loaded (disk.load w) refl)
  ]
    where
      changed :
          (idx : Index) (r : Index × Bool)
          → disk.load w ≡ ok (some idx)
          → IsConsistent r.0
          → IsSaved disk w (save_changed env disk w r)
      changed idx (after, true) q c = inr (idx, after, q, c, unfold save_changed in refl)
      changed idx (after, false) q c = inl (unfold save_changed in refl)

      loaded :
          (r : Result Bytes (Option Index)) → disk.load w ≡ r → IsSaved disk w (mutate env disk f w)
      loaded (err e) q = rw (mutate, q) (inl refl)
      loaded (ok none) q = rw (mutate, q) (inl refl)
      loaded (ok (some idx)) q =
          let eq : mutate env disk f w ≡ save_changed env disk w (f idx) = rw (mutate, q) refl in
          subst (IsSaved disk w) (sym eq) (changed idx (f idx) q (k idx (h idx q)))

  answered-IsSaved :
      {A : Type 0} (status : ℕ) (f : A → Index → Index × Bool) (r : W × Result Bytes A)
      → ((a : A) → r.1 ≡ ok a → Preserves (f a))
      → IsSound disk r.0
      → IsSaved disk r.0 (answered env disk status f r).0
  unfolding answered
  answered-IsSaved status f (w, ok a) k h = write_through-IsSaved (f a) w (k a refl) h
  answered-IsSaved status f (w, err e) k h = inl refl

  -- The two ways in which a handler brings the item of an answer into the index.
  upserts :
      (r : Result Bytes (Option DeltaItem)) (path : Bytes) (meta : ItemMeta)
      → NotRoot r
      → (item : Option DeltaItem) → r ≡ ok item
      → Preserves (λ idx. apply_or_upsert idx item path meta)
  unfolding apply_or_upsert
  upserts r path meta k item q =
      apply_or-IsConsistent (λ i. upsert_at_path i path meta) path item
        (λ i c. upsert_at_path-IsConsistent i path meta c) (λ it e. k it (q ∙ e))

  moves :
      (r : Result Bytes (Option DeltaItem)) (path to : Bytes)
      → NotRoot r
      → (item : Option DeltaItem) → r ≡ ok item
      → Preserves (λ idx. apply_or_move idx item path to)
  unfolding apply_or_move
  moves r path to k item q =
      apply_or-IsConsistent (λ i. move_at_path i path to) to item
        (λ i c. move_at_path-IsConsistent i path to c) (λ it e. k it (q ∙ e))

  module _ (handle_keeps : (w : Wire) → IsSafe w → Keeps (IsSound disk) (env.handle w))
      (bearer_keeps : Keeps (IsSound disk) env.bearer) where
    put-IsSaved :
        (path body : Bytes) (w : W)
        → NotRoot (Upload.put_content env path body w).1
        → IsSound disk w
        → ((put env disk path body w).0 ≡ w)
          ⊎ IsSaved disk (Upload.put_content env path body w).0 (put env disk path body w).0
    unfolding put
    put-IsSaved path body w k h = elim (Bool-cases (ltb max_upload_bytes (length body))) [
      | inl y ↦ inl (rw y refl)
      | inr n ↦ inr (
          rw n (
            answered-IsSaved 201 _ (Upload.put_content env path body w)
              (upserts _ path (new_file (length body)) k)
              (client-Keeps env (IsSound disk) handle_keeps bearer_keeps path [] body w h).3))
    ]

    mkcol-IsSaved :
        (path : Bytes) (w : W)
        → NotRoot (Write.create_folder env (parent_of path) (folder_name path) w).1
        → IsSound disk w
        → IsSaved disk
            (Write.create_folder env (parent_of path) (folder_name path) w).0
            (mkcol env disk path w).0
    unfolding mkcol
    mkcol-IsSaved path w k h =
        answered-IsSaved 201 _ (Write.create_folder env (parent_of path) (folder_name path) w)
          (upserts _ path new_folder k)
          (client-Keeps env (IsSound disk) handle_keeps bearer_keeps (parent_of path)
            (folder_name path) [] w h).4

    delete-IsSaved :
        (path : Bytes) (w : W)
        → IsSound disk w
        → IsSaved disk (Write.delete env path w).0 (delete env disk path w).0
    unfolding delete
    delete-IsSaved path w h =
        answered-IsSaved 204 _ (Write.delete env path w)
          (λ done q idx c. remove_at_path-IsConsistent idx path c)
          (client-Keeps env (IsSound disk) handle_keeps bearer_keeps path [] [] w h).5

    move-IsSaved :
        (path to : Bytes) (w : W)
        → NotRoot (Write.move_or_rename env path to w).1
        → IsSound disk w
        → IsSaved disk (Write.move_or_rename env path to w).0 (move env disk path to w).0
    unfolding move
    move-IsSaved path to w k h =
        answered-IsSaved 201 _ (Write.move_or_rename env path to w) (moves _ path to k)
          (client-Keeps env (IsSound disk) handle_keeps bearer_keeps path to [] w h).6

    -- PUT, MKCOL, DELETE and MOVE save no other than a consistent index, whatever Graph answers, so long as
    -- its answers to the three that give an item are not the drive's root: each leaves the files as its
    -- calls of Graph left them, or saves in them, once, an index that is consistent, provided that the
    -- saved index loads as a consistent one, where it loads at all, and that neither the requests nor the
    -- token change that. A PUT may also change nothing at all. That what is saved loads as a consistent
    -- index again is not claimed.
    pub handlers-IsSaved :
        (path to body : Bytes) (w : W)
        → NotRoot (Upload.put_content env path body w).1
        → NotRoot (Write.create_folder env (parent_of path) (folder_name path) w).1
        → NotRoot (Write.move_or_rename env path to w).1
        → IsSound disk w
        → (((put env disk path body w).0 ≡ w)
            ⊎ IsSaved disk (Upload.put_content env path body w).0 (put env disk path body w).0)
          × IsSaved disk
              (Write.create_folder env (parent_of path) (folder_name path) w).0
              (mkcol env disk path w).0
          × IsSaved disk (Write.delete env path w).0 (delete env disk path w).0
          × IsSaved disk (Write.move_or_rename env path to w).0 (move env disk path to w).0
    handlers-IsSaved path to body w put_item folder_item moved_item h = (
      put-IsSaved path body w put_item h,
      mkcol-IsSaved path w folder_item h,
      delete-IsSaved path w h,
      move-IsSaved path to w moved_item h,
    )
