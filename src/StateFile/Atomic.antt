-- ===== src/StateFile/Atomic.antt =====
-- What `write_file` and `write_atomic` of src/state_file.rs leave in the files.
use onedrive_davfs.Base.{
  ℕ, zero, suc, ◌+◌, ◌≤◌, ◌≡◌, ◌≢◌, ◌⊎◌, refl, sym, ap, ◌∙◌, subst, true, Bool-cases, Option, some,
  [], ◌∷◌, ◌++◌, Bytes, codes, leb, ◌==◌, take, drop, length, length-append, length-take,
  length-drop, Result, ok, err, inl, inr, arith,
}
use onedrive_davfs.Base.Effect.{
  Op, proceed, proceed-ok, Keeps, Keeps->>=, Keeps-if, Keeps-pure, Keeps-fail,
}
use onedrive_davfs.StateFile

-- What wasi:filesystem documents of a directory, of which `content` gives the file of each name: a file that
-- is opened for writing is empty, a write at the end of a file adds the bytes that it counts, a rename
-- puts one file in the place of another or changes neither, and no call changes other files.
pub record IsDirectory {W : Type 0} (dir : StateFile.Dir W) (content : W → Bytes → Option Bytes)
    : Type 0 where
  pub opened :
      (name : Bytes) (w v : W) (u : Unit {0})
      → dir.open_write name w ≡ (v, ok u)
      → content v name ≡ some []
  pub written :
      (name part s : Bytes) (w v : W) (k : ℕ)
      → content w name ≡ some s
      → dir.write name part (length s) w ≡ (v, ok k)
      → (content v name ≡ some (s ++ take k part)) × (k ≤ length part)
  pub renamed :
      (source target : Bytes) (w v : W) (u : Unit {0})
      → dir.rename_at source target w ≡ (v, ok u)
      → content v target ≡ content w source
  pub not_renamed :
      (source target e : Bytes) (w v : W)
      → dir.rename_at source target w ≡ (v, err e)
      → content v target ≡ content w target
  pub open_other :
      (name other : Bytes) (w : W)
      → name ≢ other
      → content (dir.open_write name w).0 other ≡ content w other
  pub write_other :
      (name other part : Bytes) (offset : ℕ) (w : W)
      → name ≢ other
      → content (dir.write name part offset w).0 other ≡ content w other
  pub unlink_other :
      (name other : Bytes) (w : W)
      → name ≢ other
      → content (dir.unlink_file_at name w).0 other ≡ content w other

pub take-all : (n : ℕ) (xs : Bytes) → length xs ≤ n → take n xs ≡ xs
take-all zero [] h = refl
take-all (suc n) [] h = refl
take-all zero (x ∷ xs) h = absurd (omega (arith, h))
take-all (suc n) (x ∷ xs) h = ap (λ t. x ∷ t) (take-all n xs (omega (arith, h)))

take-plus : (m n : ℕ) (xs : Bytes) → take m xs ++ take n (drop m xs) ≡ take (m + n) xs
take-plus zero n xs = let e : 0 + n ≡ n = omega arith in ap (λ k. take k xs) (sym e)
take-plus (suc m) zero [] = let e : suc m + 0 ≡ suc m = omega arith in ap (λ k. take k []) (sym e)
take-plus (suc m) (suc n) [] =
    let e : suc m + suc n ≡ suc (m + suc n) = omega arith in ap (λ k. take k []) (sym e)
take-plus (suc m) n (x ∷ xs) =
    let e : suc m + n ≡ suc (m + n) = omega arith in
    ap (λ t. x ∷ t) (take-plus m n xs) ∙ ap (λ k. take k (x ∷ xs)) (sym e)

module _ {W : Type 0} (dir : StateFile.Dir W) (content : W → Bytes → Option Bytes)
    (lawful : IsDirectory dir content) where
  all_written :
      (name s : Bytes) (offset : ℕ) (w v : W)
      → leb (length s) offset ≡ true
      → content w name ≡ some (take offset s)
      → w ≡ v
      → content v name ≡ some s
  all_written name s offset w v done c same =
      ap (λ x. content x name) (sym same) ∙ c ∙ ap some (take-all offset s (ground (arith, done)))

  -- One write puts the next bytes of the text after those that are there.
  one_written :
      (name s : Bytes) (offset k : ℕ) (w v : W)
      → offset ≤ length s
      → content w name ≡ some (take offset s)
      → dir.write name (drop offset s) offset w ≡ (v, ok k)
      → (content v name ≡ some (take (offset + k) s)) × (offset + k ≤ length s)
  one_written name s offset k w v le c h =
      let at_end : length (take offset s) ≡ offset = omega (arith, length-take offset s, le) in
      let h' : dir.write name (drop offset s) (length (take offset s)) w ≡ (v, ok k) =
        subst (λ n. dir.write name (drop offset s) n w ≡ (v, ok k)) (sym at_end) h in
      let (wrote, bound) = lawful.written name (drop offset s) (take offset s) w v k c h' in
      (wrote ∙ ap some (take-plus offset k s), omega (arith, bound, length-drop offset s, le))

  write_steps_writes :
      (rounds : ℕ) (name s : Bytes) (offset : ℕ) (w v : W) (u : Unit {0})
      → offset ≤ length s
      → content w name ≡ some (take offset s)
      → StateFile.write_steps dir rounds name s offset w ≡ (v, ok u)
      → content v name ≡ some s
  unfolding StateFile.write_steps StateFile.write_next
  write_steps_writes zero name s offset w v u le c h = elim (Bool-cases (leb (length s) offset)) [
    | inl done ↦ all_written name s offset w v done c (ap (λ p. p.0) (rw done at h))
    | inr more ↦ let e = ap (λ p. p.1) (rw more at h) in cc
  ]
  write_steps_writes (suc rounds) name s offset w v u le c h =
      elim (Bool-cases (leb (length s) offset)) [
        | inl done ↦ all_written name s offset w v done c (ap (λ p. p.0) (rw done at h))
        | inr more ↦
            let next : ℕ → Op W (Unit {0}) =
              StateFile.write_next dir (λ k. StateFile.write_steps dir rounds name s (offset + k))
                name in
            let h' : proceed next (dir.write name (drop offset s) offset w) ≡ (v, ok u) =
              rw more at h in
            let (x, k, first, last) =
              proceed-ok next (dir.write name (drop offset s) offset w) v u h' in
            let (wrote, bound) = one_written name s offset k w x le c first in
            elim (Bool-cases (k == 0)) [
              | inl none_written ↦ let e = ap (λ p. p.1) (rw none_written at last) in cc
              | inr some_written ↦
                  write_steps_writes rounds name s (offset + k) x v u bound wrote
                    (rw some_written at last)
            ]
      ]

  write_file_writes :
      (name s : Bytes) (w v : W) (u : Unit {0})
      → StateFile.write_file dir name s w ≡ (v, ok u)
      → content v name ≡ some s
  unfolding StateFile.write_file
  write_file_writes name s w v u h =
      let (x, y, first, last) =
        proceed-ok (λ _. StateFile.write_steps dir (length s) name s 0) (dir.open_write name w) v u
          h in
      write_steps_writes (length s) name s 0 x v u (omega arith) (lawful.opened name w x y first)
        last

  -- The file of another name stays as it is.
  module _ (name other : Bytes) (before : Option Bytes) (differ : name ≢ other) where
    Same : W → Type 0
    Same w = content w other ≡ before

    next-Keeps :
        (rest : ℕ → Op W (Unit {0})) (k : ℕ)
        → Keeps Same (rest k)
        → Keeps Same (StateFile.write_next dir rest name k)
    unfolding StateFile.write_next
    next-Keeps rest k h = Keeps-if Same (k == 0) _ _ (Keeps-fail Same _) h

    write_steps-Keeps :
        (rounds : ℕ) (s : Bytes) (offset : ℕ)
        → Keeps Same (StateFile.write_steps dir rounds name s offset)
    unfolding StateFile.write_steps Same
    write_steps-Keeps zero s offset =
        Keeps-if Same (leb (length s) offset) _ _ (Keeps-pure Same tt) (Keeps-fail Same _)
    write_steps-Keeps (suc rounds) s offset =
        Keeps-if Same (leb (length s) offset) _ _ (Keeps-pure Same tt) (
          Keeps->>= Same (dir.write name (drop offset s) offset) _
            (record {
              keep = λ w p. lawful.write_other name other (drop offset s) offset w differ ∙ p;
            })
            (λ k.
              next-Keeps (λ j. StateFile.write_steps dir rounds name s (offset + j)) k
                (write_steps-Keeps rounds s (offset + k))))

    write_file-Keeps : (s : Bytes) → Keeps Same (StateFile.write_file dir name s)
    unfolding StateFile.write_file Same
    write_file-Keeps s =
        Keeps->>= Same (dir.open_write name) _
          (record { keep = λ w p. lawful.open_other name other w differ ∙ p })
          (λ _. write_steps-Keeps (length s) s 0)

  -- Either the whole file is there, or nothing of it.
  abbrev pub IsWhole : Bytes → Bytes → W → W × Result Bytes (Unit {0}) → Type 0
  IsWhole name s w r =
      ((content r.0 name ≡ some s) × (r.1 ≡ ok tt))
      ⊎ ((content r.0 name ≡ content w name) × (e : Bytes) × (r.1 ≡ err e))

  or_unlink-IsWhole :
      (name s : Bytes) (w x : W) (r : W × Result Bytes (Unit {0}))
      → StateFile.tmp_name name ≢ name
      → content x (StateFile.tmp_name name) ≡ some s
      → content x name ≡ content w name
      → dir.rename_at (StateFile.tmp_name name) name x ≡ r
      → IsWhole name s w (StateFile.or_unlink dir (StateFile.tmp_name name) name r)
  unfolding StateFile.or_unlink
  or_unlink-IsWhole name s w x (v, ok u) differ whole same q =
      inl (lawful.renamed (StateFile.tmp_name name) name x v u q ∙ whole, refl)
  or_unlink-IsWhole name s w x (v, err e) differ whole same q = inr (
    lawful.unlink_other (StateFile.tmp_name name) name v differ
        ∙ lawful.not_renamed (StateFile.tmp_name name) name e x v q
        ∙ same,
    _,
    refl,
  )

  rename_over-IsWhole :
      (name s : Bytes) (w x : W)
      → StateFile.tmp_name name ≢ name
      → content x (StateFile.tmp_name name) ≡ some s
      → content x name ≡ content w name
      → IsWhole name s w (StateFile.rename_over dir name x)
  unfolding StateFile.rename_over
  rename_over-IsWhole name s w x differ whole same =
      or_unlink-IsWhole name s w x (dir.rename_at (StateFile.tmp_name name) name x) differ whole
        same refl

  tmp_name_differs : (name : Bytes) → StateFile.tmp_name name ≢ name
  unfolding StateFile.tmp_name
  tmp_name_differs name h = omega (arith, ap length h, length-append name (codes ".tmp"))

  file_kept :
      (name s : Bytes) (w : W)
      → content (StateFile.write_file dir (StateFile.tmp_name name) s w).0 name ≡ content w name
  unfolding Same
  file_kept name s w =
      (write_file-Keeps (StateFile.tmp_name name) name (content w name) (tmp_name_differs name)
          s).keep
        w refl

  after_write :
      (name s : Bytes) (w : W) (r : W × Result Bytes (Unit {0}))
      → StateFile.write_file dir (StateFile.tmp_name name) s w ≡ r
      → IsWhole name s w (proceed (λ _. StateFile.rename_over dir name) r)
  after_write name s w (x, ok u) q =
      rename_over-IsWhole name s w x (tmp_name_differs name)
        (write_file_writes (StateFile.tmp_name name) s w x u q)
        (ap (λ p. content p.0 name) (sym q) ∙ file_kept name s w)
  after_write name s w (x, err e) q =
      inr (ap (λ p. content p.0 name) (sym q) ∙ file_kept name s w, e, refl)

  -- `write_atomic` puts the whole new text in the place of the file, or returns an error and leaves the
  -- file as it was, whichever of its calls fails and however many bytes each write takes: no
  -- reader finds a part of a text.
  pub write_atomic-IsWhole :
      (name s : Bytes) (w : W) → IsWhole name s w (StateFile.write_atomic dir name s w)
  unfolding StateFile.write_atomic
  write_atomic-IsWhole name s w =
      after_write name s w (StateFile.write_file dir (StateFile.tmp_name name) s w) refl
