-- ===== src/StateFile/Tests.antt =====
-- A directory as a map from names to files, which shows that what is asked of a directory can hold, and the
-- theorem on it.
use mathlib.Core.Option.{some-injective}
use onedrive_davfs.Base.{
  ℕ, ◌≤◌, ◌≡◌, ◌≢◌, refl, sym, ap, ◌∙◌, true, false, Bool-cases, Option, none, some, [], ◌∷◌, ◌++◌,
  Bytes, bytes_eq, bytes_eq_iff, bytes_eq_self, codes, take, drop, leb, ◌+◌, Bool, length, Result,
  ok, err, ok-injective, inl, inr, arith,
}
use onedrive_davfs.Base.Map.Assoc
use onedrive_davfs.Base.Map.Assoc.{HashMap}
use onedrive_davfs.StateFile
use onedrive_davfs.StateFile.Atomic.{IsDirectory, IsWhole, write_atomic-IsWhole, take-all}

abbrev pub Files : Type 0
Files = HashMap Bytes

abbrev content : Files → Bytes → Option Bytes
content w name = Assoc.get name w

abbrev append_to : Bytes → Bytes → Files → Option Bytes → Files × Result Bytes ℕ
append_to name part w none = (w, err (codes "no file"))
append_to name part w (some s) = (Assoc.insert name (s ++ part) w, ok (length part))

abbrev rename_found : Bytes → Files → Option Bytes → Files × Result Bytes (Unit {0})
rename_found target w none = (w, err (codes "no file"))
rename_found target w (some s) = (Assoc.insert target s w, ok tt)

abbrev is_file : Option Bytes → Bool
is_file none = false
is_file (some s) = true

abbrev read_part : ℕ → ℕ → Option Bytes → Bytes × Bool
read_part n offset none = ([], true)
read_part n offset (some s) = (take n (drop offset s), leb (length s) (offset + n))

-- A write takes the whole text, and a rename leaves the source behind.
abbrev pub in_memory : StateFile.Dir Files
in_memory = record {
  open_read = λ name w. is_file (content w name);
  read = λ name n offset w. ok (read_part n offset (content w name));
  open_write = λ name w. (Assoc.insert name [] w, ok tt);
  write = λ name part offset w. append_to name part w (Assoc.get name w);
  rename_at = λ source target w. rename_found target w (Assoc.get source w);
  unlink_file_at = λ name w. (Assoc.remove name w, ok tt);
}

inserted : (name s : Bytes) (w : Files) → Assoc.get name (Assoc.insert name s w) ≡ some s
inserted name s w = Assoc.get-insert name name s w ∙ rw (bytes_eq_self name) refl

unequal : (name other : Bytes) → name ≢ other → bytes_eq name other ≡ false
unequal name other ne = elim (Bool-cases (bytes_eq name other)) [
  | inl y ↦ absurd (ne ((bytes_eq_iff name other).0 y))
  | inr n ↦ n
]

insert_other :
    (name other s : Bytes) (w : Files)
    → name ≢ other
    → Assoc.get other (Assoc.insert name s w) ≡ Assoc.get other w
insert_other name other s w ne = Assoc.get-insert name other s w ∙ rw (unequal name other ne) refl

remove_other :
    (name other : Bytes) (w : Files)
    → name ≢ other
    → Assoc.get other (Assoc.remove name w) ≡ Assoc.get other w
remove_other name other w ne = Assoc.get-remove name other w ∙ rw (unequal name other ne) refl

append_other :
    (name other part : Bytes) (w : Files) (o : Option Bytes)
    → name ≢ other
    → content (append_to name part w o).0 other ≡ content w other
append_other name other part w none ne = refl
append_other name other part w (some s) ne = insert_other name other (s ++ part) w ne

appended :
    (name part s : Bytes) (w v : Files) (k : ℕ) (o : Option Bytes)
    → o ≡ some s
    → append_to name part w o ≡ (v, ok k)
    → (content v name ≡ some (s ++ take k part)) × (k ≤ length part)
appended name part s w v k none e h = cc
appended name part s w v k (some t) e h =
    let same : Assoc.insert name (t ++ part) w ≡ v = ap (λ p. p.0) h in
    let count : length part ≡ k = ok-injective (ap (λ p. p.1) h) in
    (
      ap (λ x. content x name) (sym same)
          ∙ inserted name (t ++ part) w
          ∙ ap (λ x. some (x ++ part)) (some-injective t s e)
          ∙ ap (λ x. some (s ++ x)) (sym (take-all k part (omega (arith, count)))),
      omega (arith, count),
    )

rename_done :
    (target : Bytes) (w v : Files) (u : Unit {0}) (o : Option Bytes)
    → rename_found target w o ≡ (v, ok u)
    → content v target ≡ o
rename_done target w v u none h = let e = ap (λ p. p.1) h in cc
rename_done target w v u (some s) h = ap (λ p. content p.0 target) (sym h) ∙ inserted target s w

rename_kept :
    (target e : Bytes) (w v : Files) (o : Option Bytes)
    → rename_found target w o ≡ (v, err e)
    → content v target ≡ content w target
rename_kept target e w v none h = ap (λ p. content p.0 target) (sym h)
rename_kept target e w v (some s) h = let q = ap (λ p. p.1) h in cc

in_memory-IsDirectory : IsDirectory in_memory content
in_memory-IsDirectory = record {
  opened = λ name w v u h. ap (λ p. content p.0 name) (sym h) ∙ inserted name [] w;
  written = λ name part s w v k c h. appended name part s w v k (content w name) c h;
  renamed = λ source target w v u h. rename_done target w v u (content w source) h;
  not_renamed = λ source target e w v h. rename_kept target e w v (content w source) h;
  open_other = λ name other w ne. insert_other name other [] w ne;
  write_other = λ name other part offset w ne. append_other name other part w (content w name) ne;
  unlink_other = λ name other w ne. remove_other name other w ne;
}

abbrev old_file : Files
old_file = (codes "a", codes "old") ∷ []

written_text :
    content (StateFile.write_atomic in_memory (codes "a") (codes "new") old_file).0 (codes "a")
    ≡ some (codes "new")
unfolding StateFile.write_atomic Assoc.get Assoc.insert bytes_eq
written_text = refl

write_atomic-IsWhole_example :
    IsWhole in_memory content in_memory-IsDirectory
      (codes "a")
      (codes "new")
      old_file
      (StateFile.write_atomic in_memory (codes "a") (codes "new") old_file)
write_atomic-IsWhole_example =
    write_atomic-IsWhole in_memory content in_memory-IsDirectory (codes "a") (codes "new") old_file
