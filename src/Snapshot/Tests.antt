-- ===== src/Snapshot/Tests.antt =====
-- The snapshot of src/snapshot.rs with one directory and one file in it.
use mathlib.Core.List.{foldl}
use mathlib.Core.Option.{some-injective}
use Prim.Native.Nat.{Ordering}
use onedrive_davfs.Base.{
  ℕ, zero, suc, ◌-◌, ◌≡◌, ◌↔◌, ◌<◌, ◌^◌, refl, ap, subst, false, some, List, [], ◌∷◌, ◌++◌, codes,
  bytes_compare, length, get_elem?, ok, err, ◌>>=◌, arith,
}
use onedrive_davfs.Base.Utf8.{is_utf8}
use onedrive_davfs.Base.Bits.{slice}
use onedrive_davfs.Snapshot.Child.{ChildInfo, write_child, parse_child_block}
use onedrive_davfs.Snapshot.ChildRoundTrip.{Fits, parse_child_block-write_child}
use onedrive_davfs.Snapshot.Row.{DirRow, write_dir_row, parse_dir_table}
use onedrive_davfs.Snapshot.RowRoundTrip.{RowFits, parse_dir_table-write_dir_row}
use onedrive_davfs.Snapshot.Header.{Header, write_header, parse_header}
use onedrive_davfs.Snapshot.HeaderRoundTrip.{HeaderFits, parse_header-write_header}
use onedrive_davfs.Snapshot.Lookup.{find_dir}
use onedrive_davfs.Snapshot.FindDir.{IsSorted, find_dir_iff}
use onedrive_davfs.Snapshot.Encode.{zeros, finish}
use onedrive_davfs.Snapshot.Decode.{meta_result, parse_meta, table_slice}
use onedrive_davfs.Snapshot.FileRoundTrip.{layout, finish-reads}

abbrev kid : ChildInfo
kid = record {
  name = codes "a";
  is_dir = false;
  size = 300;
  mtime = 7;
  etag = codes "e";
  id = codes "f";
}

kid-Fits : Fits kid
unfolding is_utf8
kid-Fits = record { name = refl; etag = refl; id = refl; size = omega arith; mtime = omega arith }

small_block : length (foldl write_child (zeros 32) (kid ∷ []) ++ codes "rest") < 2 ^ 32
unfolding write_child zeros
small_block = omega arith

parse_child_block-write_child_example :
    parse_child_block
      (foldl write_child (zeros 32) (kid ∷ []) ++ codes "rest")
      (length (zeros 32))
      (length (foldl write_child (zeros 32) (kid ∷ [])) - length (zeros 32))
    ≡ ok (kid ∷ [])
parse_child_block-write_child_example =
    parse_child_block-write_child (zeros 32) (codes "rest") (kid ∷ []) (kid-Fits, tt) small_block

abbrev top_row : DirRow
top_row = record {
  path = codes "/";
  block_off = 32;
  block_len = 32;
  id = codes "r";
  size = 0;
  mtime = 1;
  etag = [];
}

abbrev docs_row : DirRow
docs_row = record {
  path = codes "/docs";
  block_off = 64;
  block_len = 0;
  id = codes "d";
  size = 0;
  mtime = 2;
  etag = [];
}

top_row-Fits : RowFits top_row
unfolding is_utf8
top_row-Fits = record {
  path = refl;
  id = refl;
  etag = refl;
  block_off = omega arith;
  block_len = omega arith;
  size = omega arith;
  mtime = omega arith;
}

docs_row-Fits : RowFits docs_row
unfolding is_utf8
docs_row-Fits = record {
  path = refl;
  id = refl;
  etag = refl;
  block_off = omega arith;
  block_len = omega arith;
  size = omega arith;
  mtime = omega arith;
}

abbrev both : List DirRow
both = top_row ∷ docs_row ∷ []

small_table : length (foldl write_dir_row (zeros 32) both) < 2 ^ 32
unfolding write_dir_row zeros
small_table = omega arith

parse_dir_table-write_dir_row_example :
    parse_dir_table
      (slice
        (length (zeros 32))
        (length (foldl write_dir_row (zeros 32) both))
        (foldl write_dir_row (zeros 32) both ++ codes "rest"))
      (length both)
    ≡ ok both
parse_dir_table-write_dir_row_example =
    parse_dir_table-write_dir_row (zeros 32) (codes "rest") both (top_row-Fits, (docs_row-Fits, tt))
      small_table

abbrev sample_header : Header
sample_header = record { dir_table_off = 33; dir_count = 2; meta_off = 40; meta_len = 5 }

sample_header-Fits : HeaderFits sample_header
sample_header-Fits = record {
  dir_table_off = omega arith;
  dir_count = omega arith;
  meta_off = omega arith;
  meta_len = omega arith;
}

length-zeros : (n : ℕ) → length (zeros n) ≡ n
unfolding zeros
length-zeros zero = refl
length-zeros (suc n) = ap suc (length-zeros n)

parse_header-write_header_example :
    (parse_header (write_header (zeros 45) sample_header) ≡ ok sample_header)
    × (length (write_header (zeros 45) sample_header) ≡ length (zeros 45))
parse_header-write_header_example =
    parse_header-write_header (zeros 45) sample_header (omega (arith, length-zeros 45))
      sample_header-Fits (omega (arith, length-zeros 45)) (omega (arith, length-zeros 45))

both-IsSorted : IsSorted both
unfolding bytes_compare
both-IsSorted zero zero a b lt = absurd (omega (arith, lt))
both-IsSorted zero (suc zero) a b lt = λ f g.
    subst (λ x. bytes_compare x.path b.path ≡ Ordering.lt) (some-injective top_row a f)
      (subst (λ y. bytes_compare top_row.path y.path ≡ Ordering.lt) (some-injective docs_row b g)
        refl)
both-IsSorted (suc zero) (suc zero) a b lt = absurd (omega (arith, lt))
both-IsSorted i (suc (suc j)) a b lt = λ f g. cc
both-IsSorted (suc i) zero a b lt = absurd (omega (arith, lt))
both-IsSorted (suc (suc i)) (suc zero) a b lt = absurd (omega (arith, lt))

find_dir_iff_example :
    (find_dir both (codes "/docs") ≡ some docs_row)
    ↔ ((t : ℕ) × (get_elem? both t ≡ some docs_row) × (codes "/docs" ≡ codes "/docs"))
find_dir_iff_example = find_dir_iff both (codes "/docs") docs_row both-IsSorted

small_file : length (foldl write_dir_row (zeros 32) both ++ codes "{}") < 2 ^ 32
unfolding write_dir_row zeros
small_file = omega arith

finish-reads_example :
    (parse_header (finish (zeros 32, both) (codes "{}")) ≡ ok (layout (zeros 32) both (codes "{}")))
    × ((do
      table ←
          table_slice (finish (zeros 32, both) (codes "{}")) (layout (zeros 32) both (codes "{}"))
      parse_dir_table table (length both))
        ≡ ok both)
    × (parse_meta
          (λ _. err [])
          (finish (zeros 32, both) (codes "{}"))
          (length (foldl write_dir_row (zeros 32) both))
          (length (codes "{}"))
        ≡ meta_result (err []))
finish-reads_example =
    finish-reads (zeros 32) both (codes "{}") (omega (arith, length-zeros 32)) (omega arith)
      small_file (λ _. err []) (top_row-Fits, (docs_row-Fits, tt))
