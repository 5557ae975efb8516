-- ===== src/Api/Tests.antt =====
-- Runs of the model of src/api.rs.
use onedrive_davfs.Base.{◌≡◌, refl, none, some, codes, bytes_eq}
use onedrive_davfs.Base.Str.{split, split_once, is_empty, trim_end_matches}
use onedrive_davfs.Xml.Percent.{pct_decode}
use onedrive_davfs.Api.{query_param, join_child_path}

-- An empty pair and a pair without a value are passed over.
second_pair : query_param (some (codes "&q&a=1&path=%2Fdocs")) (codes "path") ≡ some (codes "/docs")
unfolding query_param split split_once is_empty bytes_eq pct_decode
second_pair = refl

-- What does not decode is taken as it is.
not_decoded : query_param (some (codes "q=%zz")) (codes "q") ≡ some (codes "%zz")
unfolding query_param split split_once is_empty bytes_eq pct_decode
not_decoded = refl

missing : query_param (some (codes "a=1")) (codes "q") ≡ none
unfolding query_param split split_once is_empty bytes_eq pct_decode
missing = refl

joined : join_child_path (codes "/docs/") (codes "a") ≡ codes "/docs/a"
unfolding join_child_path trim_end_matches
joined = refl
