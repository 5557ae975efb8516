-- ===== src/Graph/Address.antt =====
-- The addresses of drive items (src/graph.rs).
use onedrive_davfs.Base.{Bool, ◌++◌, map, Bytes, codes, if◌then◌else◌, ◌≡◌, refl}
use onedrive_davfs.Base.Str.{
  contains, is_empty, join, split, starts_with, trim_matches, trim_start_matches,
}
use onedrive_davfs.Xml.Percent.{pct_encode}

abbrev pub graph_origin : Bytes
graph_origin = codes "https://graph.microsoft.com/"

-- The beginning of every URL that the guest builds.
abbrev pub graph_base : Bytes
graph_base = codes "https://graph.microsoft.com/v1.0"

unfoldable pub root_of : Bytes → Bytes
unfolding contains
root_of trimmed =
    if contains trimmed (codes "/") then codes "/" ++ trimmed else codes "/drives/" ++ trimmed

unfoldable pub drive_root_segment : Bytes → Bytes
unfolding root_of trim_matches
drive_root_segment drive_base = root_of (trim_matches b'/' drive_base)

-- `trimmed.split('/').map(pct_encode).collect().join("/")`.
unfoldable pub encoded_parts : Bytes → Bytes
unfolding join split pct_encode
encoded_parts trimmed = join b'/' (map pct_encode (split b'/' trimmed))

unfoldable pub parent_reference_path : Bytes → Bytes → Bytes
unfolding drive_root_segment encoded_parts is_empty
parent_reference_path drive_base parent =
    let trimmed = trim_matches b'/' parent in
    if is_empty trimmed
    then drive_root_segment drive_base ++ codes "/root:"
    else drive_root_segment drive_base ++ codes "/root:/" ++ encoded_parts trimmed

unfoldable pub item_path_segment : Bytes → Bytes → Bytes
unfolding drive_root_segment encoded_parts trim_start_matches is_empty
item_path_segment drive_base path =
    let trimmed = trim_start_matches b'/' path in
    if is_empty trimmed
    then drive_root_segment drive_base ++ codes "/root"
    else drive_root_segment drive_base ++ codes "/root:/" ++ encoded_parts trimmed ++ codes ":"

unfoldable pub item_url : Bytes → Bytes → Bytes → Bytes
unfolding item_path_segment
item_url drive_base path suffix = graph_base ++ item_path_segment drive_base path ++ suffix

unfoldable pub initial_delta_url : Bytes → Bytes
unfolding drive_root_segment
initial_delta_url drive_base =
    graph_base
    ++ drive_root_segment drive_base
    ++ codes
        "/root/delta?$select=id,name,size,folder,file,eTag,lastModifiedDateTime,parentReference,deleted,root&$top=200"

unfoldable pub is_https_url : Bytes → Bool
unfolding starts_with
is_https_url url = starts_with url (codes "https://")

selector_shape :
    item_path_segment (codes "me/drive") (codes "/Documents/report 1.docx")
    ≡ codes "/me/drive/root:/Documents/report%201.docx:"
unfolding item_path_segment
selector_shape = refl

drive_id_shape :
    parent_reference_path (codes "B087") (codes "/Documents") ≡ codes "/drives/B087/root:/Documents"
unfolding parent_reference_path
drive_id_shape = refl
