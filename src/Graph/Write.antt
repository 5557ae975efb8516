-- ===== src/Graph/Write.antt =====
-- `create_folder`, `delete` and `move_or_rename` of src/graph.rs.
use onedrive_davfs.Base.{
  ℕ, not, ◌||◌, Option, none, some, [], Bytes, codes, ◌==◌, take, Result, ok, err, if◌then◌else◌,
}
use onedrive_davfs.Base.Effect.{Op, lift, ◌>>=◌}
use onedrive_davfs.Base.Str.{split, last_or, rfind_byte}
use onedrive_davfs.Index.State.{DeltaItem}
use onedrive_davfs.Http.Message.{Method, HttpResponse}
use onedrive_davfs.Graph.Address.{item_url, parent_reference_path}
use onedrive_davfs.Graph.Request.{Env, graph_request, status_text, status_error, delta_item_of}

-- `to_path.rsplit('/').next().unwrap_or(to_path)`.
unfoldable pub new_name_of : Bytes → Bytes
unfolding last_or split
new_name_of to_path = last_or to_path (split b'/' to_path)

unfoldable pub up_to : Bytes → Option ℕ → Bytes
up_to path none = []
up_to path (some i) = take i path

unfoldable pub new_parent_of : Bytes → Bytes
unfolding up_to rfind_byte
new_parent_of to_path = up_to to_path (rfind_byte b'/' to_path)

module _ {W : Type 0} (env : Env W) where
  unfoldable pub reply_with : ℕ → Bytes → HttpResponse → Result Bytes (Option DeltaItem)
  unfolding delta_item_of status_error
  reply_with status what response =
      if not (response.status == status)
      then err (status_error what response)
      else ok (delta_item_of (env.drive_item response.body))

  unfoldable pub create_folder : Bytes → Bytes → Op W (Option DeltaItem)
  unfolding reply_with
  create_folder parent_path name = do
    response ←
        graph_request env Method.post (item_url env.drive_base parent_path (codes "/children"))
          (some (codes "application/json")) (env.folder_body name)
    lift (reply_with 201 (codes "graph create_folder") response)

  unfoldable pub delete_reply : HttpResponse → Result Bytes (Unit {0})
  unfolding status_text
  delete_reply response =
      if not (response.status == 204 || response.status == 404)
      then err (status_text (codes "graph delete") response)
      else ok tt

  unfoldable pub delete : Bytes → Op W (Unit {0})
  unfolding delete_reply
  delete path = do
    response ← graph_request env Method.delete (item_url env.drive_base path []) none []
    lift (delete_reply response)

  unfoldable pub move_or_rename : Bytes → Bytes → Op W (Option DeltaItem)
  unfolding reply_with new_name_of new_parent_of
  move_or_rename from_path to_path = do
    response ←
        graph_request env Method.patch (item_url env.drive_base from_path [])
          (some (codes "application/json"))
          (env.move_body (new_name_of to_path)
            (parent_reference_path env.drive_base (new_parent_of to_path)))
    lift (reply_with 200 (codes "graph move_or_rename") response)
