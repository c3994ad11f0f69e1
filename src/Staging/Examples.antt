-- ===== src/Staging/Examples.antt =====
-- The theorems on the staging of uploads at concrete mounts and names.
use nimo_os.Base.{
  ◌≡◌, ◌≢◌, refl, true, not, ◌&&◌, ◌||◌, List, [], ◌∷◌, some, arith, All, any, length, leb,
}
use nimo_os.Text.{text, eqb, split, has_prefix, contains, elem}
use nimo_os.FilePath.{segments, clean, render, covers, push_segments, push_segment, pop_segment}
use nimo_os.Staging.{
  MountEntry, is_local_volume_fs_type, is_over, best_mount, root_or_legacy, resolve_staging_root,
  new_upload_id, upload_root,
}
use nimo_os.Staging.Ids.{upload_root-new_upload_id}
use nimo_os.Staging.Roots.{resolve_staging_root-longest}
use nimo_os.Staging.Metadata.{Metadata, validate_file_upload_metadata, path_escape}
use nimo_os.Staging.Escape.{validate_file_upload_metadata-inside}

abbrev mounts : List MountEntry
mounts =
    record { mountpoint = text "/"; fs_type = text "overlay" }
    ∷ record { mountpoint = text "/media/R"; fs_type = text "ext4" }
    ∷ []

upload_root-new_upload_id_example :
    upload_root (new_upload_id (resolve_staging_root (text "/media/R/a") mounts).0 (text "0f"))
    ≡ (resolve_staging_root (text "/media/R/a") mounts).0
unfolding resolve_staging_root best_mount root_or_legacy is_over is_local_volume_fs_type covers
    has_prefix contains elem eqb segments clean render push_segments push_segment pop_segment split
upload_root-new_upload_id_example =
    upload_root-new_upload_id (text "/media/R/a") (text "0f") mounts (ground arith) (ground arith)

resolve_staging_root-longest_example :
    (is_over (resolve_staging_root (text "/media/R/a") mounts).0 (clean (text "/media/R/a")) ≡ true)
    × (any
          (λ m.
            eqb (clean m.mountpoint) (resolve_staging_root (text "/media/R/a") mounts).0
            && is_local_volume_fs_type m.fs_type)
          mounts
        ≡ true)
    × All
        (λ m.
          (not (is_over (clean m.mountpoint) (clean (text "/media/R/a")))
            || leb
                (length (clean m.mountpoint))
                (length (resolve_staging_root (text "/media/R/a") mounts).0))
          ≡ true)
        mounts
unfolding resolve_staging_root best_mount root_or_legacy is_over is_local_volume_fs_type covers
    has_prefix contains elem eqb segments clean render push_segments push_segment pop_segment split
resolve_staging_root-longest_example = resolve_staging_root-longest (text "/media/R/a") mounts refl

abbrev song : Metadata
song = record {
  filename = text "a.ogg";
  target_path = text "/media/R";
  relative_path = text "m/a.ogg";
}

validate_file_upload_metadata-inside_example :
    validate_file_upload_metadata song 7 true ≢ some path_escape
unfolding segments push_segments push_segment pop_segment split eqb
validate_file_upload_metadata-inside_example =
    validate_file_upload_metadata-inside song 7 true (text "media") (text "R" ∷ []) refl refl
