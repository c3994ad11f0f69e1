-- ===== src/Access/Examples.antt =====
-- The theorems on access at concrete paths.
use nimo_os.Base.{ℕ, ◌≡◌, refl, not, ◌&&◌, ◌||◌, List, [], ◌∷◌}
use nimo_os.Text.{Text, text, eqb, split}
use nimo_os.FilePath.{render, segments, clean, push_segments, push_segment, pop_segment}
use nimo_os.FilePath.Laws.{starts_with}
use nimo_os.Access.{FolderPermission, GrantCacheEntry, grants_of, atoi, check_path_access}
use nimo_os.Access.Caches.{lies_in_any, check_path_access-segments}

abbrev table : List FolderPermission
table = record { user_id = 2; path = text "/media/disk/shared" } ∷ []

abbrev cache : List GrantCacheEntry
cache = record { user = 2; paths = []; expires_at = 120 } ∷ []

abbrev grants : ℕ → List Text
grants user = grants_of user table

-- The system disk holds the root directory, and a disk of its own is mounted below /media.
abbrev system_disk : List Text
system_disk = text "/" ∷ text "/media/disk" ∷ []

abbrev wanted : Text
wanted = text "/media/disk/shared/./a"

check_path_access-segments_example :
    check_path_access system_disk grants (text "user") (text "2") wanted ≡ (
      ((starts_with (segments wanted) (text "DATA" ∷ [])
          || starts_with (segments wanted) (text "mnt" ∷ [])
          || starts_with (segments wanted) (text "media" ∷ []))
        && not (lies_in_any system_disk wanted))
      || lies_in_any (grants 2) wanted)
unfolding segments push_segments push_segment pop_segment split eqb atoi clean render
check_path_access-segments_example =
    check_path_access-segments system_disk grants (text "user") (text "2") wanted 2 refl refl
      ((refl, refl), ((refl, refl), tt)) (refl, tt) refl
