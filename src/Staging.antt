-- ===== src/Staging.antt =====
-- Where the bytes of a resumable upload are kept: route/v2/tus_staging_root.go and
-- route/v2/tus_routing_store.go.
--
-- Outside the program, and so arguments: the mount table, and the random id of newSubID or of tusd.
pub mod Ids
pub mod Roots
pub mod Metadata
pub mod Escape
pub mod Examples
use nimo_os.Base.{
  ℕ, suc, ◌+◌, ◌-◌, ◌*◌, ◌/◌, ◌%◌, Bool, true, false, not, ◌&&◌, ◌||◌, List, [], ◌∷◌, ◌++◌, Option,
  none, some, length, leb, ltb, ◌==◌, if◌then◌else◌,
}
use nimo_os.Text.{Text, eqb, is_empty, contains, elem, text}
use nimo_os.FilePath.{slash, clean, join_path, covers}

-- hex.EncodeToString
abbrev pub hex_digit : ℕ → ℕ
hex_digit n = if ltb n 10 then n + 48 else n + 87

unfoldable pub hex_encode : Text → Text
hex_encode [] = []
hex_encode (c ∷ s) = hex_digit (c / 16) ∷ hex_digit (c % 16) ∷ hex_encode s

-- The value of a hexadecimal digit in either case.
abbrev pub hex_value : ℕ → Option ℕ
hex_value c =
    if leb 48 c && leb c 57
    then some (c - 48)
    else if leb 97 c && leb c 102
    then some (c - 87)
    else if leb 65 c && leb c 70
    then some (c - 55)
    else none

abbrev pub byte_before : Option ℕ → Option ℕ → Option Text → Option Text
byte_before (some a) (some b) (some s) = some ((a * 16 + b) ∷ s)
byte_before _ _ _ = none

-- hex.DecodeString; `none` for an error, an odd number of digits among them.
unfoldable pub hex_decode : Text → Option Text
hex_decode [] = some []
hex_decode (c ∷ []) = none
hex_decode (c ∷ (d ∷ s)) = byte_before (hex_value c) (hex_value d) (hex_decode s)

abbrev pub staging_id_sep : ℕ
staging_id_sep = b'~'

unfoldable pub encode_staging_id : Text → Text → Text
encode_staging_id root sub = hex_encode root ++ (staging_id_sep ∷ sub)

abbrev pub cons_first : ℕ → Option (Text × Text) → Option (Text × Text)
cons_first c none = none
cons_first c (some (a, b)) = some (c ∷ a, b)

-- id[:i] and id[i+1:] at the first separator.
unfoldable pub cut : Text → Option (Text × Text)
cut [] = none
cut (c ∷ s) = let rest = cut s in if c == staging_id_sep then some ([], s) else cons_first c rest

abbrev pub with_root : Option Text → Text → Option (Text × Text)
with_root none sub = none
with_root (some root) sub = some (root, sub)

abbrev pub decode_cut : Option (Text × Text) → Option (Text × Text)
decode_cut none = none
decode_cut (some (a, b)) = with_root (hex_decode a) b

-- `none` where ok is false.
unfoldable pub decode_staging_id : Text → Option (Text × Text)
decode_staging_id id = decode_cut (cut id)

pub record MountEntry : Type 0 where
  pub mountpoint : Text
  pub fs_type : Text

abbrev pub local_volume_fs_types : List Text
local_volume_fs_types =
    text "ext4"
    ∷ text "btrfs"
    ∷ text "xfs"
    ∷ text "exfat"
    ∷ text "vfat"
    ∷ text "ntfs"
    ∷ text "ntfs3"
    ∷ []

unfoldable pub is_local_volume_fs_type : Text → Bool
is_local_volume_fs_type fs_type =
    elem fs_type local_volume_fs_types || contains fs_type (text "mergerfs")

abbrev pub legacy_staging_root : Text
legacy_staging_root = text "/DATA"

-- The test `matches` of the loop.
unfoldable pub is_over : Text → Text → Bool
is_over mp target = eqb mp (slash ∷ []) || covers mp target

-- bestMP and bestFS, none while nothing is found.
abbrev pub Best : Type 0
Best = Option (Text × Text)

abbrev pub is_longer : Text → Best → Bool
is_longer mp none = true
is_longer mp (some (best, fs)) = ltb (length best) (length mp)

unfoldable pub best_mount : Text → List MountEntry → Best → Best
best_mount target [] best = best
best_mount target (m ∷ ms) best = best_mount target ms (
    if is_over (clean m.mountpoint) target && is_longer (clean m.mountpoint) best
    then some (clean m.mountpoint, m.fs_type)
    else best)

unfoldable pub root_or_legacy : Best → Text × Bool
root_or_legacy none = (legacy_staging_root, true)
root_or_legacy (some (mp, fs)) =
    if is_local_volume_fs_type fs then (mp, false) else (legacy_staging_root, true)

-- root and fellBack
unfoldable pub resolve_staging_root : Text → List MountEntry → Text × Bool
resolve_staging_root target_path mounts =
    root_or_legacy (best_mount (clean target_path) mounts none)

unfoldable pub staging_dir_for_root : Text → Text
staging_dir_for_root root =
    join_path (join_path root (text ".system_data")) (text "file-tus-staging")

-- dirForRoot of a store with this legacy directory.
unfoldable pub dir_for_root : Text → Text → Text
dir_for_root legacy_dir root =
    if eqb root legacy_staging_root then legacy_dir else staging_dir_for_root root

-- The id that NewUpload hands to the store of the root, where the client gave none: `sub` is what
-- newSubID returns. Under the legacy root the id stays empty and tusd makes one, also `sub` here.
unfoldable pub new_upload_id : Text → Text → Text
new_upload_id root sub = if eqb root legacy_staging_root then sub else encode_staging_id root sub

-- The root whose store GetUpload asks.
abbrev pub root_or : Option (Text × Text) → Text
root_or none = legacy_staging_root
root_or (some (root, sub)) = root

unfoldable pub upload_root : Text → Text
upload_root id = root_or (decode_staging_id id)
