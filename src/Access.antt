-- ===== src/Access.antt =====
-- Who may use a path: pkg/utils/path_acl.go, the grants of service/user.go and checkPathAccess of
-- route/v1/file.go.
--
-- Outside the program, and so arguments: the text of /proc/mounts, none where it cannot be read;
-- the rows of user_folder_permissions; the time, in seconds. A set of mount points is a list.
pub mod Disks
pub mod Guards
pub mod Paths
pub mod Caches
pub mod Examples
use nimo_os.Base.{
  ℕ, ◌+◌, ◌*◌, ◌-◌, Bool, true, false, not, ◌&&◌, ◌||◌, List, [], ◌∷◌, Option, none, some, any,
  first, ltb, leb, ◌==◌, if◌then◌else◌,
}
use nimo_os.Text.{Text, eqb, is_empty, text}
use nimo_os.FilePath.{clean, covers}
use nimo_os.Access.Disks.{parse_system_disk_paths}

abbrev pub data_allowed_prefixes : List Text
data_allowed_prefixes = text "/DATA" ∷ text "/mnt" ∷ text "/media" ∷ []

pub record DiskCache : Type 0 where
  pub paths : List Text
  pub refresh_at : ℕ

abbrev minute : ℕ
minute = 60

unfoldable pub refresh_system_disk_cache : Option Text → ℕ → DiskCache → DiskCache
refresh_system_disk_cache mounts now cache =
    if ltb now cache.refresh_at
    then cache
    else record { paths = parse_system_disk_paths mounts; refresh_at = now + minute }

-- The loop of isOnSystemDisk over the mount points of the cache.
unfoldable pub is_below : List Text → Text → Bool
is_below mount_points path = any (λ m. covers m path) mount_points

-- IsPathAllowed with the mount points that a refresh left in the cache.
unfoldable pub is_path_allowed : List Text → Text → Bool → Bool
unfolding is_below
is_path_allowed system path is_admin =
    if is_empty path
    then false
    else if is_admin
    then true
    else if not (any (λ prefix. covers prefix (clean path)) data_allowed_prefixes)
    then false
    else not (is_below system (clean path))

pub record FolderPermission : Type 0 where
  pub user_id : ℕ
  pub path : Text

pub record GrantCacheEntry : Type 0 where
  pub user : ℕ
  pub paths : List Text
  pub expires_at : ℕ

abbrev pub grants_of : ℕ → List FolderPermission → List Text
grants_of user [] = []
grants_of user (p ∷ ps) =
    if p.user_id == user then p.path ∷ grants_of user ps else grants_of user ps

abbrev pub put_entry : GrantCacheEntry → List GrantCacheEntry → List GrantCacheEntry
put_entry e [] = e ∷ []
put_entry e (f ∷ es) = if f.user == e.user then e ∷ es else f ∷ put_entry e es

abbrev pub grant_ttl : ℕ
grant_ttl = 30

unfoldable pub fresh_or_load :
    List FolderPermission
    → ℕ
    → ℕ
    → List GrantCacheEntry
    → Option GrantCacheEntry
    → List Text × List GrantCacheEntry
fresh_or_load table now user cache none =
    let paths = grants_of user table in
    (paths, put_entry (record { user = user; paths = paths; expires_at = now + grant_ttl }) cache)
fresh_or_load table now user cache (some e) =
    if ltb now e.expires_at
    then (e.paths, cache)
    else let paths = grants_of user table in
      (paths, put_entry (record { user = user; paths = paths; expires_at = now + grant_ttl }) cache)

-- grantedPaths: the paths, and the cache behind the call.
unfoldable pub granted_paths :
    List FolderPermission → ℕ → ℕ → List GrantCacheEntry → List Text × List GrantCacheEntry
unfolding fresh_or_load
granted_paths table now user cache =
    fresh_or_load table now user cache (first (λ e. e.user == user) cache)

-- The loop of IsPathGranted over the granted paths.
unfoldable pub is_covered : List Text → Text → Bool
is_covered granted path = any (λ g. covers (clean g) path) granted

-- strconv.Atoi; `none` for an error and for a negative number, which no user has.
abbrev digits : ℕ → Text → Option ℕ
digits n [] = if ltb n 9223372036854775808 then some n else none
digits n (c ∷ s) = if leb 48 c && leb c 57 then digits (n * 10 + (c - 48)) s else none

abbrev zero_only : Option ℕ → Option ℕ
zero_only none = none
zero_only (some n) = if n == 0 then some 0 else none

abbrev unsigned : Text → Option ℕ
unsigned [] = none
unsigned (c ∷ s) = digits 0 (c ∷ s)

unfoldable pub atoi : Text → Option ℕ
atoi [] = none
atoi (c ∷ s) =
    if c == b'+' then unsigned s else if c == b'-' then zero_only (unsigned s) else unsigned (c ∷ s)

unfoldable pub is_granted : (ℕ → List Text) → Option ℕ → Text → Bool
unfolding is_covered
is_granted grants none path = false
is_granted grants (some user) path = is_covered (grants user) path

-- checkPathAccess, true where it returns nil: `system` are the mount points of the system disk,
-- `grants` the granted paths of a user.
unfoldable pub check_path_access : List Text → (ℕ → List Text) → Text → Text → Text → Bool
unfolding is_path_allowed is_granted atoi
check_path_access system grants role user_id path =
    if is_empty role && is_empty user_id
    then true
    else if eqb user_id (text "1")
    then true
    else if is_path_allowed system (clean path) false
    then true
    else not (is_empty user_id) && is_granted grants (atoi user_id) (clean path)
