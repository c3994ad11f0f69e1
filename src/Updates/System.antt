-- ===== src/Updates/System.antt =====
-- UpdateSystemVersion of service/system.go: the choice of the bundle to install.
use nimo_os.Base.{
  Bool, true, false, List, [], ◌∷◌, ◌++◌, Option, none, some, map, select, ◌==◌, if◌then◌else◌,
}
use nimo_os.Text.{Text, before}
use nimo_os.Maps.{Map}
use nimo_os.OpQueue.{sort_texts}
use nimo_os.Updates.{Host}
use nimo_os.Updates.Check.{has_slash, list_dir, is_raucb}

-- os.ReadDir of the upgrade directory: its directories by name. One stands once for each of its
-- files, which makes no difference to the loop over them.
unfoldable pub dir_names : Map Text → List Text
unfolding sort_texts
dir_names files = sort_texts (map (before b'/') (select has_slash (paths files)))
  where
    paths : Map Text → List Text
    paths [] = []
    paths ((p, c) ∷ m) = p ∷ paths m

-- The inner loop: the last bundle of a directory, or the one found before it.
unfoldable pub last_in : Text → List Text → Option (Text × Text) → Option (Text × Text)
last_in dir [] best = best
last_in dir (name ∷ names) best =
    last_in dir names (if is_raucb name then some (dir, name) else best)

unfoldable pub latest_bundle : Map Text → List Text → Option (Text × Text) → Option (Text × Text)
unfolding last_in list_dir
latest_bundle files [] best = best
latest_bundle files (dir ∷ dirs) best =
    latest_bundle files dirs (last_in dir (list_dir dir files) best)

-- strings.TrimPrefix(s, "v")
abbrev pub trim_v : Text → Text
trim_v [] = []
trim_v (c ∷ s) = if c == b'v' then s else c ∷ s

abbrev pub with_target : Option (Text × Text) → Option (Text × Text)
with_target none = none
with_target (some (dir, name)) = some (dir ++ (b'/' ∷ name), trim_v dir)

-- The bundle that is installed, by its path, and the version that it counts as; `none` for an
-- error. `locked`: the lock of the script is held.
unfoldable pub update_system_version : Bool → Host → Option (Text × Text)
unfolding dir_names latest_bundle
update_system_version true h = none
update_system_version false h = with_target (latest_bundle h.files (dir_names h.files) none)
