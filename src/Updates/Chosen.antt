-- ===== src/Updates/Chosen.antt =====
-- Which bundle UpdateSystemVersion of service/system.go installs.
use mathlib.Core.List.{append_assoc}
use nimo_os.Base.{
  ◌≡◌, refl, sym, ap, ◌∙◌, subst, Bool, true, false, not, ◌&&◌, List, [], ◌∷◌, ◌++◌, Option, none,
  some, Bool-cases, inl, inr, arith, All, All-weaken,
}
use nimo_os.Text.{Text, eqb, before, has_prefix, drop_prefix, text}
use nimo_os.Text.Laws.{eqb→eq, eqb_refl, append-drop_prefix}
use nimo_os.Maps.{Map, lookup}
use nimo_os.OpQueue.{text_le, insert_text, sort_texts}
use nimo_os.Updates.{Host, is_in}
use nimo_os.Updates.App.{is_there}
use nimo_os.Updates.Check.{has_slash, names_in, list_dir, is_raucb}
use nimo_os.Updates.System.{dir_names, last_in, latest_bundle, with_target, update_system_version}

before-prefix : (p : Text) → has_slash p ≡ true → has_prefix p (before b'/' p ++ text "/") ≡ true
unfolding has_prefix before
before-prefix [] h = cc
before-prefix (c ∷ p) h = ground (arith, before-prefix p)

-- The path of a name in a directory.
abbrev pub entry_path : Text → Text → Text
entry_path dir name = dir ++ (b'/' ∷ name)

entry_path-drop_prefix :
    (dir p : Text) → is_in (eqb dir) p ≡ true → entry_path dir (drop_prefix p (dir ++ text "/")) ≡ p
entry_path-drop_prefix dir p h =
    sym (append_assoc dir (text "/") (drop_prefix p (dir ++ text "/")))
    ∙ append-drop_prefix p (dir ++ text "/") (
        subst (λ d. has_prefix p (d ++ text "/") ≡ true)
          (sym (eqb→eq dir (before b'/' p) (ground (arith, h))))
          (before-prefix p (ground (arith, h))))

insert_text-All :
    (P : Text → Type 0) (s : Text) (ts : List Text) → P s → All P ts → All P (insert_text s ts)
unfolding insert_text
insert_text-All P s [] h k = (h, tt)
insert_text-All P s (t ∷ ts) h k = elim (Bool-cases (text_le s t)) [
  | inl e ↦ rw e (h, k)
  | inr e ↦ rw e (k.0, insert_text-All P s ts h k.1)
]

sort_texts-All : (P : Text → Type 0) (ts : List Text) → All P ts → All P (sort_texts ts)
unfolding sort_texts
sort_texts-All P [] h = tt
sort_texts-All P (t ∷ ts) h = insert_text-All P t (sort_texts ts) h.0 (sort_texts-All P ts h.1)

-- A file is there.
abbrev IsFile : Map Text → Text → Text → Type 0
IsFile files dir name = is_there (lookup (entry_path dir name) files) ≡ true

there-cons :
    (p q c : Text) (files : Map Text)
    → is_there (lookup p files) ≡ true
    → is_there (lookup p ((q, c) ∷ files)) ≡ true
unfolding lookup
there-cons p q c files h = ground arith

there-here : (p c : Text) (files : Map Text) → is_there (lookup p ((p, c) ∷ files)) ≡ true
unfolding lookup
there-here p c files = rw (eqb_refl p) refl

names_in-IsFile : (dir : Text) (files : Map Text) → All (IsFile files dir) (names_in dir files)
unfolding names_in
names_in-IsFile dir [] = tt
names_in-IsFile dir ((p, c) ∷ files) =
    let others =
      All-weaken (IsFile files dir) (IsFile ((p, c) ∷ files) dir) (names_in dir files)
        (λ n h. there-cons (entry_path dir n) p c files h) (names_in-IsFile dir files) in
    elim (Bool-cases (is_in (eqb dir) p && not (has_slash (drop_prefix p (dir ++ text "/"))))) [
      | inl e ↦ rw e (
        subst (λ q. is_there (lookup q ((p, c) ∷ files)) ≡ true)
            (sym (entry_path-drop_prefix dir p (ground (arith, e)))) (there-here p c files),
        others,
      )
      | inr e ↦ rw e others
    ]

-- What has been found so far is a file.
abbrev IsFound : Map Text → Option (Text × Text) → Type 0
IsFound files none = Unit
IsFound files (some (dir, name)) = IsFile files dir name

last_in-IsFound :
    (files : Map Text) (dir : Text) (names : List Text) (best : Option (Text × Text))
    → All (IsFile files dir) names
    → IsFound files best
    → IsFound files (last_in dir names best)
unfolding last_in
last_in-IsFound files dir [] best h k = k
last_in-IsFound files dir (n ∷ names) best h k = elim (Bool-cases (is_raucb n)) [
  | inl e ↦ rw e (last_in-IsFound files dir names (some (dir, n)) h.1 h.0)
  | inr e ↦ rw e (last_in-IsFound files dir names best h.1 k)
]

latest_bundle-IsFound :
    (files : Map Text) (dirs : List Text) (best : Option (Text × Text))
    → IsFound files best
    → IsFound files (latest_bundle files dirs best)
unfolding latest_bundle list_dir
latest_bundle-IsFound files [] best k = k
latest_bundle-IsFound files (dir ∷ dirs) best k =
    latest_bundle-IsFound files dirs (last_in dir (list_dir dir files) best) (
      last_in-IsFound files dir (list_dir dir files) best
        (sort_texts-All (IsFile files dir) (names_in dir files) (names_in-IsFile dir files)) k)

abbrev bundle_of : Option (Text × Text) → Text
bundle_of none = []
bundle_of (some r) = r.0

with_target-there :
    (files : Map Text) (o : Option (Text × Text)) (bundle version : Text)
    → IsFound files o
    → with_target o ≡ some (bundle, version)
    → is_there (lookup bundle files) ≡ true
with_target-there files none b v k e = cc
with_target-there files (some (dir, name)) b v k e =
    subst (λ p. is_there (lookup p files) ≡ true) (ap bundle_of e) k

-- A bundle that UpdateSystemVersion installs is a file of the upgrade directory.
pub update_system_version-there :
    (locked : Bool) (h : Host) (bundle version : Text)
    → update_system_version locked h ≡ some (bundle, version)
    → is_there (lookup bundle h.files) ≡ true
unfolding update_system_version
update_system_version-there true h b v e = cc
update_system_version-there false h b v e =
    with_target-there h.files (latest_bundle h.files (dir_names h.files) none) b v
      (latest_bundle-IsFound h.files (dir_names h.files) none tt) e
