-- ===== src/Files/Memory/Lawful.antt =====
-- The file system in memory keeps the laws of Files.IsLawful.
use mathlib.Core.List.{append-nil}
use nimo_os.Base.{
  ℕ, ◌≡◌, refl, ◌∙◌, sym, subst, true, false, not, ◌&&◌, List, [], ◌∷◌, ◌++◌, Option, none, some,
  arith, any, All, Bool-cases, inl, inr, ◌==◌,
}
use nimo_os.Text.{Text, eqb, elem, has_prefix, drop_prefix}
use nimo_os.Text.Laws.{eqb_refl, eqb→eq, drop_prefix-append}
use nimo_os.Maps.Laws.{elem-append}
use nimo_os.FilePath.{slash, covers}
use nimo_os.FilePath.Laws.{NoSlash, IsPlain, covers_self}
use nimo_os.FilePath.Joining.{covers-extend}
use nimo_os.Files.{IsLawful, IsBelow, RenameError}
use nimo_os.Files.Memory.{
  Disk, disk_node, is_some, with_entries, rekey, copied_entry, moved_entry, removed_entry,
  made_entry, copy_tree, move_tree, remove_tree, make_dir, rename_by, rename_disk, is_plain,
  names_below, cp_disk, memory,
}

-- An entry that stays the same is there exactly when it was.
pub with_entries-old :
    (f : Text → Option ℕ) (extra : List Text) (w : Disk) (q : Text)
    → f q ≡ disk_node q w
    → disk_node q (with_entries f extra w) ≡ disk_node q w
with_entries-old f extra w q h = ground (arith, elem-append q w.paths extra)

below-covers : (b r : Text) → IsBelow r → covers b (b ++ r) ≡ true
below-covers b [] h = rw append-nil (covers_self b)
below-covers b (c ∷ r) h = covers-extend b c r ∙ sym (covers-extend [] c r) ∙ h

elem-rekey :
    (a b r : Text) (ps : List Text)
    → IsBelow r
    → elem (a ++ r) ps ≡ true
    → elem (b ++ r) (rekey a b ps) ≡ true
unfolding elem
elem-rekey a b r [] l h = cc h
elem-rekey a b r (k ∷ ps) l h = elim (Bool-cases (eqb k (a ++ r))) [
  | inl e ↦
      subst (λ x. elem (b ++ r) (rekey a b (x ∷ ps)) ≡ true) (sym (eqb→eq k (a ++ r) e))
        (rw (below-covers a r l, drop_prefix-append a r, eqb_refl (b ++ r)) refl)
  | inr e ↦ later (elem-rekey a b r ps l (ground arith))
]
  where
    later : elem (b ++ r) (rekey a b ps) ≡ true → elem (b ++ r) (rekey a b (k ∷ ps)) ≡ true
    later h = elim (Bool-cases (covers a k)) [ inl e ↦ rw e (ground arith) | inr e ↦ rw e h ]

-- What lies at or below a path that takes the entries of another one.
with_entries-new :
    (f : Text → Option ℕ) (a b r : Text) (w : Disk)
    → IsBelow r
    → f (b ++ r) ≡ disk_node (a ++ r) w
    → disk_node (b ++ r) (with_entries f (rekey a b w.paths) w) ≡ disk_node (a ++ r) w
with_entries-new f a b r w l h =
    ground (arith, elem-append (b ++ r) w.paths (rekey a b w.paths), elem-rekey a b r w.paths l)

move_tree-below :
    (a b r : Text) (w : Disk)
    → IsBelow r
    → disk_node (b ++ r) (move_tree a b w) ≡ disk_node (a ++ r) w
unfolding move_tree
move_tree-below a b r w l =
    with_entries-new (moved_entry a b w) a b r w l
      (rw (below-covers b r l, drop_prefix-append b r) refl)

move_tree-outside :
    (a b : Text) (w : Disk) (q : Text)
    → covers a q ≡ false
    → covers b q ≡ false
    → disk_node q (move_tree a b w) ≡ disk_node q w
unfolding move_tree
move_tree-outside a b w q h k =
    with_entries-old (moved_entry a b w) (rekey a b w.paths) w q (rw (h, k) refl)

copy_tree-outside :
    (a b : Text) (w : Disk) (q : Text)
    → covers b q ≡ false
    → disk_node q (copy_tree a b w) ≡ disk_node q w
unfolding copy_tree
copy_tree-outside a b w q h =
    with_entries-old (copied_entry a b w) (rekey a b w.paths) w q (rw h refl)

cp_disk-outside :
    (a b : Text) (w : Disk) (q : Text)
    → covers b q ≡ false
    → disk_node q (cp_disk a b w).0 ≡ disk_node q w
unfolding cp_disk
cp_disk-outside a b w q h = elim (Bool-cases w.no_cp) [
  | inl e ↦ rw e refl
  | inr e ↦ rw e (copy_tree-outside a b w q h)
]

remove_tree-outside :
    (p : Text) (w : Disk) (q : Text)
    → covers p q ≡ false
    → disk_node q (remove_tree p w) ≡ disk_node q w
unfolding remove_tree
remove_tree-outside p w q h = with_entries-old (removed_entry p w) [] w q (rw h refl)

make_dir-outside :
    (p : Text) (w : Disk) (q : Text) (n : ℕ)
    → covers p q ≡ false
    → disk_node q w ≡ some n
    → disk_node q (make_dir p w) ≡ some n
unfolding make_dir covers
make_dir-outside p w q n h k = with_entries-old (made_entry p w) (p ∷ []) w q (ground arith) ∙ k

rename_disk-fails :
    (os : List (Option RenameError)) (a b : Text) (w : Disk) (e : RenameError)
    → (rename_disk os a b w).1 ≡ some e
    → (q : Text) → disk_node q (rename_disk os a b w).0 ≡ disk_node q w
unfolding rename_disk rename_by
rename_disk-fails [] a b w e h q = cc h
rename_disk-fails (none ∷ os) a b w e h q = cc h
rename_disk-fails (some x ∷ os) a b w e h q = refl

rename_disk-moves :
    (os : List (Option RenameError)) (a b : Text) (w : Disk)
    → (rename_disk os a b w).1 ≡ none
    → (r : Text) → IsBelow r
    → disk_node (b ++ r) (rename_disk os a b w).0 ≡ disk_node (a ++ r) w
unfolding rename_disk rename_by
rename_disk-moves [] a b w h r l = move_tree-below a b r w l
rename_disk-moves (none ∷ os) a b w h r l = move_tree-below a b r (record w { renames = os }) l
rename_disk-moves (some x ∷ os) a b w h r l = cc h

rename_disk-outside :
    (os : List (Option RenameError)) (a b : Text) (w : Disk) (q : Text)
    → covers a q ≡ false
    → covers b q ≡ false
    → disk_node q (rename_disk os a b w).0 ≡ disk_node q w
unfolding rename_disk rename_by
rename_disk-outside [] a b w q h k = move_tree-outside a b w q h k
rename_disk-outside (none ∷ os) a b w q h k =
    move_tree-outside a b (record w { renames = os }) q h k
rename_disk-outside (some x ∷ os) a b w q h k = refl

any-slash-NoSlash : (n : Text) → any (λ c. c == slash) n ≡ false → NoSlash n
any-slash-NoSlash [] h = tt
any-slash-NoSlash (c ∷ n) h = (ground arith, any-slash-NoSlash n (ground arith))

is_plain-IsPlain : (n : Text) → is_plain n ≡ true → IsPlain n
is_plain-IsPlain n h =
    (any-slash-NoSlash n (ground arith), ground arith, ground arith, ground arith)

names_below-IsPlain :
    (p : Text) (w : Disk) (ks : List Text) → All (λ fd. IsPlain fd.0) (names_below p w ks)
unfolding names_below
names_below-IsPlain p w [] = tt
names_below-IsPlain p w (k ∷ ks) =
    elim (Bool-cases
      (has_prefix k (p ++ slash ∷ []) && is_plain (drop_prefix k (p ++ slash ∷ [])))) [
        | inl e ↦ rw e (
          is_plain-IsPlain (drop_prefix k (p ++ slash ∷ [])) (ground arith),
          names_below-IsPlain p w ks,
        )
        | inr e ↦ rw e (names_below-IsPlain p w ks)
      ]

any-absent :
    (p q : Text) (w : Disk) (ps : List Text)
    → any (λ k. covers p k && is_some (disk_node k w)) ps ≡ false
    → covers p q ≡ true
    → elem q ps ≡ true
    → disk_node q w ≡ none
unfolding elem
any-absent p q w [] h c e = cc e
any-absent p q w (k ∷ ps) h c e = elim (Bool-cases (eqb k q)) [
  | inl f ↦
      here (disk_node q w)
        (subst (λ x. (covers p x && is_some (disk_node x w)) ≡ false) (eqb→eq k q f) (ground arith))
  | inr f ↦ any-absent p q w ps (ground arith) c (ground arith)
]
  where
    here : (o : Option ℕ) → (covers p q && is_some o) ≡ false → o ≡ none
    here none h = refl
    here (some n) h = ground arith

absent-node :
    (p q : Text) (w : Disk)
    → not (any (λ k. covers p k && is_some (disk_node k w)) w.paths) ≡ true
    → covers p q ≡ true
    → disk_node q w ≡ none
absent-node p q w h c = elim (Bool-cases (elem q w.paths)) [
  | inl e ↦ any-absent p q w w.paths (ground arith) c e
  | inr e ↦ rw e refl
]

pub memory-IsLawful : IsLawful memory
memory-IsLawful = record {
  rename_fails = λ a b w e h q. rename_disk-fails w.renames a b w e h q;
  rename_moves = λ a b w h r l. rename_disk-moves w.renames a b w h r l;
  rename_outside = λ a b w q h k. rename_disk-outside w.renames a b w q h k;
  remove_all_outside = λ p w q h. remove_tree-outside p w q h;
  cancel_stays = λ p w h. unfold remove_tree in h;
  mkdir_all_outside = λ p w q n h k. make_dir-outside p w q n h k;
  cp_file_outside = λ a b w q h. cp_disk-outside a b w q h;
  cp_dir_outside = λ a b w q h. cp_disk-outside a b w q h;
  copy_bytes_outside = λ a b w q h. copy_tree-outside a b w q h;
  purge_thumb_same = λ p w q. refl;
  interfere_keeps = λ p w q n h. h;
  read_dir_plain =
      λ p w fds h. subst (All (λ fd. IsPlain fd.0)) (cc h) (names_below-IsPlain p w w.paths);
  absent = λ p w h q c. absent-node p q w h c;
}
