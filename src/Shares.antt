-- ===== src/Shares.antt =====
-- service/shares.go: the records of the shared folders, and what becomes of them when a folder is
-- deleted or moved.
--
-- The table is the list of its rows. LIKE is that of SQLite: `%` stands for any text, `_` for one
-- byte, a byte behind `\` for itself, and ASCII letters match in either case. The code drops the
-- errors of the database, so a statement is modelled where it succeeds. The smb configuration that
-- is written behind a change is output.
pub mod Scope
pub mod Rewriting
pub mod Examples
use nimo_os.Base.{
  ℕ, suc, ◌+◌, Bool, true, false, not, ◌&&◌, ◌||◌, List, [], ◌∷◌, ◌++◌, map, select, leb, ◌==◌,
  if◌then◌else◌,
}
use nimo_os.Text.{Text, eqb, is_empty, has_prefix, drop_prefix, trim_right}
use nimo_os.FilePath.{slash, base}

pub record Share : Type 0 where
  pub id : ℕ
  pub anonymous : Bool
  pub path : Text
  pub name : Text
  pub username : Text

abbrev pub backslash : ℕ
backslash = b'\\'

abbrev pub percent : ℕ
percent = b'%'

abbrev pub underscore : ℕ
underscore = b'_'

abbrev pub fold : ℕ → ℕ
fold c = if leb 65 c && leb c 90 then c + 32 else c

-- One byte of the text that matches a byte of the pattern, and the rest of the text.
abbrev pub one : ℕ → (Text → Bool) → Text → Bool
one d rest [] = false
one d rest (c ∷ s) = fold c == fold d && rest s

abbrev pub any_one : (Text → Bool) → Text → Bool
any_one rest [] = false
any_one rest (c ∷ s) = rest s

abbrev pub any_end : (Text → Bool) → Text → Bool
any_end rest [] = rest []
any_end rest (c ∷ s) = rest (c ∷ s) || any_end rest s

abbrev pub like_byte : ℕ → (Text → Bool) → Text → Bool
like_byte d rest =
    if d == percent then any_end rest else if d == underscore then any_one rest else one d rest

-- t LIKE pattern ESCAPE '\'
unfoldable pub like : Text → Text → Bool
like [] = is_empty
like (d ∷ []) = like_byte d (like [])
like (d ∷ (e ∷ pattern)) =
    let rest = like (e ∷ pattern) in
    let behind = like pattern in if d == backslash then one e behind else like_byte d rest

-- strings.NewReplacer of the three bytes that LIKE reads.
unfoldable pub escape : Text → Text
escape [] = []
escape (c ∷ s) =
    let rest = escape s in
    if c == backslash || c == percent || c == underscore then backslash ∷ (c ∷ rest) else c ∷ rest

abbrev pub or_root : Text → Text
or_root [] = slash ∷ []
or_root (c ∷ s) = c ∷ s

unfoldable pub share_path_scope : Text → Text × Text
share_path_scope path =
    let exact = or_root (trim_right slash path) in
    if eqb exact (slash ∷ [])
    then (exact, slash ∷ (percent ∷ []))
    else (exact, escape exact ++ (slash ∷ (percent ∷ [])))

-- path = ? OR path LIKE ? ESCAPE '\'
unfoldable pub in_scope : Text × Text → Text → Bool
in_scope (exact, subtree) p = eqb p exact || like subtree p

unfoldable pub delete_share_by_path : Text → List Share → List Share
delete_share_by_path path rows = select (λ r. not (in_scope (share_path_scope path) r.path)) rows

unfoldable pub rewrite_share_path : Text → Text → Text → Text
rewrite_share_path share_path old_exact new_exact =
    if eqb share_path old_exact
    then new_exact
    else if has_prefix share_path (old_exact ++ slash ∷ [])
    then new_exact ++ drop_prefix share_path old_exact
    else share_path

abbrev pub update_path : ℕ → Text → List Share → List Share
update_path id path rows =
    map (λ r. if r.id == id then record r { path = path; name = base path } else r) rows

-- The loop over the rows that were found: the count and the table.
unfoldable pub rewrite_rows : Text → Text → List Share → List Share → ℕ → List Share × ℕ
rewrite_rows old_exact new_exact [] table n = (table, n)
rewrite_rows old_exact new_exact (r ∷ rs) table n =
    let path = rewrite_share_path r.path old_exact new_exact in
    rewrite_rows old_exact new_exact rs
      (if eqb path r.path then table else update_path r.id path table)
      (if eqb path r.path then n else suc n)

unfoldable pub rewrite_share_path_prefix : Text → Text → List Share → List Share × ℕ
rewrite_share_path_prefix old_path new_path table =
    rewrite_rows (share_path_scope old_path).0 (trim_right slash new_path)
      (select (λ r. in_scope (share_path_scope old_path) r.path) table) table 0

pub get_shares_by_name : Text → List Share → List Share
get_shares_by_name name rows = select (λ r. eqb r.name name) rows

pub get_shares_by_path : Text → List Share → List Share
get_shares_by_path path rows = select (λ r. eqb r.path path) rows

pub delete_share : ℕ → List Share → List Share
delete_share id rows = select (λ r. not (r.id == id)) rows
