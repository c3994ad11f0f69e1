-- ===== src/Updates/Found.antt =====
-- CheckUpdate behind runDownload, service/system.go: a completed download is found.
use mathlib.Core.List.{append_assoc}
use nimo_os.Base.{
  ℕ, ◌≡◌, refl, sym, ap, ◌∙◌, subst, Bool, true, false, not, ◌&&◌, ◌||◌, List, [], ◌∷◌, ◌++◌,
  Option, none, some, Bool-cases, inl, inr, arith, any,
}
use nimo_os.Text.{Text, eqb, drop_prefix, is_empty, text}
use nimo_os.Text.Laws.{eqb_refl, eqb→eq, drop_prefix-append}
use nimo_os.OpQueue.{insert_text, sort_texts}
use nimo_os.Maps.{Map, lookup}
use nimo_os.Files.Naming.{ext}
use nimo_os.Updates.{completed, Host, VersionInfo, is_in, Status}
use nimo_os.Updates.App.{is_there}
use nimo_os.Updates.Os.{os_dir, os_bundle, run_download}
use nimo_os.Updates.Offered.{IsOffered}
use nimo_os.Updates.Versions.{ℤ, compare_versions}
use nimo_os.Updates.Settled.{is_plain, before-append, is_settled, run_download-IsSettled}
use nimo_os.Updates.Check.{
  UpgradeCheckResult, list_dir, names_in, has_slash, is_raucb, scan, still_valid, is_above, judged,
  or_fresh, check_update,
}

scan-any : (names : List Text) → any is_raucb names ≡ true → (scan names).0 ≡ true
unfolding scan
scan-any [] h = cc
scan-any (n ∷ names) h = ground (arith, scan-any names)

any-insert_text :
    (p : Text → Bool) (s : Text) (ts : List Text) → any p (insert_text s ts) ≡ (p s || any p ts)
unfolding insert_text
any-insert_text p s [] = refl
any-insert_text p s (t ∷ ts) = ground (arith, any-insert_text p s ts)

any-sort_texts : (p : Text → Bool) (ts : List Text) → any p (sort_texts ts) ≡ any p ts
unfolding sort_texts
any-sort_texts p [] = refl
any-sort_texts p (t ∷ ts) = ground (arith, any-insert_text p t (sort_texts ts), any-sort_texts p ts)

ext-append : (s t : Text) → is_empty (ext t) ≡ false → ext (s ++ t) ≡ ext t
unfolding ext
ext-append [] t h = refl
ext-append (c ∷ s) t h = ground (arith, ext-append s t h)

-- A file in a directory whose name is that of a bundle.
is_bundle_in : Text → Text → Bool
is_bundle_in dir path =
    (is_in (eqb dir) path && not (has_slash (drop_prefix path (dir ++ (b'/' ∷ [])))))
    && is_raucb (drop_prefix path (dir ++ (b'/' ∷ [])))

any-names_in :
    (dir path : Text) (files : Map Text)
    → is_bundle_in dir path ≡ true
    → is_there (lookup path files) ≡ true
    → any is_raucb (names_in dir files) ≡ true
unfolding names_in lookup is_bundle_in
any-names_in dir path [] h k = cc
any-names_in dir path ((j, c) ∷ files) h k =
    ground (arith, any-names_in dir path files, eqb→eq j path)

no_slash-append :
    (s t : Text) → has_slash s ≡ false → has_slash t ≡ false → has_slash (s ++ t) ≡ false
no_slash-append [] t h k = k
no_slash-append (c ∷ s) t h k = ground (arith, no_slash-append s t)

bundle-name :
    (x : Text)
    → drop_prefix (os_bundle x) (os_dir x ++ text "/") ≡ text "nimo_update_" ++ (x ++ text ".raucb")
bundle-name x =
    ap (λ p. drop_prefix p (os_dir x ++ text "/"))
      (sym (append_assoc (os_dir x) (text "/") (text "nimo_update_" ++ (x ++ text ".raucb"))))
    ∙ drop_prefix-append (os_dir x ++ text "/") (text "nimo_update_" ++ (x ++ text ".raucb"))

has_slash-append : (s t : Text) → has_slash (s ++ (b'/' ∷ t)) ≡ true
has_slash-append [] t = refl
has_slash-append (c ∷ s) t = ground (arith, has_slash-append s t)

os_bundle-in_dir : (x : Text) → is_plain x ≡ true → is_in (eqb (os_dir x)) (os_bundle x) ≡ true
os_bundle-in_dir x h =
    let s = text "nimo_update_" ++ (x ++ text ".raucb") in
    ground (
      arith,
      has_slash-append (os_dir x) s,
      ap (eqb (os_dir x)) (before-append (os_dir x) s h),
      eqb_refl (os_dir x),
    )

raucb-no_slash :
    (x : Text) → is_plain x ≡ true → has_slash (text "nimo_update_" ++ (x ++ text ".raucb")) ≡ false
raucb-no_slash x h =
    no_slash-append (text "nimo_update_") (x ++ text ".raucb") refl
      (no_slash-append x (text ".raucb") (ground (arith, h)) refl)

raucb-is_raucb : (x : Text) → is_raucb (text "nimo_update_" ++ (x ++ text ".raucb")) ≡ true
unfolding ext eqb
raucb-is_raucb x =
    ap (λ e. eqb e (text ".raucb"))
      (ap ext (sym (append_assoc (text "nimo_update_") x (text ".raucb")))
        ∙ ext-append (text "nimo_update_" ++ x) (text ".raucb") refl)

os_bundle-in : (x : Text) → is_plain x ≡ true → is_bundle_in (os_dir x) (os_bundle x) ≡ true
unfolding is_bundle_in
os_bundle-in x h = ground (
  arith,
  os_bundle-in_dir x h,
  ap has_slash (bundle-name x) ∙ raucb-no_slash x h,
  ap is_raucb (bundle-name x) ∙ raucb-is_raucb x,
)

pub scan-list_dir :
    (x : Text) (files : Map Text)
    → is_plain x ≡ true
    → is_there (lookup (os_bundle x) files) ≡ true
    → (scan (list_dir (os_dir x) files)).0 ≡ true
unfolding list_dir
scan-list_dir x files h k = scan-any (sort_texts (names_in (os_dir x) files)) (
    any-sort_texts is_raucb (names_in (os_dir x) files)
    ∙ any-names_in (os_dir x) (os_bundle x) files (os_bundle-in x h) k)

-- An upgrade that is reported is reported as downloaded.
abbrev Downloaded : Option (UpgradeCheckResult × Option UpgradeCheckResult × Host) → Type 0
Downloaded none = Unit
Downloaded (some (r, c, h)) = (not r.has_update || r.is_downloaded) ≡ true

judged-Downloaded :
    (z : Option ℤ) (r : UpgradeCheckResult) (v : VersionInfo) (h : Host)
    → r.has_update ≡ false
    → (scan (list_dir (os_dir v.version) h.files)).0 ≡ true
    → h.downloader.status ≡ completed
    → Downloaded (judged z r v h)
judged-Downloaded none r v h u f s = tt
judged-Downloaded (some z) r v h u f s = elim (Bool-cases (is_above z)) [
  | inl a ↦ rw (a, s) f
  | inr a ↦ rw (a, u) refl
]

settled-there :
    (x : Text) (s : Status) (c : Option ℕ) (b : Option Text)
    → s ≡ completed
    → is_settled x s c b ≡ true
    → is_there b ≡ true
settled-there x s c b e h = ground (arith, subst (λ y. is_settled x y c b ≡ true) e h)

still_valid-completed :
    (c : Option UpgradeCheckResult) (h : Host)
    → h.downloader.status ≡ completed
    → still_valid c h ≡ none
unfolding still_valid
still_valid-completed none h e = refl
still_valid-completed (some r) h e = rw e refl

abbrev asked_again : VersionInfo → Host → Host
asked_again v h = record h { answers = some (true, some v) ∷ [] }

-- If the cloud offers one version throughout, whose name has no slash, CheckUpdate had not found it
-- downloaded, and runDownload has ended as completed, then the next CheckUpdate for which the cloud
-- still offers the version reports it as downloaded if it reports an upgrade, whatever the cache
-- holds.
pub check_update-run_download :
    (sha256 : Text → Text) (x : Text) (h : Host) (v : VersionInfo) (current : Text)
    (cache : Option UpgradeCheckResult)
    → is_plain x ≡ true
    → ((w : VersionInfo) → IsOffered w h.answers → w.version ≡ x)
    → v.version ≡ x
    → (run_download sha256 true true false h).downloader.status ≡ completed
    → (r : UpgradeCheckResult) (c : Option UpgradeCheckResult) (h' : Host)
    → check_update current true cache (asked_again v (run_download sha256 true true false h))
      ≡ some (r, c, h')
    → (not r.has_update || r.is_downloaded) ≡ true
unfolding check_update
check_update-run_download sha256 x h v current cache plain one e s r c h' k =
    let g = run_download sha256 true true false h in
    subst Downloaded
      (sym (
          ap (λ kept. or_fresh current true kept cache (asked_again v g))
            (still_valid-completed cache (asked_again v g) s))
        ∙ k)
      (judged-Downloaded (compare_versions v.version current) _ v _ refl
        (subst (λ y. (scan (list_dir (os_dir y) g.files)).0 ≡ true) (sym e)
          (scan-list_dir x g.files plain
            (settled-there x _ _ _ s (run_download-IsSettled sha256 x plain true true h one))))
        s)
