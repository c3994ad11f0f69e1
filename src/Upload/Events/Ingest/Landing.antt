-- ===== src/Upload/Events/Ingest/Landing.antt =====
-- Where a completed file ends up, and which files its move leaves alone, route/v2/tus_file.go.
use mathlib.Core.List.{append-nil}
use nimo_os.Base.{
  ◌≡◌, refl, ap, ◌∙◌, sym, subst, Bool, true, false, ◌++◌, [], Option, none, some, arith,
}
use nimo_os.Text.{Text, eqb}
use nimo_os.FilePath.{covers}
use nimo_os.Text.Laws.{eqb_iff}
use nimo_os.FilePath.Laws.{covers_self}
use nimo_os.Files.{RenameError}
use nimo_os.Upload.Events.{Ingested, ingest_failed, ingested}
use nimo_os.Upload.Events.Ingest.{
  UploadDisk, IsUploadLawful, info_of, copy_file_v2, renamed_or_copied, copied_or_failed,
  place_file,
}

pub covers-eqb : (p q : Text) → covers p q ≡ false → eqb q p ≡ false
unfolding covers
covers-eqb p q h = ground arith

eqb-sym : (p q : Text) → eqb p q ≡ false → eqb q p ≡ false
eqb-sym p q h = ground (arith, eqb_iff p q, eqb_iff q p)

module _ (s : UploadDisk) (laws : IsUploadLawful s) where
  open s use {fs, remove, open_file, create_file, io_copy, close_file}
  open fs use {World, Node, node, exists, not_exist, mkdir_all, rename, purge_thumb}

  copy_file_v2-outside :
      (a b : Text) (w : World) (q : Text)
      → eqb q b ≡ false
      → node q (copy_file_v2 s a b w).0 ≡ node q w
  unfolding copy_file_v2
  copy_file_v2-outside a b w q h =
      let opened = open_file a w in
      let made = create_file b opened.0 in
      let copied = io_copy a b made.0 in
      let closed = close_file b copied.0 in
      ground (
        arith,
        laws.open_same a w q,
        laws.create_outside b opened.0 q h,
        laws.io_copy_outside a b made.0 q h,
        laws.close_same b copied.0 q,
        laws.remove_outside b closed.0 q h,
      )

  copy_file_v2-copies :
      (a b : Text) (w : World)
      → eqb a b ≡ false
      → (copy_file_v2 s a b w).1 ≡ false
      → node b (copy_file_v2 s a b w).0 ≡ node a w
  unfolding copy_file_v2
  copy_file_v2-copies a b w h e =
      let opened = open_file a w in
      let made = create_file b opened.0 in
      let copied = io_copy a b made.0 in
      ground (
        arith,
        laws.open_same a w a,
        laws.create_outside b opened.0 a h,
        laws.io_copy_copies a b made.0,
        laws.close_same b copied.0 b,
      )

  module _ (staged : Text) where
    -- A path that the move of this staged file is not about.
    abbrev pub IsApart : Text → Type 0
    IsApart q = (covers staged q ≡ false) × (eqb q (info_of staged) ≡ false)

    pub place_file-outside :
        (dest : Text) (w : World) (q : Text)
        → IsApart q
        → covers dest q ≡ false
        → node q (place_file s staged dest w).0 ≡ node q w
    unfolding place_file
    place_file-outside dest w q h k =
        by_case (rename staged dest w') (laws.files.rename_outside staged dest w' q h.0 k)
        ∙ laws.files.purge_thumb_same dest w q
      where
        w' : World
        w' = purge_thumb dest w

        by_copy :
            (e : RenameError) (r : World × Bool) (o : Option Node)
            → node q r.0 ≡ o
            → node q (copied_or_failed s staged dest e r).0 ≡ o
        by_copy e (u, true) o g = g
        by_copy e (u, false) o g =
            laws.remove_outside (info_of staged) (remove staged u).0 q h.1
            ∙ laws.remove_outside staged u q (covers-eqb staged q h.0)
            ∙ g

        by_case :
            (r : World × Option RenameError)
            → node q r.0 ≡ node q w'
            → node q (renamed_or_copied s staged dest r).0 ≡ node q w'
        by_case (u, none) g = laws.remove_outside (info_of staged) u q h.1 ∙ g
        by_case (u, some e) g =
            by_copy e (copy_file_v2 s staged dest u) _
              (copy_file_v2-outside staged dest u q (covers-eqb dest q k) ∙ g)

    -- The bytes of a file that is there.
    abbrev IsDelivered : Option Node → World × Ingested → Type 0
    IsDelivered o (u, ingest_failed m) = Unit
    IsDelivered o (u, ingested d skipped) = node d u ≡ o

    place_file-IsDelivered :
        (dest : Text) (w : World)
        → IsApart dest
        → IsDelivered (node staged w) (place_file s staged dest w)
    unfolding place_file
    place_file-IsDelivered dest w h = by_case (rename staged dest w') refl
      where
        w' : World
        w' = purge_thumb dest w

        renamed :
            (rename staged dest w').1 ≡ none → node dest (rename staged dest w').0 ≡ node staged w'
        renamed g =
            subst (λ p. node p (rename staged dest w').0 ≡ node staged w') (append-nil {0} dest)
              (subst (λ p. node (dest ++ []) (rename staged dest w').0 ≡ node p w')
                (append-nil {0} staged)
                (laws.files.rename_moves staged dest w' g [] (covers_self [])))

        same : node staged w' ≡ node staged w
        same = laws.files.purge_thumb_same dest w staged

        by_copy :
            (e : RenameError) (u : World) (r : World × Bool)
            → copy_file_v2 s staged dest u ≡ r
            → node staged u ≡ node staged w
            → IsDelivered (node staged w) (copied_or_failed s staged dest e r)
        by_copy e u (v, true) c g = tt
        by_copy e u (v, false) c g =
            laws.remove_outside (info_of staged) (remove staged v).0 dest h.1
            ∙ laws.remove_outside staged v dest (covers-eqb staged dest h.0)
            ∙ ap (λ (r : World × Bool). node dest r.0) (sym c)
            ∙ copy_file_v2-copies staged dest u (eqb-sym dest staged (covers-eqb staged dest h.0))
                (ap (λ (r : World × Bool). r.1) c)
            ∙ g

        by_case :
            (r : World × Option RenameError)
            → rename staged dest w' ≡ r
            → IsDelivered (node staged w) (renamed_or_copied s staged dest r)
        by_case (u, none) c =
            laws.remove_outside (info_of staged) u dest h.1
            ∙ ap (λ (r : World × Option RenameError). node dest r.0) (sym c)
            ∙ renamed (ap (λ (r : World × Option RenameError). r.1) c)
            ∙ same
        by_case (u, some e) c = by_copy e u (copy_file_v2 s staged dest u) refl (
            ap (λ (r : World × Option RenameError). node staged r.0) (sym c)
            ∙ laws.files.rename_fails staged dest w' e
                (ap (λ (r : World × Option RenameError). r.1) c) staged
            ∙ same)

    abbrev IsAt : Text → Ingested → Type 0
    IsAt dest (ingest_failed m) = Unit
    IsAt dest (ingested d skipped) = d ≡ dest

    place_file-IsAt : (dest : Text) (w : World) → IsAt dest (place_file s staged dest w).1
    unfolding place_file
    place_file-IsAt dest w = by_case (rename staged dest (purge_thumb dest w))
      where
        by_copy :
            (e : RenameError) (r : World × Bool) → IsAt dest (copied_or_failed s staged dest e r).1
        by_copy e (v, true) = tt
        by_copy e (v, false) = refl

        by_case : (r : World × Option RenameError) → IsAt dest (renamed_or_copied s staged dest r).1
        by_case (u, none) = refl
        by_case (u, some e) = by_copy e (copy_file_v2 s staged dest u)

    pub place_file-delivers :
        (dest d : Text) (w w' : World)
        → place_file s staged dest w ≡ (w', ingested d false)
        → IsApart d
        → node d w' ≡ node staged w
    place_file-delivers dest d w w' e apart =
        let p : d ≡ dest =
          subst (λ (r : World × Ingested). IsAt dest r.1) e (place_file-IsAt dest w) in
        let h = place_file-IsDelivered dest w (subst IsApart p apart) in
        subst (λ (r : World × Ingested). IsDelivered (node staged w) r) e h
