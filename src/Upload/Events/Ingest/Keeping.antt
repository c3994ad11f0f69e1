-- ===== src/Upload/Events/Ingest/Keeping.antt =====
-- The policies skip and rename of an ingest overwrite no file, route/v2/tus_file.go.
use nimo_os.Base.{
  ℕ, ◌<◌, ◌≡◌, refl, ◌∙◌, sym, true, false, ◌∷◌, ◌++◌, length, List, none, some, Bool-cases, inl,
  inr,
}
use nimo_os.Text.{Text, eqb, elem, text}
use nimo_os.FilePath.{slash, join_path, dir, covers}
use nimo_os.FilePath.Laws.{IsPlain}
use nimo_os.FilePath.Joining.{IsPlace}
use nimo_os.Files.Naming.Candidates.{unique_dest_path-total}
use nimo_os.Upload.Events.{Ingested}
use nimo_os.Upload.Events.Ingest.{
  UploadDisk, IsUploadLawful, info_of, place_file, switch_policy, ingest_to_target_with_policy,
}
use nimo_os.Upload.Events.Ingest.Landing.{IsApart, covers-eqb, place_file-outside}

module _ (s : UploadDisk) (laws : IsUploadLawful s) where
  open s use {fs, remove}
  open fs use {World, Node, node, exists, not_exist, mkdir_all}

  module _ (staged : Text) where
    -- Every file that was there and is apart from the staged one is there unchanged.
    abbrev pub IsKeeping : World → World → Type 0
    IsKeeping w w' =
        (q : Text) (m : Node) → node q w ≡ some m → IsApart s laws staged q → node q w' ≡ some m

    place_file-IsKeeping :
        (dest : Text) (w : World)
        → not_exist dest w ≡ true
        → IsKeeping w (place_file s staged dest w).0
    place_file-IsKeeping dest w free q m there apart = elim (Bool-cases (covers dest q)) [
      | inl c ↦ absurd (sym there ∙ laws.files.absent dest w free q c)
      | inr c ↦ place_file-outside s laws staged dest w q apart c ∙ there
    ]
      where
        absurd : some m ≡ none → node q (place_file s staged dest w).0 ≡ some m
        absurd e = cc e

    skipped-IsKeeping : (w : World) → IsKeeping w (remove (info_of staged) (remove staged w).0).0
    skipped-IsKeeping w q m there apart =
        laws.remove_outside (info_of staged) (remove staged w).0 q apart.1
        ∙ laws.remove_outside staged w q (covers-eqb staged q apart.0)
        ∙ there

    module _ (d n : Text) (place : IsPlace d) (plain : IsPlain n) where
      switch_policy-IsKeeping :
          (fuel : ℕ) (names : List Text) (policy : Text) (w : World)
          → (exists (d ++ (slash ∷ n)) w ≡ false → not_exist (d ++ (slash ∷ n)) w ≡ true)
          → ((x : Text)
              → not_exist (d ++ (slash ∷ x)) w ≡ false
              → elem (d ++ (slash ∷ x)) names ≡ true)
          → length names < fuel
          → eqb policy (text "overwrite") ≡ false
          → (r : World × Ingested) × (switch_policy s fuel staged
                (d ++ (slash ∷ n))
                policy
                (exists (d ++ (slash ∷ n)) w)
                w
              ≡ some r)
            × IsKeeping w r.0
      unfolding switch_policy
      switch_policy-IsKeeping fuel names policy w sees within l o =
          let dest = d ++ (slash ∷ n) in
          elim (Bool-cases (exists dest w)) [
            | inl e ↦ elim (Bool-cases (eqb policy (text "skip"))) [
              | inl k ↦ rw (e, k) (_, refl, skipped-IsKeeping w)
              | inr k ↦
                  let (p, u, g, h) =
                    unique_dest_path-total d n place plain fs fuel names w within l in
                  rw (e, k, o, u) (_, refl, place_file-IsKeeping p w g)
            ]
            | inr e ↦
                let g = place_file-IsKeeping dest w (sees e) in
                elim (Bool-cases (eqb policy (text "skip"))) [
                  | inl k ↦ rw (e, k) (_, refl, g)
                  | inr k ↦ rw (e, k, o) (_, refl, g)
                ]
          ]

      -- With the policy rename or skip, or none, for a target that is a plain name in a directory, and
      -- with fuel for one more candidate than paths exist in this directory, the ingest of an upload ends; whatever it
      -- comes back with, errors of every call included, each file that was there is there unchanged,
      -- apart from the staged file and the .info file beside it. os.Stat of the target fails only
      -- where nothing stands there.
      pub ingest_to_target_with_policy-IsKeeping :
          (fuel : ℕ) (names : List Text) (target_path relative_path policy : Text) (w : World)
          → join_path target_path relative_path ≡ d ++ (slash ∷ n)
          → (exists (d ++ (slash ∷ n)) (mkdir_all (dir (d ++ (slash ∷ n))) w).0 ≡ false
              → not_exist (d ++ (slash ∷ n)) (mkdir_all (dir (d ++ (slash ∷ n))) w).0 ≡ true)
          → ((x : Text)
              → not_exist (d ++ (slash ∷ x)) (mkdir_all (dir (d ++ (slash ∷ n))) w).0 ≡ false
              → elem (d ++ (slash ∷ x)) names ≡ true)
          → length names < fuel
          → eqb policy (text "overwrite") ≡ false
          → (r : World × Ingested) × (ingest_to_target_with_policy s fuel staged target_path
                relative_path policy w
              ≡ some r)
            × IsKeeping w r.0
      unfolding ingest_to_target_with_policy
      ingest_to_target_with_policy-IsKeeping fuel names target_path relative_path policy w j sees
            within l o =
          let made = mkdir_all (dir (d ++ (slash ∷ n))) w in
          elim (Bool-cases made.1) [
            | inl e ↦ rw (j, e) (_, refl, λ q m there apart. laws.mkdir_all_keeps _ w q m there)
            | inr e ↦
                let (r, u, g) = switch_policy-IsKeeping fuel names policy made.0 sees within l o in
                rw (j, e)
                  (r, u, λ q m there apart. g q m (laws.mkdir_all_keeps _ w q m there) apart)
          ]
