-- ===== src/Upload/Events/Ingest/Delivering.antt =====
-- Every policy of an ingest delivers what was staged, route/v2/tus_file.go.
use nimo_os.Base.{
  ℕ, ◌≡◌, ◌∙◌, Bool, true, false, Option, none, some, Bool-cases, inl, inr, if◌then◌else◌,
}
use nimo_os.Text.{Text, eqb, text}
use nimo_os.FilePath.{join_path, dir}
use nimo_os.Files.Naming.{unique_dest_path}
use nimo_os.Upload.Events.{ingested}
use nimo_os.Upload.Events.Ingest.{
  UploadDisk, IsUploadLawful, info_of, place_file, place_at, switch_policy,
  ingest_to_target_with_policy,
}
use nimo_os.Upload.Events.Ingest.Landing.{IsApart, place_file-delivers}

module _ (s : UploadDisk) (laws : IsUploadLawful s) where
  open s use {fs, remove}
  open fs use {World, Node, node, exists, mkdir_all}

  module _ (staged : Text) where
    switched-delivers :
        (fuel : ℕ) (dest policy d : Text) (b : Bool) (w w' : World)
        → switch_policy s fuel staged dest policy b w ≡ some (w', ingested d false)
        → IsApart s laws staged d
        → node d w' ≡ node staged w
    unfolding switch_policy
    switched-delivers fuel dest policy d b w w' e apart =
        by_case (eqb policy (text "skip")) b (eqb policy (text "overwrite"))
          (if b then unique_dest_path fs fuel dest w else some dest) e
      where
        by_found :
            (o : Option Text)
            → place_at s staged w o ≡ some (w', ingested d false)
            → node d w' ≡ node staged w
        by_found none e = cc e
        by_found (some p) e = place_file-delivers s laws staged p d w w' (cc e) apart

        by_case :
            (k b o : Bool) (found : Option Text)
            → (if k
                then (if b
                    then some ((remove (info_of staged) (remove staged w).0).0, ingested dest true)
                    else some (place_file s staged dest w))
                else if o
                then some (place_file s staged dest w)
                else place_at s staged w found)
              ≡ some (w', ingested d false)
            → node d w' ≡ node staged w
        by_case true true o found e = cc e
        by_case true false o found e = place_file-delivers s laws staged dest d w w' (cc e) apart
        by_case false b true found e = place_file-delivers s laws staged dest d w w' (cc e) apart
        by_case false b false found e = by_found found e

    -- A successful ingest, of any policy, that does not skip the file leaves at the path that it
    -- comes back with what was staged, where this path is apart from the staged file.
    pub ingest_to_target_with_policy-delivers :
        (fuel : ℕ) (target_path relative_path policy dest : Text) (w w' : World) (m : Node)
        → node staged w ≡ some m
        → ingest_to_target_with_policy s fuel staged target_path relative_path policy w
          ≡ some (w', ingested dest false)
        → IsApart s laws staged dest
        → node dest w' ≡ some m
    unfolding ingest_to_target_with_policy
    ingest_to_target_with_policy-delivers fuel target_path relative_path policy d w w' m there e
          apart =
        let dest = join_path target_path relative_path in
        let made = mkdir_all (dir dest) w in
        elim (Bool-cases made.1) [
          | inl f ↦ let g = rw f at e in cc g
          | inr f ↦
              switched-delivers fuel dest policy d (exists dest made.0) made.0 w' (rw f at e) apart
              ∙ laws.mkdir_all_keeps _ w staged m there
        ]
