-- ===== src/Transfers/Keeping.antt =====
-- What a whole move or copy leaves alone, over all of its items.
use nimo_os.Base.{
  ℕ, ◌≡◌, refl, Bool, true, false, List, [], ◌∷◌, Option, none, some, Bool-cases, inl, inr, All,
}
use nimo_os.Text.{Text, eqb, text}
use nimo_os.FilePath.{covers}
use nimo_os.FilePath.Joining.{IsPlace}
use nimo_os.Files.{FileSystem, IsLawful}
use nimo_os.Files.Copying.{copy_dir_contents, copy_dir}
use nimo_os.Files.Outside.{Keeps, Keeps-trans, Outside-Keeps, copy_dir_contents-Keeps}
use nimo_os.OpQueue.{FileItem, FileOperate}
use nimo_os.Transfers.{
  Moved, renamed, copied, failed, move_item, op_dest_path, resolve_rename_target,
}
use nimo_os.Transfers.Items.{
  ItemOutcome, Run, after_item, after_move, after_copy, move_aside, copy_aside, move_conflict,
  copy_conflict, move_step, copy_step, operate_item, operate_items, is_replacing,
}
use nimo_os.Transfers.Moving.{move_item-IsSafe}
use nimo_os.Transfers.Targets.{
  IsItem, Stays, Stays-trans, new-Stays, IsTarget, resolve_rename_target-IsTarget,
  get_no_duplicate-IsPlace, op_dest_path-IsPlace,
}

-- What lies outside a source.
abbrev pub IsApart : Text → Text → Type 0
IsApart from q = covers from q ≡ false

abbrev IsAny : Text → Type 0
IsAny q = Unit

module _ (s : FileSystem) (laws : IsLawful s) where
  open s use {World, Node, node}

  after_move-world :
      (dst : Text) (v : FileItem) (r : World × Moved) → (after_move s dst v r).0 ≡ r.0
  unfolding after_move
  after_move-world dst v (w, renamed) = refl
  after_move-world dst v (w, copied) = refl
  after_move-world dst v (w, failed) = refl

  -- A move to what does not exist.
  move-Stays :
      (fuel : ℕ) (from dst style : Text) (w : World) (v : FileItem)
      → IsPlace dst
      → s.not_exist dst w ≡ true
      → Stays s (IsApart from) w (after_move s dst v (move_item s fuel from dst style w)).0
  move-Stays fuel from dst style w v place new =
      rw (after_move-world dst v (move_item s fuel from dst style w)) (
        new-Stays s laws (IsApart from) dst w _ new
          (λ q n a c e. (move_item-IsSafe s laws fuel from dst style w place).1 q n a c e))

  after_copy-Keeps :
      (dst : Text) (v : FileItem) (w : World) (r : World × Bool)
      → Keeps s dst w r.0
      → Keeps s dst w (after_copy s dst v r).0
  unfolding after_copy
  after_copy-Keeps dst v w (u, false) h = h
  after_copy-Keeps dst v w (u, true) h = elim (Bool-cases (s.ctx_err u)) [
    | inl e ↦
        rw e (Keeps-trans s dst w u _ h (Outside-Keeps s dst u _ (laws.remove_all_outside dst u)))
    | inr e ↦ rw e h
  ]

  copy-Stays :
      (fuel : ℕ) (from dst style : Text) (w : World) (v : FileItem)
      → IsPlace dst
      → s.not_exist dst w ≡ true
      → Stays s IsAny w (after_copy s dst v (copy_dir_contents s fuel from dst style w)).0
  copy-Stays fuel from dst style w v place new = new-Stays s laws IsAny dst w _ new (λ q n x c e.
      after_copy-Keeps dst v w (copy_dir_contents s fuel from dst style w)
        (copy_dir_contents-Keeps s laws fuel from dst style w place) q n c e)

  move_aside-Stays :
      (attempts fuel : ℕ) (t : FileOperate) (v : FileItem) (w : World) (r : World × Option Text)
      → IsTarget s laws w r
      → Stays s (IsApart v.from) w (move_aside s attempts fuel t v r).0
  unfolding move_aside
  move_aside-Stays attempts fuel t v w (u, none) h q n a e = h q n tt e
  move_aside-Stays attempts fuel t v w (u, some p) (h, place, new) q n a e =
      move-Stays fuel v.from p t.style u v place new q n a (h q n tt e)

  copy_aside-Stays :
      (attempts fuel : ℕ) (t : FileOperate) (v : FileItem) (w : World) (r : World × Option Text)
      → IsTarget s laws w r
      → Stays s IsAny w (copy_aside s attempts fuel t v r).0
  unfolding copy_aside
  copy_aside-Stays attempts fuel t v w (u, none) h q n a e = h q n tt e
  copy_aside-Stays attempts fuel t v w (u, some p) (h, place, new) q n a e =
      copy-Stays fuel v.from p t.style u v place new q n tt (h q n tt e)

  module _ (attempts fuel : ℕ) (t : FileOperate) (gentle : is_replacing t.style ≡ false) where
    module _ (v : FileItem) (h : IsItem t.to v.from) (w : World) where
      target :
          IsTarget s laws w (resolve_rename_target s attempts fuel (op_dest_path v.from t.to) w)
      target =
          resolve_rename_target-IsTarget s laws attempts fuel (op_dest_path v.from t.to) w
            (λ p u e. get_no_duplicate-IsPlace s fuel t.to v.from h p u e)

      move_conflict-Stays :
          Stays s
            (IsApart v.from)
            w
            (move_conflict s attempts fuel t v (op_dest_path v.from t.to) w).0
      unfolding move_conflict
      move_conflict-Stays = elim (Bool-cases (eqb t.style (text "skip"))) [
        | inl e ↦ rw e (λ q n a k. k)
        | inr e ↦ elim (Bool-cases (eqb t.style (text "rename"))) [
          | inl f ↦ rw (e, gentle, f) (move_aside-Stays attempts fuel t v w _ target)
          | inr f ↦ rw (e, gentle, f) (λ q n a k. k)
        ]
      ]

      copy_conflict-Stays :
          Stays s IsAny w (copy_conflict s attempts fuel t v (op_dest_path v.from t.to) w).0
      unfolding copy_conflict
      copy_conflict-Stays = elim (Bool-cases (eqb t.style (text "skip"))) [
        | inl e ↦ rw e (λ q n a k. k)
        | inr e ↦ elim (Bool-cases (eqb t.style (text "rename"))) [
          | inl f ↦ rw (e, gentle, f) (copy_aside-Stays attempts fuel t v w _ target)
          | inr f ↦ rw (e, gentle, f) (λ q n a k. k)
        ]
      ]

      move_step-Stays : Stays s (IsApart v.from) w (move_step s attempts fuel t v w).0
      unfolding move_step
      move_step-Stays = elim (Bool-cases (s.not_exist (op_dest_path v.from t.to) w)) [
        | inl e ↦ rw e (
            move-Stays fuel v.from (op_dest_path v.from t.to) t.style w v
              (op_dest_path-IsPlace t.to v.from h) e)
        | inr e ↦ rw e move_conflict-Stays
      ]

      copy_dir-place :
          copy_dir s fuel v.from t.to t.style w
          ≡ copy_dir_contents s fuel v.from (op_dest_path v.from t.to) t.style w
      unfolding copy_dir op_dest_path
      copy_dir-place = refl

      copy_step-Stays : Stays s IsAny w (copy_step s attempts fuel t v w).0
      unfolding copy_step
      copy_step-Stays = elim (Bool-cases (s.not_exist (op_dest_path v.from t.to) w)) [
        | inl e ↦
            rw (e, copy_dir-place)
              (copy-Stays fuel v.from (op_dest_path v.from t.to) t.style w v
                (op_dest_path-IsPlace t.to v.from h) e)
        | inr e ↦ rw e copy_conflict-Stays
      ]

      operate_item-Stays :
          Stays s
            (λ q. eqb t.op_type (text "move") ≡ true → covers v.from q ≡ false)
            w
            (operate_item s attempts fuel t v w).0
      unfolding operate_item
      operate_item-Stays = elim (Bool-cases (eqb t.op_type (text "move"))) [
        | inl e ↦ rw e (λ q n a k. move_step-Stays q n (a refl) k)
        | inr e ↦ elim (Bool-cases (eqb t.op_type (text "copy"))) [
          | inl f ↦ rw (e, f) (λ q n a k. copy_step-Stays q n tt k)
          | inr f ↦ rw (e, f) (λ q n a k. k)
        ]
      ]

    after_item-world :
        (P : Text → Type 0) (is_move : Bool) (v : FileItem) (vs : List FileItem) (w : World)
        (r : World × ItemOutcome) (rest : World → World × Run)
        → Stays s P w r.0
        → Stays s P r.0 (rest r.0).0
        → Stays s P w (after_item s is_move v vs r rest).0
    unfolding after_item
    after_item-world P is_move v vs w (u, o) rest h k = elim (Bool-cases o.stop) [
      | inl e ↦ rw e h
      | inr e ↦ rw e (Stays-trans s P w u _ h k)
    ]

    -- A move or a copy whose style is none of "replace" and "overwrite", however its steps fail or are
    -- cancelled, leaves every file and directory as it was: a copy all of them, a move those outside
    -- its sources. So none that stood at a destination is overwritten. To is a cleaned absolute path
    -- other than the root directory, and the last element of the From of each item is a plain name.
    pub operate_items-Stays :
        (vs : List FileItem) (w : World)
        → All (λ v. IsItem t.to v.from) vs
        → Stays s
            (λ q. eqb t.op_type (text "move") ≡ true → All (λ v. covers v.from q ≡ false) vs)
            w
            (operate_items s attempts fuel t vs w).0
    unfolding operate_items
    operate_items-Stays [] w h = λ q n a k. k
    operate_items-Stays (v ∷ vs) w (h, hs) = elim (Bool-cases (s.ctx_err w)) [
      | inl e ↦ rw e (λ q n a k. k)
      | inr e ↦ rw e (
          after_item-world _ (eqb t.op_type (text "move")) v vs w
            (operate_item s attempts fuel t v w) (operate_items s attempts fuel t vs)
            (λ q n a k. operate_item-Stays v h w q n (λ m. (a m).0) k)
            (λ q n a k. operate_items-Stays vs _ hs q n (λ m. (a m).1) k))
    ]
