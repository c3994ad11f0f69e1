-- ===== src/Staging/Ids.antt =====
-- The id of an upload carries the root of its volume: what NewUpload puts in, GetUpload reads.
use nimo_os.Base.{
  ℕ, ◌/◌, ◌%◌, ◌<◌, ◌≡◌, refl, sym, false, List, [], ◌∷◌, ◌++◌, none, some, arith, All, Bool-cases,
  inl, inr, ◌==◌, if◌then◌else◌,
}
use nimo_os.Text.{Text, eqb}
use nimo_os.Text.Laws.{eqb→eq}
use nimo_os.Staging.{
  hex_digit, hex_encode, hex_value, hex_decode, staging_id_sep, encode_staging_id, cut,
  decode_staging_id, legacy_staging_root, MountEntry, resolve_staging_root, new_upload_id, root_or,
  upload_root,
}

abbrev pub IsBytes : Text → Type 0
IsBytes s = All (λ c. c < 256) s

hex_value-hex_digit : (n : ℕ) → n < 16 → hex_value (hex_digit n) ≡ some n
hex_value-hex_digit n h = ground arith

pub hex_decode-hex_encode : (s : Text) → IsBytes s → hex_decode (hex_encode s) ≡ some s
unfolding hex_decode hex_encode
hex_decode-hex_encode [] h = refl
hex_decode-hex_encode (c ∷ s) h =
    rw
      (
        hex_value-hex_digit (c / 16) (omega (arith, h.0)),
        hex_value-hex_digit (c % 16) (omega arith),
        hex_decode-hex_encode s h.1,
      )
      (ground arith)

hex_digit-not_sep : (n : ℕ) → n < 16 → (hex_digit n == staging_id_sep) ≡ false
hex_digit-not_sep n h = ground arith

hex_encode-not_sep :
    (s : Text) → IsBytes s → All (λ c. (c == staging_id_sep) ≡ false) (hex_encode s)
unfolding hex_encode
hex_encode-not_sep [] h = tt
hex_encode-not_sep (c ∷ s) h = (
  hex_digit-not_sep (c / 16) (omega (arith, h.0)),
  (hex_digit-not_sep (c % 16) (omega arith), hex_encode-not_sep s h.1),
)

cut-append :
    (a b : Text)
    → All (λ c. (c == staging_id_sep) ≡ false) a
    → cut (a ++ (staging_id_sep ∷ b)) ≡ some (a, b)
unfolding cut
cut-append [] b h = refl
cut-append (c ∷ a) b h = rw (h.0, cut-append a b h.1) refl

cut-plain : (s : Text) → All (λ c. (c == staging_id_sep) ≡ false) s → cut s ≡ none
unfolding cut
cut-plain [] h = refl
cut-plain (c ∷ s) h = rw (h.0, cut-plain s h.1) refl

-- decodeStagingID gives back the root and the id that encodeStagingID put together.
pub decode_staging_id-encode_staging_id :
    (root sub : Text)
    → IsBytes root
    → decode_staging_id (encode_staging_id root sub) ≡ some (root, sub)
unfolding decode_staging_id encode_staging_id
decode_staging_id-encode_staging_id root sub h =
    rw (cut-append (hex_encode root) sub (hex_encode-not_sep root h), hex_decode-hex_encode root h)
      refl

-- GetUpload asks the store of the root that NewUpload chose, for the legacy root too, whose ids have
-- no separator: so an upload is found again, whatever the mount table is by then.
pub upload_root-new_upload_id :
    (target sub : Text) (mounts : List MountEntry)
    → IsBytes (resolve_staging_root target mounts).0
    → All (λ c. (c == staging_id_sep) ≡ false) sub
    → upload_root (new_upload_id (resolve_staging_root target mounts).0 sub)
      ≡ (resolve_staging_root target mounts).0
unfolding upload_root new_upload_id
upload_root-new_upload_id target sub mounts h k = routed (resolve_staging_root target mounts).0 h
  where
    routed :
        (root : Text)
        → IsBytes root
        → root_or (
            decode_staging_id
              (if eqb root legacy_staging_root then sub else encode_staging_id root sub))
          ≡ root
    routed root b = elim (Bool-cases (eqb root legacy_staging_root)) [
      | inl e ↦ rw e (
          unfold decode_staging_id in
          rw (cut-plain sub k) (sym (eqb→eq root legacy_staging_root e)))
      | inr e ↦ rw (e, decode_staging_id-encode_staging_id root sub b) refl
    ]
