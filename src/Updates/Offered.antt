-- ===== src/Updates/Offered.antt =====
-- The versions that the cloud offers to runDownload and runAppDownload of service/system.go, and their hashes.
use nimo_os.Base.{ℕ, ◌≡◌, refl, Bool, true, List, [], ◌∷◌, ◌++◌, Option, none, some, ◌⊎◌, inl, inr}
use nimo_os.Text.{Text}
use nimo_os.Updates.{VersionInfo, first_or, rest, offered, equal_fold}

-- A version that one of the answers to come offers.
abbrev pub IsOffered : VersionInfo → List (Option (Bool × Option VersionInfo)) → Type 0
IsOffered v [] = ⊥
IsOffered v (a ∷ answers) = (offered a ≡ some v) ⊎ IsOffered v answers

pub offered-first :
    (v : VersionInfo) (answers : List (Option (Bool × Option VersionInfo)))
    → offered (first_or none answers) ≡ some v
    → IsOffered v answers
offered-first v [] h = cc
offered-first v (a ∷ answers) h = inl h

pub offered-rest :
    (v : VersionInfo) (answers : List (Option (Bool × Option VersionInfo)))
    → offered (first_or none (rest answers)) ≡ some v
    → IsOffered v answers
offered-rest v [] h = cc
offered-rest v (a ∷ answers) h = inr (offered-first v answers h)

abbrev pub last : Text → ℕ
last [] = 0
last (c ∷ []) = c
last (c ∷ (d ∷ s)) = last (d ∷ s)

pub last-append : (s : Text) (c : ℕ) (t : Text) → last (s ++ (c ∷ t)) ≡ last (c ∷ t)
last-append [] c t = refl
last-append (b ∷ []) c t = refl
last-append (b ∷ (d ∷ s)) c t = last-append (d ∷ s) c t

-- A content with the hash of an offered version.
abbrev pub IsGenuine : (Text → Text) → List (Option (Bool × Option VersionInfo)) → Text → Type 0
IsGenuine sha256 answers c =
    (v : VersionInfo) × (IsOffered v answers × (equal_fold (sha256 c) v.sha256 ≡ true))
