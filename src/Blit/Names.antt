-- ===== src/Blit/Names.antt =====
-- core/rotated_blit.cpp: the names of rotations and fits, as the bytes of their text.
use weblinked.Base.{
  ℕ, ◌+◌, ◌-◌, ◌≡◌, refl, Bool, true, false, ◌&&◌, ◌||◌, leb, ◌==◌, if◌then◌else◌, Option, none,
  some, List, [], ◌∷◌, map,
}
use weblinked.Blit.{Rotation, r0, r90, r180, r270, Fit, fit, fill, stretch}

abbrev same_text : List ℕ → List ℕ → Bool
same_text [] [] = true
same_text [] (y ∷ ys) = false
same_text (x ∷ xs) [] = false
same_text (x ∷ xs) (y ∷ ys) = x == y && same_text xs ys

-- blitRotationFromString: "0", "90", "180", "270" and "-90", by their ASCII codes.
unfoldable pub rotation_from_string : List ℕ → Option Rotation
rotation_from_string text =
    if same_text text (48 ∷ [])
    then some r0
    else if same_text text (57 ∷ 48 ∷ [])
    then some r90
    else if same_text text (49 ∷ 56 ∷ 48 ∷ [])
    then some r180
    else if same_text text (50 ∷ 55 ∷ 48 ∷ []) || same_text text (45 ∷ 57 ∷ 48 ∷ [])
    then some r270
    else none

unfoldable pub rotation_to_string : Rotation → List ℕ
rotation_to_string r0 = 48 ∷ []
rotation_to_string r90 = 57 ∷ 48 ∷ []
rotation_to_string r180 = 49 ∷ 56 ∷ 48 ∷ []
rotation_to_string r270 = 50 ∷ 55 ∷ 48 ∷ []

-- std::tolower of the C locale.
abbrev to_lower : ℕ → ℕ
to_lower c = if leb 65 c && leb c 90 then c + 32 else c

-- blitFitFromString: "fill", "stretch", and all else is the fit.
unfoldable pub fit_from_string : List ℕ → Fit
fit_from_string text =
    let lower = map to_lower text in
    if same_text lower (102 ∷ 105 ∷ 108 ∷ 108 ∷ [])
    then fill
    else if same_text lower (115 ∷ 116 ∷ 114 ∷ 101 ∷ 116 ∷ 99 ∷ 104 ∷ [])
    then stretch
    else fit

unfoldable pub fit_to_string : Fit → List ℕ
fit_to_string fit = 102 ∷ 105 ∷ 116 ∷ []
fit_to_string fill = 102 ∷ 105 ∷ 108 ∷ 108 ∷ []
fit_to_string stretch = 115 ∷ 116 ∷ 114 ∷ 101 ∷ 116 ∷ 99 ∷ 104 ∷ []

-- ASCII capitals for small letters.
abbrev pub to_upper : ℕ → ℕ
to_upper c = if leb 97 c && leb c 122 then c - 32 else c

rotation_back : (r : Rotation) → rotation_from_string (rotation_to_string r) ≡ some r
unfolding rotation_from_string rotation_to_string
rotation_back r0 = refl
rotation_back r90 = refl
rotation_back r180 = refl
rotation_back r270 = refl

fit_back :
    (f : Fit)
    → (fit_from_string (fit_to_string f) ≡ f)
      × (fit_from_string (map to_upper (fit_to_string f)) ≡ f)
unfolding fit_from_string fit_to_string
fit_back fit = (refl, refl)
fit_back fill = (refl, refl)
fit_back stretch = (refl, refl)

-- The name of every rotation and of every fit is read back as what it names, a fit in capitals too.
pub names_back :
    (r : Rotation) (f : Fit)
    → (rotation_from_string (rotation_to_string r) ≡ some r)
      × (fit_from_string (fit_to_string f) ≡ f)
      × (fit_from_string (map to_upper (fit_to_string f)) ≡ f)
names_back r f = (rotation_back r, (fit_back f).0, (fit_back f).1)
