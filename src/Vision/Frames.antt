-- ===== src/Vision/Frames.antt =====
-- `validate_jpeg` and `validate_frames`.
use aisle_signals.Common.{
  ℕ, ◌*◌, Bool, false, ◌&&◌, Option, none, some, List, [], ◌∷◌, leb, ◌==◌, min, max, length,
  if◌then◌else◌,
}
use aisle_signals.Common.Int.{ℤ, pos, negsuc, ltb_ℤ, leb_ℤ, ◌+ℤ◌}

-- An image as the image library decodes it.
pub record Image : Type 0 where
  pub is_jpeg : Bool
  pub width : ℕ
  pub height : ℕ

-- The image library: opening an image, then loading it whole and writing it again without its
-- metadata. `none` is one of its errors.
pub record Library : Type 0 where
  pub open_image : List ℕ → Option Image
  pub rewrite : List ℕ → Option (List ℕ)

abbrev pub max_jpeg_bytes : ℕ
max_jpeg_bytes = 350000

-- `data.startswith(b"\xff\xd8")`
abbrev pub is_jpeg_start : List ℕ → Bool
is_jpeg_start (a ∷ b ∷ rest) = a == 255 && b == 216
is_jpeg_start _ = false

abbrev pub fits_edges : Image → Bool
fits_edges i = i.is_jpeg && leb 32 (min i.width i.height) && leb (max i.width i.height) 768

abbrev pub bounded : List ℕ → Option (List ℕ)
bounded result = if leb (length result) max_jpeg_bytes then some result else none

abbrev pub rewritten : Library → List ℕ → Option Image → Option (List ℕ)
rewritten library bytes none = none
rewritten library bytes (some image) =
    if fits_edges image
    then elim (library.rewrite bytes) [ none ↦ none | some result ↦ bounded result ]
    else none

-- `validate_jpeg`; `none` is the `VisionError`.
unfoldable pub validate_jpeg : Library → List ℕ → Option (List ℕ)
validate_jpeg library bytes =
    if leb (length bytes) max_jpeg_bytes && is_jpeg_start bytes
    then rewritten library bytes (library.open_image bytes)
    else none

-- A frame: its stamp in parts of a second (`none` where it is no finite number) and its bytes.
abbrev pub Frame : Type 0
Frame = Option ℤ × List ℕ

abbrev pub Clean : Type 0
Clean = List (ℤ × List ℕ)

abbrev pub checked : ℤ → Option ℤ → ℤ → Option ℤ
checked latest none previous = none
checked latest (some stamp) previous =
    if leb_ℤ (pos 0) stamp && leb_ℤ stamp latest && ltb_ℤ previous stamp then some stamp else none

-- The loop of `validate_frames`, after a previous stamp.
unfoldable pub clean_frames : Library → ℤ → ℤ → List Frame → Option Clean
clean_frames library latest previous [] = some []
clean_frames library latest previous ((stamp, bytes) ∷ frames) =
    elim (checked latest stamp previous) [
      | none ↦ none
      | some s ↦ elim (validate_jpeg library bytes) [
        | none ↦ none
        | some b ↦ elim (clean_frames library latest s frames) [
          | none ↦ none
          | some rest ↦ some ((s, b) ∷ rest)
        ]
      ]
    ]

-- The stamp of the last frame.
abbrev pub last_stamp : ℤ → Clean → ℤ
last_stamp s [] = s
last_stamp s ((t, b) ∷ rest) = last_stamp t rest

abbrev pub spanned : ℕ → Clean → Option Clean
spanned second [] = some []
spanned second ((s, b) ∷ rest) =
    if leb_ℤ (last_stamp s rest) (s +ℤ pos (12 * second)) then some ((s, b) ∷ rest) else none

abbrev pub span_checked : ℕ → Option Clean → Option Clean
span_checked second none = none
span_checked second (some clean) = spanned second clean

-- `validate_frames`, with the number of parts in a second; `none` is the `VisionError`.
unfoldable pub validate_frames : Library → ℕ → List Frame → Option Clean
unfolding clean_frames validate_jpeg
validate_frames library second frames =
    if leb 3 (length frames) && leb (length frames) 6
    then span_checked second (clean_frames library (pos (7 * 86400 * second)) (negsuc 0) frames)
    else none
