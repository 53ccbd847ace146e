-- ===== src/Domain/Image.antt =====
-- internal/domain/image.go
pub mod Checks
use ms_go_comment.Base.{
  List, Option, Result, Text, [], byte_len, codes, eq_ℤ, err, fail_if, if◌then◌else◌,
  images_disabled, invalid_attachment, length, ltb, ltb_ℤ, map, mem, none, not, ok, pos, reverse,
  some, text_eq, trim_right, trim_space, ℕ, ℤ, ◌==◌, ◌>>=◌, ◌>>◌, ◌||◌, ◌∷◌,
}
use ms_go_comment.Domain.Space.{Policy, outside, validate_policy}

pub record ImageMetadata : Type 0 where
  pub mime_type : Text
  pub size_bytes : ℤ
  pub width : ℤ
  pub height : ℤ
  pub original_filename : Text

-- What `image.DecodeConfig` reports.
pub record ImageConfig : Type 0 where
  pub width : ℤ
  pub height : ℤ
  pub format : Text

-- `image.DecodeConfig` with the registered formats; `none` is an error.
abbrev pub ImageDecoder : Type 0
ImageDecoder = List ℕ → Option ImageConfig

-- `strings.ReplaceAll(s, "\\", "/")`
abbrev pub slash : ℕ → ℕ
slash c = if c == 0x5C then b'/' else c

-- The part behind the last slash; `part` is reversed.
unfoldable pub after_slash : Text → Text → Text
after_slash part [] = reverse part
after_slash part (c ∷ s) = after_slash (if c == b'/' then [] else c ∷ part) s

-- `path.Base`
unfoldable pub base_name : Text → Text
unfolding after_slash trim_right
base_name s =
    let part = after_slash [] (trim_right (λ c. c == b'/') s) in
    if text_eq s [] then codes "." else if text_eq part [] then codes "/" else part

-- The map from formats to MIME types, "" for any other.
abbrev pub mime_of : Text → Text
mime_of f =
    if text_eq f (codes "jpeg")
    then codes "image/jpeg"
    else if text_eq f (codes "png")
    then codes "image/png"
    else if text_eq f (codes "webp")
    then codes "image/webp"
    else []

-- `InspectImage` from the decoded header on.
unfoldable pub inspect_config : ℤ → Text → Option ImageConfig → Result ImageMetadata
inspect_config size filename none = err invalid_attachment
inspect_config size filename (some c) = do
  fail_if (text_eq (mime_of c.format) []) invalid_attachment
  fail_if (outside c.width (pos 1) (pos 32768) || outside c.height (pos 1) (pos 32768))
      invalid_attachment
  ok (record {
    mime_type = mime_of c.format;
    size_bytes = size;
    width = c.width;
    height = c.height;
    original_filename = filename;
  })

-- `InspectImage`; `bytes` is the upload.
unfoldable pub inspect_image : ImageDecoder → List ℕ → Text → Policy → Result ImageMetadata
unfolding base_name inspect_config byte_len
inspect_image decode bytes original p = do
  validate_policy p
  fail_if (not p.allow_images || eq_ℤ p.max_attachments (pos 0)) images_disabled
  fail_if (length bytes == 0 || ltb_ℤ p.max_image_bytes (pos (length bytes))) invalid_attachment
  let filename = base_name (map slash (trim_space original))
  fail_if
      (text_eq filename []
        || text_eq filename (codes ".")
        || mem 0 filename
        || ltb 255 (byte_len filename))
      invalid_attachment
  inspect_config (pos (length bytes)) filename (decode bytes)
