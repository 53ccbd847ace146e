-- ===== src/Domain/Image/Checks.antt =====
-- `InspectImage` of internal/domain/image.go.
use ms_go_comment.Base.{
  Bool-cases, List, Option, Result-cases, Text, [], any, arith, byte_len, codes, false, inl, inr,
  length, map, none, ok, pos, refl, some, text_eq, trim_space, true, ℕ, ℤ, ◌≡◌, ◌≢◌, ◌≤ℤ◌, ◌≤◌,
}
use ms_go_comment.Domain.Attachment.Bounds.{image_types}
use ms_go_comment.Domain.Image.{
  ImageConfig, ImageDecoder, ImageMetadata, base_name, inspect_config, inspect_image, mime_of,
  slash,
}
use ms_go_comment.Domain.Space.{Policy, validate_policy}
use ms_go_comment.Domain.Space.Bounds.{PolicyIsValid, Within, validate_policy_iff}

pub record Inspected (bytes : List ℕ) (p : Policy) (m : ImageMetadata) : Type 0 where
  pub policy_valid : PolicyIsValid p
  pub images_allowed : p.allow_images ≡ true
  pub size : m.size_bytes ≡ pos (length bytes)
  pub sized : (pos 1 ≤ℤ m.size_bytes) × (m.size_bytes ≤ℤ p.max_image_bytes)
  pub width : Within m.width 1 32768
  pub height : Within m.height 1 32768
  pub image : any (λ t. text_eq m.mime_type t) image_types ≡ true
  pub filename : (m.original_filename ≢ []) × (byte_len m.original_filename ≤ 255)

mime_of-image :
    (f : Text)
    → text_eq (mime_of f) [] ≡ false
    → any (λ t. text_eq (mime_of f) t) image_types ≡ true
mime_of-image f h = elim (Bool-cases (text_eq f (codes "jpeg"))) [
  | inl e ↦ rw e refl
  | inr e ↦ elim (Bool-cases (text_eq f (codes "png"))) [
    | inl k ↦ rw (e, k) refl
    | inr k ↦ elim (Bool-cases (text_eq f (codes "webp"))) [
      | inl g ↦ rw (e, k, g) refl
      | inr g ↦ cc
    ]
  ]
]

inspect_config-Inspected :
    (size : ℤ) (filename : Text) (c : Option ImageConfig) (m : ImageMetadata)
    → inspect_config size filename c ≡ ok m
    → (m.size_bytes ≡ size)
      × (m.original_filename ≡ filename)
      × Within m.width 1 32768
      × Within m.height 1 32768
      × (any (λ t. text_eq m.mime_type t) image_types ≡ true)
unfolding inspect_config
inspect_config-Inspected size filename none m h = cc
inspect_config-Inspected size filename (some c) m h = ground (arith, mime_of-image c.format)

-- What InspectImage accepts has the size of the upload, within the policy, dimensions of 1 to
-- 32768, one of the three image types, and a name of 1 to 255 bytes.
pub inspect_image-Inspected :
    (decode : ImageDecoder) (bytes : List ℕ) (original : Text) (p : Policy) (m : ImageMetadata)
    → inspect_image decode bytes original p ≡ ok m
    → Inspected bytes p m
unfolding inspect_image
inspect_image-Inspected decode bytes original p m h = ground (
  arith,
  validate_policy_iff p,
  Result-cases (validate_policy p),
  inspect_config-Inspected (pos (length bytes)) (base_name (map slash (trim_space original)))
      (decode bytes) m,
)
