-- ===== src/Tests/Rules.antt =====
-- The rules of the domain at concrete values.
use ms_go_comment.Base.{
  List, Text, [], arith, byte_len, codes, equal_fold, false, fold_rune, is_blank, is_space, length,
  none, ok, pos, pos_part, refl, some, trim_right, trim_space, true, utf8_width, ◌+ℤ◌, ◌↔◌, ◌∷◌,
  ◌≡◌, ◌≤◌,
}
use ms_go_comment.Domain.Attachment.{validate_attachment}
use ms_go_comment.Domain.Attachment.Bounds.{AttachmentIsValid, validate_attachment_iff}
use ms_go_comment.Domain.Comment.{
  Comment, build_comment_placement, place, reply_placement, validate_placement,
}
use ms_go_comment.Domain.Comment.Placement.{
  PlacementIsValid, build_comment_placement-IsValid, placed, validate_placement_iff,
}
use ms_go_comment.Domain.Common.{Uuid}
use ms_go_comment.Domain.Content.{CommentContent, collect_links, text_mem, validate_content}
use ms_go_comment.Domain.Content.Links.{Distinct, collect_links-Collected, link_urls, trimmed}
use ms_go_comment.Domain.Content.Rules.{LinksParse, Obeys, validate_content_iff}
use ms_go_comment.Domain.Image.{
  ImageMetadata, after_slash, base_name, inspect_config, inspect_image,
}
use ms_go_comment.Domain.Image.Checks.{Inspected, inspect_image-Inspected}
use ms_go_comment.Domain.Space.{UrlParser, validate_policy}
use ms_go_comment.Order.Pages.{Listed, PageIsSorted, list_comments-IsSorted}
use ms_go_comment.Store.Comments.{list_comments}
use ms_go_comment.Tests.Samples.{first_comment, image_policy, picture, small_png, stored}
use ms_go_comment.Usecase.Discussion.Sets.{count, equal_uuid_set}
use ms_go_comment.Usecase.Discussion.Sets.Multisets.{equal_uuid_set_iff}

placed_reply :
    build_comment_placement 12 3 (some first_comment) (pos 10)
    ≡ ok (reply_placement 12 first_comment)
unfolding build_comment_placement validate_placement place ◌+ℤ◌
placed_reply = refl

build_comment_placement-IsValid_example :
    PlacementIsValid (placed (record first_comment { id = 12 }) (reply_placement 12 first_comment))
build_comment_placement-IsValid_example =
    build_comment_placement-IsValid (record first_comment { id = 12 }) (some first_comment) (pos 10)
      placed_reply (λ e h. ground arith)

validate_placement_iff_example :
    (validate_placement first_comment ≡ ok tt) ↔ PlacementIsValid first_comment
validate_placement_iff_example = validate_placement_iff first_comment

equal_uuid_set_iff_example :
    (equal_uuid_set (1 ∷ 2 ∷ 1 ∷ []) (2 ∷ 1 ∷ 1 ∷ []) ≡ true)
    ↔ ((x : Uuid) → count x (1 ∷ 2 ∷ 1 ∷ []) ≡ count x (2 ∷ 1 ∷ 1 ∷ []))
equal_uuid_set_iff_example = equal_uuid_set_iff (1 ∷ 2 ∷ 1 ∷ []) (2 ∷ 1 ∷ 1 ∷ [])

abbrev with_link : CommentContent
with_link = record {
  body = codes "see https://a.b";
  links = record { url = codes "https://a.b"; title = [] } ∷ [];
  attachment_count = pos 1;
  existing_attachment_count = pos 0;
  contains_raw_html = false;
}

-- Every text is a URL of the host a.b.
abbrev one_host : UrlParser
one_host = record {
  parse = λ s. none;
  parse_request_uri = λ s. some (record {
    scheme = codes "HTTPS";
    host = codes "a.b";
    path = [];
    raw_query = [];
    fragment = [];
    has_user = false;
  });
}

link_accepted : validate_content one_host with_link image_policy ≡ ok tt
unfolding validate_content validate_policy is_blank is_space equal_fold fold_rune trim_space
    trim_right ◌+ℤ◌
link_accepted = refl

validate_content_iff_example :
    (validate_content one_host with_link image_policy ≡ ok tt)
    ↔ (Obeys with_link image_policy × LinksParse one_host with_link)
validate_content_iff_example = validate_content_iff one_host with_link image_policy

validate_attachment_iff_example :
    (validate_attachment picture image_policy ≡ ok tt) ↔ AttachmentIsValid picture image_policy
validate_attachment_iff_example = validate_attachment_iff picture image_policy

abbrev seen_picture : ImageMetadata
seen_picture = record {
  mime_type = codes "image/png";
  size_bytes = pos 3;
  width = pos 64;
  height = pos 32;
  original_filename = codes "a.png";
}

accepted_picture :
    inspect_image small_png (1 ∷ 2 ∷ 3 ∷ []) (codes "dir/a.png") image_policy ≡ ok seen_picture
unfolding inspect_image inspect_config base_name after_slash byte_len trim_right trim_space is_space
    utf8_width validate_policy
accepted_picture = refl

inspect_image-Inspected_example : Inspected (1 ∷ 2 ∷ 3 ∷ []) image_policy seen_picture
inspect_image-Inspected_example =
    inspect_image-Inspected small_png (1 ∷ 2 ∷ 3 ∷ []) (codes "dir/a.png") image_policy seen_picture
      accepted_picture

abbrev two_links : List Text
two_links = codes "https://a.b," ∷ codes "https://a.b" ∷ []

collect_links-Collected_example :
    Distinct (link_urls (collect_links [] two_links))
    × ((t : Text)
        → text_mem t (link_urls (collect_links [] two_links)) ≡ text_mem t (trimmed two_links))
collect_links-Collected_example = collect_links-Collected two_links

list_comments-IsSorted_example :
    (rows : List Comment) × (list_comments 3 none none (pos 10) 100 stored ≡ (ok rows, stored))
    × PageIsSorted (Listed 3 none none) stored rows
    × (length rows ≤ pos_part (pos 10))
list_comments-IsSorted_example = list_comments-IsSorted 3 none none (pos 10) 100 stored
