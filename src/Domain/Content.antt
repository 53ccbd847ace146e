-- ===== src/Domain/Content.antt =====
-- internal/domain/comment.go: the analysis and the validation of a comment's content.
pub mod Links
pub mod Rules
use ms_go_comment.Base.{
  Bool, List, Option, Result, Text, [], any, codes, drop_while, eq_ℤ, equal_fold, fail_if, false,
  fold_rune, if◌then◌else◌, images_disabled, invalid_comment_content, is_blank, is_lower, length,
  links_disabled, ltb, ltb_ℤ, mem, none, not, pos, some, suc, take, take_while, text_eq, trim_right,
  true, zero, ℕ, ℤ, ◌&&◌, ◌+ℤ◌, ◌+◌, ◌-◌, ◌==◌, ◌>>=◌, ◌>>◌, ◌||◌, ◌∷◌,
}
use ms_go_comment.Domain.Space.{Policy, Url, UrlParser, validate_policy}

pub record Link : Type 0 where
  pub url : Text
  pub title : Text

pub record CommentContent : Type 0 where
  pub body : Text
  pub links : List Link
  pub attachment_count : ℤ
  pub existing_attachment_count : ℤ
  pub contains_raw_html : Bool

-- `\s` of a regular expression.
unfoldable pub re_space : ℕ → Bool
re_space c = c == 9 || c == 10 || c == 12 || c == 13 || c == 32

-- `[^\s<>()]`
unfoldable pub link_char : ℕ → Bool
unfolding re_space
link_char c = not (re_space c || c == b'<' || c == b'>' || c == b'(' || c == b')')

-- What follows a prefix, without regard to case.
unfoldable pub strip_fold : Text → Text → Option Text
strip_fold [] s = some s
strip_fold (p ∷ ps) [] = none
strip_fold (p ∷ ps) (c ∷ s) = let rest = strip_fold ps s in if fold_rune c == p then rest else none

-- `s?`
unfoldable pub skip_s : Text → Text
skip_s [] = []
skip_s (c ∷ s) = if fold_rune c == b's' then s else c ∷ s

-- The code points that `(?i)https?://[^\s<>()]+` matches at the head of a text, 0 if it does not.
abbrev pub run_length : Text → Text → ℕ
run_length whole rest = elim (take_while link_char rest) [
  | [] ↦ 0
  | c ∷ cs ↦ length whole - length rest + suc (length cs)
]

unfoldable pub match_link : Text → ℕ
unfolding strip_fold skip_s link_char fold_rune
match_link s = elim (strip_fold (codes "http") s) [
  | none ↦ 0
  | some r ↦ elim (strip_fold (codes "://") (skip_s r)) [ none ↦ 0 | some q ↦ run_length s q ]
]

-- `FindAllString`: leftmost matches that do not overlap; `skip` code points belong to the last one.
unfoldable pub find_links : ℕ → Text → List Text
unfolding match_link
find_links skip [] = []
find_links (suc skip) (c ∷ s) = find_links skip s
find_links zero (c ∷ s) =
    let n = match_link (c ∷ s) in
    let rest = find_links (n - 1) s in if n == 0 then rest else take n (c ∷ s) ∷ rest

-- The cutset `.,;:!?)]}`
unfoldable pub is_trailing : ℕ → Bool
is_trailing c = mem c (codes ".,;:!?)]}")

abbrev pub text_mem : Text → List Text → Bool
text_mem t = any (λ s. text_eq s t)

-- The loop of `AnalyzeCommentContent`, on the map `seen`.
unfoldable pub collect_links : List Text → List Text → List Link
unfolding is_trailing trim_right
collect_links seen [] = []
collect_links seen (m ∷ ms) =
    let candidate = trim_right is_trailing m in
    let known = text_mem candidate seen in
    let rest = collect_links (if known then seen else candidate ∷ seen) ms in
    if known then rest else record { url = candidate; title = [] } ∷ rest

-- `<\s*/?\s*[a-z!][^>]*>` behind its `<`, without regard to case.
unfoldable pub skip_slash : Text → Text
skip_slash [] = []
skip_slash (c ∷ s) = if c == b'/' then s else c ∷ s

unfoldable pub tag_rest : Text → Bool
tag_rest [] = false
tag_rest (c ∷ s) = (is_lower (fold_rune c) || c == b'!') && mem b'>' s

unfoldable pub has_raw_html : Text → Bool
unfolding re_space skip_slash tag_rest fold_rune
has_raw_html [] = false
has_raw_html (c ∷ s) =
    (c == b'<' && tag_rest (drop_while re_space (skip_slash (drop_while re_space s))))
    || has_raw_html s

-- `AnalyzeCommentContent`
unfoldable pub analyze_comment_content : Text → ℤ → CommentContent
analyze_comment_content body attachment_count = record {
  body = body;
  links = collect_links [] (find_links 0 body);
  attachment_count = attachment_count;
  existing_attachment_count = pos 0;
  contains_raw_html = has_raw_html body;
}

module _ (urls : UrlParser) where
  abbrev pub link_bad : Option Url → Bool
  link_bad none = true
  link_bad (some u) =
      text_eq u.host []
      || (not (equal_fold u.scheme (codes "http")) && not (equal_fold u.scheme (codes "https")))

  -- `CommentContent.Validate`
  unfoldable pub validate_content : CommentContent → Policy → Result (Unit {0})
  validate_content c p = do
    validate_policy p
    fail_if c.contains_raw_html invalid_comment_content
    fail_if (ltb_ℤ p.max_body_length (pos (length c.body))) invalid_comment_content
    fail_if (ltb 0 (length c.links) && not p.allow_links) links_disabled
    fail_if (any (λ l. link_bad (urls.parse_request_uri l.url)) c.links) invalid_comment_content
    fail_if
        (ltb_ℤ c.attachment_count (pos 0)
          || ltb_ℤ c.existing_attachment_count (pos 0)
          || ltb_ℤ p.max_attachments c.attachment_count)
        invalid_comment_content
    fail_if (ltb_ℤ (pos 0) c.attachment_count && not p.allow_images) images_disabled
    fail_if (is_blank c.body && eq_ℤ (c.attachment_count +ℤ c.existing_attachment_count) (pos 0))
        invalid_comment_content
