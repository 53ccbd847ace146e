-- ===== src/Domain/Content/Rules.antt =====
-- `CommentContent.Validate` of internal/domain/comment.go.
use ms_go_comment.Base.{
  +ℤ_parts, All, List, Option, Result-cases, [], any, arith, codes, equal_fold, false, false≢true,
  is_blank, length, none, ok, pos, refl, some, sym, text_eq_iff, true, ◌<ℤ◌, ◌<◌, ◌↔◌, ◌∙◌, ◌∷◌,
  ◌≡◌, ◌≢◌, ◌≤ℤ◌, ◌⊎◌,
}
use ms_go_comment.Domain.Content.{CommentContent, Link, link_bad, validate_content}
use ms_go_comment.Domain.Space.{Policy, Url, UrlParser, validate_policy}
use ms_go_comment.Domain.Space.Bounds.{PolicyIsValid, validate_policy_iff}

-- The rules that `CommentContent.Validate` enforces beside those on single links.
pub record Obeys (c : CommentContent) (p : Policy) : Type 0 where
  pub policy_valid : PolicyIsValid p
  pub no_html : c.contains_raw_html ≡ false
  pub fits : pos (length c.body) ≤ℤ p.max_body_length
  pub links_allowed : 0 < length c.links → p.allow_links ≡ true
  pub counted : (pos 0 ≤ℤ c.attachment_count) × (pos 0 ≤ℤ c.existing_attachment_count)
  pub few : c.attachment_count ≤ℤ p.max_attachments
  pub images_allowed : pos 0 <ℤ c.attachment_count → p.allow_images ≡ true
  pub not_empty :
      (is_blank c.body ≡ false)
      ⊎ (pos 0 <ℤ c.attachment_count)
      ⊎ (pos 0 <ℤ c.existing_attachment_count)

module _ (urls : UrlParser) where
  -- A link parses as a request URI with a host, under one of the two schemes.
  pub record IsHttp (l : Link) : Type 0 where
    pub url : Url
    pub parsed : urls.parse_request_uri l.url ≡ some url
    pub hosted : url.host ≢ []
    pub scheme :
        (equal_fold url.scheme (codes "http") ≡ true)
        ⊎ (equal_fold url.scheme (codes "https") ≡ true)

  abbrev pub LinksParse : CommentContent → Type 0
  LinksParse c = All IsHttp c.links

  IsHttp-iff :
      (l : Link) (o : Option Url)
      → urls.parse_request_uri l.url ≡ o
      → (link_bad urls o ≡ false) ↔ IsHttp l
  IsHttp-iff l none e = (λ h. absurd (false≢true (sym h)), λ v. let never = sym e ∙ v.parsed in cc)
  IsHttp-iff l (some u) e = (
    λ h. record {
      url = u;
      parsed = e;
      hosted = λ z. ground (arith, text_eq_iff u.host []);
      scheme = ground arith;
    },
    λ v.
        let found : some u ≡ some v.url = sym e ∙ v.parsed in
        let same : u ≡ v.url = cc in
        rw same (ground (arith, text_eq_iff v.url.host [], v.hosted, v.scheme)),
  )

  LinksParse_iff :
      (ls : List Link)
      → (any (λ l. link_bad urls (urls.parse_request_uri l.url)) ls ≡ false) ↔ All IsHttp ls
  LinksParse_iff [] = (λ h. tt, λ h. refl)
  LinksParse_iff (l ∷ ls) =
      let here = IsHttp-iff l (urls.parse_request_uri l.url) refl in
      let rest = LinksParse_iff ls in
      (
        λ h. (here.0 (ground arith), rest.0 (ground arith)),
        λ h. ground (arith, here.1 h.0, rest.1 h.1),
      )

  -- CommentContent.Validate accepts exactly the content that obeys a valid policy in length, links,
  -- attachments and images, holds no raw HTML, is not empty, and whose links all parse as request
  -- URIs with a host and, but for the case of letters, the scheme http or https.
  pub validate_content_iff :
      (c : CommentContent) (p : Policy)
      → (validate_content urls c p ≡ ok tt) ↔ (Obeys c p × LinksParse c)
  unfolding validate_content
  validate_content_iff c p = (
    λ h.
        let k : Obeys c p
            × (any (λ l. link_bad urls (urls.parse_request_uri l.url)) c.links ≡ false) =
          ground (
            arith,
            validate_policy_iff p,
            +ℤ_parts c.attachment_count c.existing_attachment_count,
            Result-cases (validate_policy p),
          ) in
        (k.0, (LinksParse_iff c.links).0 k.1),
    λ h.
        let links = (LinksParse_iff c.links).1 h.1 in
        let rules = h.0 in
        ground (
          arith,
          validate_policy_iff p,
          +ℤ_parts c.attachment_count c.existing_attachment_count,
          links,
          rules,
        ),
  )
