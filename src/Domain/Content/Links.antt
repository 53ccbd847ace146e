-- ===== src/Domain/Content/Links.antt =====
-- The loop of `AnalyzeCommentContent` over the matches, internal/domain/comment.go.
use ms_go_comment.Base.{
  List, Text, [], ap, arith, codes, false, mem, not, refl, text_eq, text_eq_iff, trim_right, true,
  ◌&&◌, ◌∷◌, ◌≡◌,
}
use ms_go_comment.Domain.Content.{Link, collect_links, is_trailing, text_mem}

abbrev pub link_urls : List Link → List Text
link_urls [] = []
link_urls (l ∷ ls) = l.url ∷ link_urls ls

-- No text stands twice.
abbrev pub Distinct : List Text → Type 0
Distinct [] = Unit
Distinct (t ∷ ts) = (text_mem t ts ≡ false) × Distinct ts

-- The matches without the punctuation at their ends.
abbrev pub trimmed : List Text → List Text
trimmed [] = []
trimmed (m ∷ ms) = trim_right (λ c. mem c (codes ".,;:!?)]}")) m ∷ trimmed ms

text_mem-congr : (a b : Text) (ts : List Text) → text_eq a b ≡ true → text_mem a ts ≡ text_mem b ts
text_mem-congr a b ts h = ap (λ t. text_mem t ts) ((text_eq_iff a b).0 h)

text_mem-collect_links :
    (t : Text) (seen ms : List Text)
    → text_mem t (link_urls (collect_links seen ms))
      ≡ (not (text_mem t seen) && text_mem t (trimmed ms))
unfolding collect_links is_trailing
text_mem-collect_links t seen [] = ground arith
text_mem-collect_links t seen (m ∷ ms) =
    let c = trim_right is_trailing m in
    ground (
      arith,
      text_mem-congr c t seen,
      text_mem-collect_links t seen ms,
      text_mem-collect_links t (c ∷ seen) ms,
    )

collect_links-Distinct : (seen ms : List Text) → Distinct (link_urls (collect_links seen ms))
unfolding collect_links
collect_links-Distinct seen [] = tt
collect_links-Distinct seen (m ∷ ms) =
    let c = trim_right is_trailing m in
    ground (
      arith,
      (text_eq_iff c c).1 refl,
      text_mem-collect_links c (c ∷ seen) ms,
      collect_links-Distinct seen ms,
      collect_links-Distinct (c ∷ seen) ms,
    )

-- The links collected from the matches hold no text twice, and a text is among them exactly when it
-- is a match without the characters .,;:!?)]} at its end.
pub collect_links-Collected :
    (ms : List Text)
    → Distinct (link_urls (collect_links [] ms))
      × ((t : Text) → text_mem t (link_urls (collect_links [] ms)) ≡ text_mem t (trimmed ms))
collect_links-Collected ms =
    (collect_links-Distinct [] ms, λ t. ground (arith, text_mem-collect_links t [] ms))
