-- ===== src/Transport/Http.antt =====
-- internal/transport/http/handlers: what a handler answers with, errors.go, decode.go, and the
-- parameters that the handlers read. A request is given by its parts, as text.
pub mod Views
pub mod Cursors
pub mod Discussions
pub mod Rows
pub mod Cuts
pub mod Pieces
pub mod Following
pub mod Gather
pub mod Statuses
pub mod Spaces
pub mod Services
use ms_go_comment.Base.{
  Bool, Err, Option, Result, Text, [], access_required, attachment_not_found, attachment_not_ready,
  authentication_required, codes, comment_not_found, conflict, cross_thread_parent, edit_conflict,
  err, forbidden, idempotency_conflict, if◌then◌else◌, images_disabled, internal_authentication,
  invalid_access_grant, invalid_attachment, invalid_comment_content, invalid_outbox_event,
  invalid_placement, invalid_policy, invalid_realtime_ticket, invalid_resource, invalid_space_key,
  is_blank, is_digit, leb, links_disabled, max_depth_exceeded, moderation_conflict, negsuc, none,
  not_found, ok, parent_not_found, pos, rate_limited, realtime_ticket_invalid, some,
  space_not_found, suc, thread_not_found, thread_not_writable, unavailable, validation, zero, ℕ, ℤ,
  ◌*◌, ◌+◌, ◌-◌, ◌==◌, ◌>>=◌, ◌>>◌, ◌∷◌,
}
use ms_go_comment.Domain.Common.{Uuid}
use ms_go_comment.Domain.Json.{Json, end, field, obj, text}
use ms_go_comment.Domain.Space.{outside}
use ms_go_comment.Store.Monad.{M}
use ms_go_comment.Usecase.Discussion.Read.{max_page_limit}

pub record Response : Type 0 where
  pub status : ℕ
  pub body : Json

-- `errorContract`: the status and the code.
unfoldable pub error_contract : Err → ℕ × Text
error_contract authentication_required = (401, codes "authentication_required")
error_contract internal_authentication = (403, codes "internal_authentication_failed")
error_contract realtime_ticket_invalid = (401, codes "realtime_ticket_invalid")
error_contract access_required = (403, codes "comment_access_required")
error_contract forbidden = (403, codes "comment_forbidden")
error_contract rate_limited = (429, codes "rate_limited")
error_contract space_not_found = (404, codes "space_not_found")
error_contract thread_not_found = (404, codes "thread_not_found")
error_contract comment_not_found = (404, codes "comment_not_found")
error_contract attachment_not_found = (404, codes "attachment_not_found")
error_contract attachment_not_ready = (409, codes "attachment_not_ready")
error_contract thread_not_writable = (409, codes "thread_not_writable")
error_contract edit_conflict = (409, codes "comment_edit_conflict")
error_contract moderation_conflict = (409, codes "comment_moderation_conflict")
error_contract idempotency_conflict = (409, codes "idempotency_conflict")
error_contract conflict = (409, codes "configuration_conflict")
error_contract parent_not_found = (422, codes "parent_not_found")
error_contract cross_thread_parent = (422, codes "parent_not_found")
error_contract max_depth_exceeded = (422, codes "max_depth_exceeded")
error_contract images_disabled = (422, codes "images_disabled")
error_contract links_disabled = (422, codes "links_disabled")
error_contract invalid_comment_content = (422, codes "invalid_comment_content")
error_contract validation = (422, codes "invalid_comment_content")
error_contract invalid_policy = (422, codes "invalid_comment_content")
error_contract invalid_space_key = (422, codes "invalid_comment_content")
error_contract invalid_resource = (422, codes "invalid_comment_content")
error_contract invalid_placement = (422, codes "invalid_comment_content")
error_contract invalid_attachment = (422, codes "invalid_comment_content")
error_contract invalid_realtime_ticket = (422, codes "invalid_comment_content")
error_contract invalid_access_grant = (422, codes "invalid_access_grant")
error_contract invalid_outbox_event = (500, codes "internal_error")
error_contract not_found = (500, codes "internal_error")
error_contract unavailable = (500, codes "internal_error")

-- The message that goes with a code, as `errorContract` pairs them.
unfoldable pub error_message : Err → Text
error_message authentication_required = codes "authenticated user is required"
error_message internal_authentication = codes "internal service authentication failed"
error_message realtime_ticket_invalid = codes "realtime ticket is invalid or expired"
error_message access_required = codes "comment access grant is required"
error_message forbidden = codes "comment operation is not allowed"
error_message rate_limited = codes "comment request rate limit was exceeded"
error_message space_not_found = codes "comment space was not found"
error_message thread_not_found = codes "comment thread was not found"
error_message comment_not_found = codes "comment was not found"
error_message attachment_not_found = codes "comment attachment was not found"
error_message attachment_not_ready = codes "comment attachment is not ready"
error_message thread_not_writable = codes "comment thread is not writable"
error_message edit_conflict = codes "comment was changed by another request"
error_message moderation_conflict =
    codes "comment cannot perform the requested moderation transition"
error_message idempotency_conflict = codes "idempotency key was reused with different input"
error_message conflict = codes "comment configuration conflicts with existing state"
error_message parent_not_found = codes "reply parent is invalid or unavailable"
error_message cross_thread_parent = codes "reply parent is invalid or unavailable"
error_message max_depth_exceeded = codes "maximum comment depth was exceeded"
error_message images_disabled = codes "images are disabled for this thread"
error_message links_disabled = codes "links are disabled for this thread"
error_message invalid_access_grant = codes "access grant request violates the contract"
error_message invalid_outbox_event = codes "internal server error"
error_message not_found = codes "internal server error"
error_message unavailable = codes "internal server error"
error_message _ = codes "request content violates the comment contract"

-- `WriteError`
unfoldable pub write_error : Err → Response
unfolding error_contract error_message
write_error e = record {
  status = (error_contract e).0;
  body = obj (
      field (codes "error") (text (error_contract e).1)
        (field (codes "message") (text (error_message e)) (field (codes "details") (obj end) end)));
}

-- The end of a handler: `if err != nil { WriteError(w, err); return }`, and `writeJSON`.
abbrev pub response {ℓ} : {A : Type ℓ} → (A → Response) → Result A → Response
response view (ok a) = view a
response view (err e) = write_error e

-- A handler from what it reads and what it calls; it always answers.
unfoldable pub respond : {A : Type 0} → M A → (A → Response) → M Response
respond m view w = let (r, w') = m w in (ok (response view r), w')

-- `decodeJSON` fails, or gives the one document of the body: the value that the decoder reads first,
-- and whether the body ends behind it.
pub record Body (A : Type 0) : Type 0 where
  pub first : Option A
  pub at_end : Bool

unfoldable pub decode_json : {A : Type 0} → Err → Body A → Result A
decode_json e b = elim (b.first) [ none ↦ err e | some a ↦ (if b.at_end then ok a else err e) ]

-- `uuid.Parse`
pub record IdParser : Type 0 where
  pub parse_uuid : Text → Option Uuid

unfoldable pub parsed_uuid : IdParser → Text → Result Uuid
parsed_uuid ids raw = elim (ids.parse_uuid raw) [ none ↦ err validation | some id ↦ ok id ]

-- `optionalUUID`
unfoldable pub optional_uuid : IdParser → Text → Result (Option Uuid)
unfolding parsed_uuid
optional_uuid ids [] = ok none
optional_uuid ids (c ∷ raw) = do id ← parsed_uuid ids (c ∷ raw); ok (some id)

-- The digits of `strconv.ParseInt` in base 10.
unfoldable pub digits : ℕ → Text → Option ℕ
digits n [] = some n
digits n (c ∷ s) = let rest = digits (n * 10 + (c - b'0')) s in if is_digit c then rest else none

abbrev pub max_int : ℕ
max_int = 9_223_372_036_854_775_807

abbrev pub within : ℕ → (ℕ → ℤ) → Option ℕ → Option ℤ
within limit sign none = none
within limit sign (some n) = if leb n limit then some (sign n) else none

abbrev pub negated : ℕ → ℤ
negated zero = pos 0
negated (suc n) = negsuc n

abbrev pub some_digits : Text → Option ℕ
some_digits [] = none
some_digits (c ∷ s) = digits 0 (c ∷ s)

-- `strconv.Atoi`, and `strconv.ParseInt` in base 10 with 64 bits.
unfoldable pub atoi : Text → Option ℤ
unfolding digits
atoi [] = none
atoi (c ∷ s) =
    if c == b'-'
    then within (max_int + 1) negated (some_digits s)
    else if c == b'+'
    then within max_int pos (some_digits s)
    else within max_int pos (some_digits (c ∷ s))

-- `defaultString`
unfoldable pub default_string : Text → Text → Text
default_string value fallback = if is_blank value then fallback else value

abbrev pub default_page_limit : ℤ
default_page_limit = pos 20

-- The tests of `parseLimit`.
abbrev pub checked_limit : Option ℤ → Result ℤ
checked_limit none = err validation
checked_limit (some n) = if outside n (pos 1) max_page_limit then err validation else ok n

-- `parseLimit`
unfoldable pub parse_limit : Text → Result ℤ
unfolding atoi
parse_limit [] = ok default_page_limit
parse_limit (c ∷ raw) = checked_limit (atoi (c ∷ raw))
