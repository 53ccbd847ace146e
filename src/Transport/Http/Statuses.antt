-- ===== src/Transport/Http/Statuses.antt =====
-- handlers/admin.go: the requests, the parameters and the documents of the administration.
use ms_go_comment.Base.{
  List, Option, Result, Text, [], codes, err, if◌then◌else◌, leb, ltb_ℤ, map, none, ok, pos, some,
  text_eq, trim_space, validation, ℕ, ℤ, ◌&&◌, ◌+◌, ◌==◌, ◌∷◌,
}
use ms_go_comment.Domain.Json.{Items, Json, arr, end, field, int, items, obj, text, time, uuid}
use ms_go_comment.Domain.Space.{AccessMode, Policy, Space, SpaceStatus}
use ms_go_comment.Domain.Thread.{ThreadPolicyOverrides, ThreadStatus}
use ms_go_comment.Transport.Http.{Response, atoi, checked_limit, default_string}
use ms_go_comment.Transport.Http.Discussions.{ok_response}
use ms_go_comment.Transport.Http.Views.{project_policy}

pub record SpaceWriteRequest : Type 0 where
  pub key : Text
  pub name : Text
  pub status : Text
  pub access_mode : Text
  pub allowed_origins : List Text
  pub policy : Policy

pub record ThreadUpdateRequest : Type 0 where
  pub status : Text
  pub policy_overrides : ThreadPolicyOverrides

-- The query of a list; a parameter that is not given is no_body.
pub record AdminQuery : Type 0 where
  pub status : Text
  pub space_id : Text
  pub limit : Text
  pub offset : Text

-- `unicode.ToLower` on the letters that the source compares: exact where the lower case is ASCII.
unfoldable pub lower_rune : ℕ → ℕ
lower_rune c =
    if leb b'A' c && leb c b'Z'
    then c + 32
    else if c == 0x130
    then b'i'
    else if c == 0x212A
    then b'k'
    else c

-- `strings.ToLower(strings.TrimSpace(raw))`
unfoldable pub normalized : Text → Text
unfolding lower_rune
normalized raw = map lower_rune (trim_space raw)

-- `accessMode`
unfoldable pub parse_access_mode : Text → Option AccessMode
unfolding normalized
parse_access_mode raw =
    if text_eq (normalized raw) (codes "authenticated")
    then some AccessMode.authenticated
    else if text_eq (normalized raw) (codes "context_grant")
    then some AccessMode.context_grant
    else none

-- `accessModeName`
unfoldable pub access_mode_name : AccessMode → Text
access_mode_name AccessMode.context_grant = codes "context_grant"
access_mode_name _ = codes "authenticated"

-- `spaceStatus`
unfoldable pub parse_space_status : Text → Option SpaceStatus
unfolding normalized
parse_space_status raw =
    if text_eq (normalized raw) (codes "active")
    then some SpaceStatus.active
    else if text_eq (normalized raw) (codes "disabled")
    then some SpaceStatus.disabled
    else none

-- `spaceStatusName`
unfoldable pub space_status_name : SpaceStatus → Text
space_status_name SpaceStatus.active = codes "active"
space_status_name _ = codes "disabled"

-- `threadStatusValue`
unfoldable pub parse_thread_status : Text → Option ThreadStatus
unfolding normalized
parse_thread_status raw =
    if text_eq (normalized raw) (codes "open")
    then some ThreadStatus.opened
    else if text_eq (normalized raw) (codes "read_only")
    then some ThreadStatus.read_only
    else if text_eq (normalized raw) (codes "closed")
    then some ThreadStatus.closed
    else if text_eq (normalized raw) (codes "hidden")
    then some ThreadStatus.hidden
    else none

-- `if !ok { WriteError(w, domain.ErrValidation); return }`
abbrev pub required {ℓ} : {A : Type ℓ} → Option A → Result A
required none = err validation
required (some a) = ok a

-- `if raw != "" { … }`: an optional parameter.
abbrev pub optional_of {ℓ} : {A : Type ℓ} → Result A → Result (Option A)
optional_of (err e) = err e
optional_of (ok a) = ok (some a)

abbrev pub optional {ℓ} : {A : Type ℓ} → (Text → Result A) → Text → Result (Option A)
optional parse [] = ok none
optional parse (c ∷ raw) = optional_of (parse (c ∷ raw))

abbrev pub checked_offset : Option ℤ → Result ℤ
checked_offset none = err validation
checked_offset (some n) = if ltb_ℤ n (pos 0) then err validation else ok n

-- `adminPage`; the default of the limit is `DefaultListLimit`, 20.
unfoldable pub admin_limit : AdminQuery → Result ℤ
unfolding default_string atoi
admin_limit q = checked_limit (atoi (default_string q.limit (codes "20")))

unfoldable pub admin_offset : AdminQuery → Result ℤ
unfolding default_string atoi
admin_offset q = checked_offset (atoi (default_string q.offset (codes "0")))

-- `projectSpace`
unfoldable pub project_space : Space → Json
unfolding project_policy space_status_name access_mode_name
project_space item = obj (
    field (codes "id") (uuid item.id) (
      field (codes "key") (text item.key) (
        field (codes "name") (text item.name) (
          field (codes "status") (text (space_status_name item.status)) (
            field (codes "access_mode") (text (access_mode_name item.access_mode)) (
              field (codes "allowed_origins") (arr (items text item.allowed_origins)) (
                field (codes "policy") (project_policy item.policy) (
                  field (codes "created_by") (uuid item.created_by) (
                    field (codes "created_at") (time item.created_at)
                      (field (codes "updated_at") (time item.updated_at) end))))))))))

abbrev pub list_response : Items → ℤ → ℤ → Response
list_response shown limit offset = ok_response 200 (
    obj (
      field (codes "items") (arr shown)
        (field (codes "limit") (int limit) (field (codes "offset") (int offset) end))))

-- What a list handler shows: its items, and the page that was asked for.
pub record AdminPage (A : Type 0) : Type 0 where
  pub shown : List A
  pub limit : ℤ
  pub offset : ℤ
