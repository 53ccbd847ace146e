-- ===== src/Transport/Http/Cursors.antt =====
-- handlers/cursor.go
use ms_go_comment.Base.{
  Option, Result, Text, [], ap, arith, err, if◌then◌else◌, none, not, ok, refl, some, validation,
  ◌!=◌, ◌&&◌, ◌==◌, ◌||◌, ◌∙◌, ◌∷◌, ◌≡◌, ◌≢◌,
}
use ms_go_comment.Domain.Common.{Time, Uuid, equal_uuid_ptr}
use ms_go_comment.Store.Comments.{CommentCursor}

-- `listCursor`
pub record ListCursor : Type 0 where
  pub thread_id : Uuid
  pub parent_id : Option Uuid
  pub created_at : Time
  pub id : Uuid

-- `json.Marshal` and `base64.RawURLEncoding.EncodeToString` of a cursor, and back, with `none` for an
-- error of either.
pub record CursorCodec : Type 0 where
  pub encode : ListCursor → Text
  pub decode : Text → Option ListCursor

-- What the codec gives back, and that it writes something.
pub record IsFaithful (codec : CursorCodec) : Type 0 where
  pub back : (c : ListCursor) → codec.decode (codec.encode c) ≡ some c
  pub written : (c : ListCursor) → codec.encode c ≢ []

module _ (codec : CursorCodec) where
  -- `encodeCursor`
  unfoldable pub encode_cursor : Uuid → Option Uuid → CommentCursor → Text
  encode_cursor thread_id parent_id cursor = codec.encode (record {
    thread_id = thread_id;
    parent_id = parent_id;
    created_at = cursor.created_at;
    id = cursor.id;
  })

  abbrev pub checked_cursor : Uuid → Option Uuid → Option ListCursor → Result (Option CommentCursor)
  checked_cursor thread_id parent_id none = err validation
  checked_cursor thread_id parent_id (some c) =
      if c.id == 0 || c.created_at == 0
      then err validation
      else if c.thread_id != thread_id || not (equal_uuid_ptr c.parent_id parent_id)
      then err validation
      else ok (some (record { created_at = c.created_at; id = c.id }))

  -- `decodeCursor`; its callers answer every error of it as a validation error.
  unfoldable pub decode_cursor : Text → Uuid → Option Uuid → Result (Option CommentCursor)
  decode_cursor [] thread_id parent_id = ok none
  decode_cursor (c ∷ raw) thread_id parent_id =
      checked_cursor thread_id parent_id (codec.decode (c ∷ raw))

  decoded :
      (raw : Text) (thread_id : Uuid) (parent_id : Option Uuid)
      → raw ≢ []
      → decode_cursor raw thread_id parent_id
        ≡ checked_cursor thread_id parent_id (codec.decode raw)
  unfolding decode_cursor
  decoded [] thread_id parent_id h = absurd (h refl)
  decoded (c ∷ raw) thread_id parent_id h = refl

  -- A cursor with an identifier and a time that was written for a list of comments is read back as
  -- it was where the same thread and parent are asked for, and refused for any other; so long as
  -- the codec gives back what it was given.
  pub decode_cursor-encode_cursor :
      (thread_id : Uuid) (parent_id : Option Uuid) (cursor : CommentCursor) (asked_thread : Uuid)
      (asked_parent : Option Uuid)
      → IsFaithful codec
      → cursor.id ≢ 0
      → cursor.created_at ≢ 0
      → decode_cursor (encode_cursor thread_id parent_id cursor) asked_thread asked_parent ≡ (
          if thread_id == asked_thread && equal_uuid_ptr parent_id asked_parent
          then ok (some cursor)
          else err validation)
  unfolding encode_cursor
  decode_cursor-encode_cursor thread_id parent_id cursor asked_thread asked_parent f id at =
      let c : ListCursor = record {
        thread_id = thread_id;
        parent_id = parent_id;
        created_at = cursor.created_at;
        id = cursor.id;
      } in
      decoded (codec.encode c) asked_thread asked_parent (f.written c)
      ∙ ap (checked_cursor asked_thread asked_parent) (f.back c)
      ∙ ground arith
