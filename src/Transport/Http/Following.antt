-- ===== src/Transport/Http/Following.antt =====
-- A client that follows the cursors of `ListComments` in handlers/comment.go.
use ms_go_comment.Base.{List, Option, Text, none, ok, pos, some, suc, zero, ℕ, ◌++◌, ◌≡◌, ◌≢◌}
use ms_go_comment.Domain.Actor.{Actor}
use ms_go_comment.Domain.Comment.{Comment}
use ms_go_comment.Domain.Common.{Uuid}
use ms_go_comment.Order.Feed.{page}
use ms_go_comment.Store.Comments.{CommentCursor}
use ms_go_comment.Store.Monad.{Env, M, pure, ◌>>=◌}
use ms_go_comment.Transport.Http.{IdParser, optional_uuid, parse_limit, parsed_uuid}
use ms_go_comment.Transport.Http.Cursors.{CursorCodec, decode_cursor}
use ms_go_comment.Transport.Http.Discussions.{ListQuery, list_page}
use ms_go_comment.Usecase.Discussion.{CommentView, Settings}
use ms_go_comment.Usecase.Discussion.Read.{views}

abbrev pub put_before : List CommentView → Option (List CommentView) → Option (List CommentView)
put_before views none = none
put_before views (some more) = some (views ++ more)

module _ (env : Env) (s : Settings) (ids : IdParser) (codec : CursorCodec) where
  -- The rest of the client's loop behind a page: it stops where no cursor is given.
  abbrev pub follow :
      List CommentView
      → Option Text
      → (Text → M (Option (List CommentView)))
      → M (Option (List CommentView))
  follow views none more = pure (some views)
  follow views (some cursor) more = do rest ← more cursor; pure (put_before views rest)

  -- The client's loop, with fuel for its requests; `none` is a loop that ran out of it.
  unfoldable pub gather : ℕ → Actor → ListQuery → M (Option (List CommentView))
  gather zero actor q = pure none
  gather (suc fuel) actor q = do
    page ← list_page env s ids codec actor q
    follow page.views page.next (λ cursor. gather fuel actor (record q { cursor = cursor }))

-- What a query asks for, as the handler reads it.
pub record Asks (ids : IdParser) (codec : CursorCodec) (q : ListQuery) (thread_id : Uuid)
    (parent_id : Option Uuid) (n : ℕ) (cursor : Option CommentCursor) : Type 0 where
  pub for_thread : parsed_uuid ids q.thread_id ≡ ok thread_id
  pub for_parent : optional_uuid ids q.parent_id ≡ ok parent_id
  pub for_limit : parse_limit q.limit ≡ ok (pos (suc n))
  pub for_cursor : decode_cursor codec q.cursor thread_id parent_id ≡ ok cursor

-- Stored comments have an identifier and a time.
abbrev pub Identified : Comment → Type 0
Identified c = (c.id ≢ 0) × (c.created_at ≢ 0)
