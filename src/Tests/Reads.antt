-- ===== src/Tests/Reads.antt =====
-- Reads of the comment that has the picture, and the permissions of a grant.
use ms_go_comment.Base.{
  List, [], codes, equal_fold, fold_rune, is_blank, is_ok, is_space, none, ok, pos, refl, some, suc,
  trim_right, trim_space, true, zero, ℕ, ◌+ℤ◌, ◌∷◌, ◌≡◌,
}
use ms_go_comment.Domain.Actor.{validate}
use ms_go_comment.Domain.Comment.{Comment, CommentStatus}
use ms_go_comment.Domain.Common.{is_slug, slug_char, slug_start}
use ms_go_comment.Domain.Grant.{
  AccessGrant, beyond_mask, includes, permission_valid, validate_grant,
}
use ms_go_comment.Domain.Space.{AccessMode, Space}
use ms_go_comment.Domain.Thread.{validate_resource}
use ms_go_comment.Store.Attachments.{list_by_comment}
use ms_go_comment.Store.Database.{Database}
use ms_go_comment.Store.Monad.{World, call, clock, lift, or_missing, pure, ◌>>=◌}
use ms_go_comment.Store.Rows.{insert_by, sort_by}
use ms_go_comment.Store.Spaces.{get_space}
use ms_go_comment.Store.Threads.{get_thread}
use ms_go_comment.Store.Tokens.{resolve_grant}
use ms_go_comment.Store.Triples.{Triple}
use ms_go_comment.Tests.Samples.{
  author, calm, codec, first_comment, illustrated, open_space, open_thread, picture, plain,
  plain-IsQuiet, reply, start, stored,
}
use ms_go_comment.Usecase.Discussion.{CreateCommentInput}
use ms_go_comment.Usecase.Discussion.Context.{ask_access, authorize_access}
use ms_go_comment.Usecase.Discussion.Create.{resolve_replay}
use ms_go_comment.Usecase.Discussion.Read.{change_views, view_of}
use ms_go_comment.Usecase.Discussion.Redaction.{AllShown, change_views-AllShown}
use ms_go_comment.Usecase.Discussion.Replay.{Matches, resolve_replay-Matches}
use ms_go_comment.Usecase.Discussion.Sets.{count_all, drain, equal_uuid_set}
use ms_go_comment.Usecase.Grants.{access_permissions, permissions_by_mode, resolve_permissions}

abbrev filed : World
filed = record start { db = illustrated }

-- The comment and a hidden one.
abbrev both_kinds : List Comment
both_kinds = first_comment ∷ record first_comment { id = 12; status = CommentStatus.hidden } ∷ []

shown_views :
    (change_views calm plain both_kinds filed).0
    ≡ ok (
        record {
          comment = first_comment;
          attachments = record picture { comment_id = some 11 } ∷ [];
        }
        ∷ record {
          comment = record first_comment {
            id = 12;
            status = CommentStatus.hidden;
            body = [];
            links = [];
          };
          attachments = [];
        }
        ∷ [])
unfolding change_views view_of list_by_comment ◌>>=◌ call pure sort_by insert_by
shown_views = refl

change_views-AllShown_example :
    Triple
      (λ d. d ≡ illustrated)
      (change_views calm plain both_kinds)
      (λ vs d. (d ≡ illustrated) × AllShown both_kinds vs d)
change_views-AllShown_example = change_views-AllShown calm plain (λ d. d ≡ illustrated) both_kinds

-- The request that made the comment, once more.
abbrev repeated : CreateCommentInput
repeated = record reply { parent_id = none; body = codes "first" }

replayed : is_ok (resolve_replay calm plain author first_comment repeated filed).0 ≡ true
unfolding ◌+ℤ◌ resolve_replay list_by_comment ◌>>=◌ call pure lift or_missing sort_by insert_by
    get_thread get_space authorize_access ask_access equal_uuid_set drain count_all
replayed = refl

resolve_replay-Matches_example :
    Triple
      (λ d. d ≡ illustrated)
      (resolve_replay calm plain author first_comment repeated)
      (λ r d. (d ≡ illustrated) × Matches first_comment repeated r d)
resolve_replay-Matches_example =
    resolve_replay-Matches calm plain plain-IsQuiet (λ d. d ≡ illustrated) author first_comment
      repeated

abbrev times : ℕ → List ℕ
times zero = []
times (suc n) = 9 ∷ times n

abbrev closed_space : Space
closed_space = record open_space { access_mode = AccessMode.context_grant }

-- To read and to write.
abbrev grant : AccessGrant
grant = record {
  grant_hash = times 32;
  issuer = codes "lms";
  user_id = 7;
  space_id = 2;
  resource = open_thread.resource;
  permissions = 3;
  expires_at = 1_000_000;
  created_at = 1;
}

abbrev granted : Database
granted = record stored { grants = grant ∷ [] }

granted_permissions :
    (access_permissions calm codec
      (pos 0)
      (some (times 32))
      author
      closed_space
      open_thread.resource
      (record start { db = granted })).0
    ≡ ok 3
unfolding access_permissions permissions_by_mode resolve_permissions resolve_grant ◌>>=◌ call pure
    lift or_missing clock validate validate_grant validate_resource permission_valid includes
    beyond_mask is_slug slug_start slug_char trim_space trim_right is_space is_blank equal_fold
    fold_rune
granted_permissions = refl
