-- ===== src/Tests/Paging.antt =====
-- The cursors and pages of the comment handlers on the sample.
use ms_go_comment.Base.{
  List, Option, Text, [], arith, codes, err, if◌then◌else◌, is_blank, is_space, length, none, ok,
  pos, refl, some, text_eq, trim_right, trim_space, validation, ◌&&◌, ◌<◌, ◌==◌, ◌∷◌, ◌≡◌, ◌≢◌,
}
use ms_go_comment.Domain.Comment.{Comment}
use ms_go_comment.Domain.Common.{Time, Uuid, equal_uuid_ptr}
use ms_go_comment.Order.{Sequenced}
use ms_go_comment.Order.Walks.{listing}
use ms_go_comment.Store.Database.{Database}
use ms_go_comment.Store.Rows.{insert_by, sort_by}
use ms_go_comment.Store.Triples.{Triple}
use ms_go_comment.Tests.Samples.{
  author, calm, first_comment, open_thread, plain, plain-IsQuiet, stored,
}
use ms_go_comment.Transport.Http.{
  IdParser, atoi, default_string, digits, optional_uuid, parse_limit, parsed_uuid,
}
use ms_go_comment.Transport.Http.Cursors.{
  CursorCodec, IsFaithful, ListCursor, decode_cursor, decode_cursor-encode_cursor, encode_cursor,
}
use ms_go_comment.Transport.Http.Discussions.{ListQuery}
use ms_go_comment.Transport.Http.Following.{Asks, gather}
use ms_go_comment.Transport.Http.Gather.{gather_all}
use ms_go_comment.Transport.Http.Rows.{comments_of}
use ms_go_comment.Usecase.Discussion.{CommentView}

-- A cursor as the list of its numbers.
abbrev written_cursor : Uuid → Time → Uuid → Option Uuid → Text
written_cursor t at id none = t ∷ at ∷ id ∷ []
written_cursor t at id (some p) = t ∷ at ∷ id ∷ p ∷ []

abbrev read_cursor : Text → Option ListCursor
read_cursor (t ∷ at ∷ id ∷ []) =
    some (record { thread_id = t; parent_id = none; created_at = at; id = id })
read_cursor (t ∷ at ∷ id ∷ p ∷ []) =
    some (record { thread_id = t; parent_id = some p; created_at = at; id = id })
read_cursor _ = none

abbrev cursors : CursorCodec
cursors = record {
  encode = λ c. written_cursor c.thread_id c.created_at c.id c.parent_id;
  decode = read_cursor;
}

read_cursor-written_cursor :
    (t : Uuid) (at : Time) (id : Uuid) (parent : Option Uuid)
    → read_cursor (written_cursor t at id parent)
      ≡ some (record { thread_id = t; parent_id = parent; created_at = at; id = id })
read_cursor-written_cursor t at id none = refl
read_cursor-written_cursor t at id (some p) = refl

some_written :
    (t : Uuid) (at : Time) (id : Uuid) (parent : Option Uuid) → written_cursor t at id parent ≢ []
some_written t at id none e = cc
some_written t at id (some p) e = cc

cursors-IsFaithful : IsFaithful cursors
cursors-IsFaithful = record {
  back = λ c. read_cursor-written_cursor c.thread_id c.created_at c.id c.parent_id;
  written = λ c. some_written c.thread_id c.created_at c.id c.parent_id;
}

decode_cursor-encode_cursor_example :
    decode_cursor cursors
      (encode_cursor cursors 3 none (record { created_at = 1; id = 11 }))
      3
      (some 5)
    ≡ (if 3 == 3 && equal_uuid_ptr none (some 5)
        then ok (some (record { created_at = 1; id = 11 }))
        else err validation)
decode_cursor-encode_cursor_example =
    decode_cursor-encode_cursor cursors 3 none (record { created_at = 1; id = 11 }) 3 (some 5)
      cursors-IsFaithful (λ e. cc) (λ e. cc)

-- An identifier as a text of one digit.
abbrev ids : IdParser
ids = record { parse_uuid = λ raw. if text_eq raw (codes "3") then some 3 else none }

abbrev asked : ListQuery
asked = record { thread_id = codes "3"; parent_id = []; limit = codes "1"; cursor = [] }

asked-Asks : Asks ids cursors asked 3 none 0 none
unfolding parsed_uuid optional_uuid parse_limit atoi digits decode_cursor default_string trim_space
    trim_right is_space is_blank
asked-Asks = record { for_thread = refl; for_parent = refl; for_limit = refl; for_cursor = refl }

-- Two comments of the thread, of which a page holds one.
abbrev second_comment : Comment
second_comment = record first_comment {
  id = 12;
  root_id = 12;
  path = 12 ∷ [];
  sequence = pos 2;
  idempotency_key = 22;
  created_at = 2;
}

abbrev longer : Database
longer = record stored {
  threads = record open_thread { last_sequence = pos 2 } ∷ [];
  comments = first_comment ∷ second_comment ∷ [];
}

longer-Sequenced : Sequenced longer
longer-Sequenced = record {
  keyed = (tt, tt);
  apart = (((λ e. cc, λ e e'. cc), tt), (tt, tt));
  bounded = ((λ e. omega arith, tt), ((λ e. omega arith, tt), tt));
  housed = (refl, (refl, tt));
}

listing_short : length (listing 3 none longer) < 3
unfolding sort_by insert_by
listing_short = omega arith

gather_all_example :
    Triple
      (λ d. d ≡ longer)
      (gather calm plain ids cursors 3 author asked)
      (λ o d.
        (d ≡ longer)
        × ((vs : List CommentView) × (o ≡ some vs) × (comments_of vs ≡ listing 3 none longer)))
gather_all_example =
    gather_all calm plain plain-IsQuiet ids cursors author longer 3 none 0 3 asked
      cursors-IsFaithful longer-Sequenced (((λ e. cc), (λ e. cc)), (((λ e. cc), (λ e. cc)), tt))
      asked-Asks listing_short
