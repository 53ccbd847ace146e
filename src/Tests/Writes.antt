-- ===== src/Tests/Writes.antt =====
-- The writes of a discussion on the sample.
use ms_go_comment.Base.{
  equal_fold, err, fold_rune, is_blank, is_ok, is_space, ok, pos, refl, trim_right, trim_space,
  true, unavailable, ◌+ℤ◌, ◌≡◌,
}
use ms_go_comment.Domain.Actor.{validate}
use ms_go_comment.Domain.Attachment.{validate_attachment}
use ms_go_comment.Domain.Comment.{build_comment_placement, place, validate_placement}
use ms_go_comment.Domain.Common.{is_slug, slug_char, slug_start}
use ms_go_comment.Domain.Content.{
  analyze_comment_content, collect_links, find_links, has_raw_html, is_trailing, link_char,
  match_link, re_space, skip_s, skip_slash, strip_fold, tag_rest, validate_content,
}
use ms_go_comment.Domain.Grant.{includes, permission_write}
use ms_go_comment.Domain.Json.{member, without}
use ms_go_comment.Domain.Outbox.{validate_event}
use ms_go_comment.Domain.Space.{validate_policy, validate_space_key}
use ms_go_comment.Domain.Thread.{apply_policy, validate_resource}
use ms_go_comment.Order.{FreshSequence, Sequenced}
use ms_go_comment.Order.Creation.{create_comment-Sequenced}
use ms_go_comment.Order.Steps.{delete_comment-Sequenced, update_comment-Sequenced}
use ms_go_comment.Order.Threads.{next_sequence-fresh}
use ms_go_comment.Store.Attachments.{
  bind_to_comment, get_attachment, list_by_comment, update_status,
}
use ms_go_comment.Store.Comments.{
  create_comment_row, get_by_idempotency_key, get_comment, increment_reply_count,
  lock_idempotency_key, mark_deleted, update_content,
}
use ms_go_comment.Store.Monad.{
  attempt, call, clock, lift, new_id, or_missing, pure, within_transaction, ◌>>=◌,
}
use ms_go_comment.Store.Outbox.{add_event}
use ms_go_comment.Store.Rows.{insert_by, sort_by, update_where}
use ms_go_comment.Store.Spaces.{get_space, get_space_by_key}
use ms_go_comment.Store.Threads.{get_thread, next_sequence, record_comment_created}
use ms_go_comment.Store.Triples.{Triple}
use ms_go_comment.Tests.Samples.{
  author, calm, change, faulty, plain, plain-IsQuiet, removal, reply, start, stored,
  stored-Sequenced,
}
use ms_go_comment.Usecase.Discussion.Atomic.{kept_on_error, writes-atomic}
use ms_go_comment.Usecase.Discussion.Context.{
  ask_access, authorize_access, load_mutable_comment, load_thread_context,
}
use ms_go_comment.Usecase.Discussion.Create.{
  bind_all, check_attachments, count_reply, create_comment, create_fresh, create_or_replay,
  load_parent, resolve_replay, store_comment, validate_attachments,
}
use ms_go_comment.Usecase.Discussion.Edit.{
  delete_comment, drop_attachments, update_comment, write_delete, write_update,
}
use ms_go_comment.Usecase.Discussion.Emit.{add_outbox, add_valid_event}
use ms_go_comment.Usecase.Discussion.Guards.{
  Admitted, Editable, load_mutable_comment-Triple, load_thread_context-Triple,
}
use ms_go_comment.Usecase.Discussion.Sets.{count_all, drain, equal_uuid_set}

-- A reply with an attachment is created.
created : is_ok (create_comment calm plain author reply start).0 ≡ true
unfolding ◌+ℤ◌ is_space trim_space trim_right is_blank fold_rune equal_fold validate
    validate_attachment validate_placement place build_comment_placement slug_start slug_char
    is_slug re_space link_char strip_fold skip_s match_link find_links is_trailing collect_links
    skip_slash tag_rest has_raw_html analyze_comment_content validate_content includes member
    without validate_event validate_policy validate_space_key apply_policy validate_resource
    update_where insert_by sort_by get_attachment list_by_comment bind_to_comment update_status
    create_comment_row get_comment get_by_idempotency_key lock_idempotency_key increment_reply_count
    add_event get_thread next_sequence record_comment_created get_space get_space_by_key pure lift
    attempt or_missing ◌>>=◌ call clock new_id within_transaction ask_access authorize_access
    load_thread_context add_valid_event add_outbox check_attachments validate_attachments
    resolve_replay load_parent bind_all count_reply store_comment create_fresh create_or_replay
    create_comment count_all drain equal_uuid_set
created = refl

-- The comment is changed, and deleted.
changed : is_ok (update_comment calm plain author change start).0 ≡ true
unfolding ◌+ℤ◌ is_space trim_space trim_right is_blank fold_rune equal_fold validate
    validate_attachment validate_placement place build_comment_placement slug_start slug_char
    is_slug re_space link_char strip_fold skip_s match_link find_links is_trailing collect_links
    skip_slash tag_rest has_raw_html analyze_comment_content validate_content includes member
    without validate_event validate_policy validate_space_key apply_policy validate_resource
    update_where insert_by sort_by get_attachment list_by_comment bind_to_comment update_status
    get_comment get_by_idempotency_key lock_idempotency_key update_content mark_deleted add_event
    get_thread next_sequence get_space get_space_by_key pure lift attempt or_missing ◌>>=◌ call
    clock new_id within_transaction ask_access authorize_access load_thread_context
    load_mutable_comment add_valid_event add_outbox write_update update_comment drop_attachments
    write_delete delete_comment
changed = refl

removed : is_ok (delete_comment calm plain author removal start).0 ≡ true
unfolding ◌+ℤ◌ is_space trim_space trim_right is_blank fold_rune equal_fold validate
    validate_attachment validate_placement place build_comment_placement slug_start slug_char
    is_slug re_space link_char strip_fold skip_s match_link find_links is_trailing collect_links
    skip_slash tag_rest has_raw_html analyze_comment_content validate_content includes member
    without validate_event validate_policy validate_space_key apply_policy validate_resource
    update_where insert_by sort_by get_attachment list_by_comment bind_to_comment update_status
    get_comment get_by_idempotency_key lock_idempotency_key update_content mark_deleted add_event
    get_thread next_sequence get_space get_space_by_key pure lift attempt or_missing ◌>>=◌ call
    clock new_id within_transaction ask_access authorize_access load_thread_context
    load_mutable_comment add_valid_event add_outbox write_update update_comment drop_attachments
    write_delete delete_comment
removed = refl

-- A statement in the middle of each fails.
creation_fails : (create_comment faulty plain author reply start).0 ≡ err unavailable
unfolding ◌+ℤ◌ is_space trim_space trim_right is_blank fold_rune equal_fold validate
    validate_attachment validate_placement place build_comment_placement slug_start slug_char
    is_slug re_space link_char strip_fold skip_s match_link find_links is_trailing collect_links
    skip_slash tag_rest has_raw_html analyze_comment_content validate_content includes member
    without validate_event validate_policy validate_space_key apply_policy validate_resource
    update_where insert_by sort_by get_attachment list_by_comment bind_to_comment update_status
    create_comment_row get_comment get_by_idempotency_key lock_idempotency_key increment_reply_count
    add_event get_thread next_sequence record_comment_created get_space get_space_by_key pure lift
    attempt or_missing ◌>>=◌ call clock new_id within_transaction ask_access authorize_access
    load_thread_context add_valid_event add_outbox check_attachments validate_attachments
    resolve_replay load_parent bind_all count_reply store_comment create_fresh create_or_replay
    create_comment count_all drain equal_uuid_set
creation_fails = refl

change_fails : (update_comment faulty plain author change start).0 ≡ err unavailable
unfolding ◌+ℤ◌ is_space trim_space trim_right is_blank fold_rune equal_fold validate
    validate_attachment validate_placement place build_comment_placement slug_start slug_char
    is_slug re_space link_char strip_fold skip_s match_link find_links is_trailing collect_links
    skip_slash tag_rest has_raw_html analyze_comment_content validate_content includes member
    without validate_event validate_policy validate_space_key apply_policy validate_resource
    update_where insert_by sort_by get_attachment list_by_comment bind_to_comment update_status
    get_comment get_by_idempotency_key lock_idempotency_key update_content mark_deleted add_event
    get_thread next_sequence get_space get_space_by_key pure lift attempt or_missing ◌>>=◌ call
    clock new_id within_transaction ask_access authorize_access load_thread_context
    load_mutable_comment add_valid_event add_outbox write_update update_comment drop_attachments
    write_delete delete_comment
change_fails = refl

removal_fails : (delete_comment faulty plain author removal start).0 ≡ err unavailable
unfolding ◌+ℤ◌ is_space trim_space trim_right is_blank fold_rune equal_fold validate
    validate_attachment validate_placement place build_comment_placement slug_start slug_char
    is_slug re_space link_char strip_fold skip_s match_link find_links is_trailing collect_links
    skip_slash tag_rest has_raw_html analyze_comment_content validate_content includes member
    without validate_event validate_policy validate_space_key apply_policy validate_resource
    update_where insert_by sort_by get_attachment list_by_comment bind_to_comment update_status
    get_comment get_by_idempotency_key lock_idempotency_key update_content mark_deleted add_event
    get_thread next_sequence get_space get_space_by_key pure lift attempt or_missing ◌>>=◌ call
    clock new_id within_transaction ask_access authorize_access load_thread_context
    load_mutable_comment add_valid_event add_outbox write_update update_comment drop_attachments
    write_delete delete_comment
removal_fails = refl

create_comment-Sequenced_example : Sequenced (create_comment calm plain author reply start).1.db
create_comment-Sequenced_example =
    create_comment-Sequenced calm plain plain-IsQuiet author reply start refl stored-Sequenced

update_comment-Sequenced_example : Sequenced (update_comment calm plain author change start).1.db
update_comment-Sequenced_example =
    update_comment-Sequenced calm plain plain-IsQuiet author change start refl stored-Sequenced

delete_comment-Sequenced_example : Sequenced (delete_comment calm plain author removal start).1.db
delete_comment-Sequenced_example =
    delete_comment-Sequenced calm plain plain-IsQuiet author removal start refl stored-Sequenced

writes-atomic_example :
    ((create_comment faulty plain author reply start).1.db
      ≡ kept_on_error stored (create_comment faulty plain author reply start))
    × ((update_comment faulty plain author change start).1.db
        ≡ kept_on_error stored (update_comment faulty plain author change start))
    × ((delete_comment faulty plain author removal start).1.db
        ≡ kept_on_error stored (delete_comment faulty plain author removal start))
writes-atomic_example = writes-atomic faulty plain author reply change removal start refl

load_mutable_comment-Triple_example :
    Triple Sequenced
      (load_mutable_comment calm plain author 11 (pos 1))
      (λ r d. Sequenced d × Editable calm plain author 11 (pos 1) r d)
load_mutable_comment-Triple_example =
    load_mutable_comment-Triple calm plain plain-IsQuiet Sequenced author 11 (pos 1)

load_thread_context-Triple_example :
    Triple Sequenced
      (load_thread_context calm plain author 3 permission_write)
      (λ ctx d. Sequenced d × Admitted plain author 3 permission_write ctx d)
load_thread_context-Triple_example =
    load_thread_context-Triple calm plain plain-IsQuiet Sequenced author 3 permission_write

number_taken : (next_sequence 3 100 stored).0 ≡ ok (pos 2)
unfolding next_sequence update_where ◌+ℤ◌
number_taken = refl

next_sequence-fresh_example :
    Sequenced (next_sequence 3 100 stored).1
    × FreshSequence 3 (pos 2) (next_sequence 3 100 stored).1
next_sequence-fresh_example = next_sequence-fresh 3 100 stored (pos 2) stored-Sequenced number_taken
