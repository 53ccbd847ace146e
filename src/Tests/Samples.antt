-- ===== src/Tests/Samples.antt =====
-- A small discussion: one space, one thread, one comment of the actor 7.
use ms_go_comment.Base.{[], arith, codes, false, ltb, none, pos, refl, some, true, ◌+◌, ◌∷◌}
use ms_go_comment.Domain.Actor.{Actor}
use ms_go_comment.Domain.Attachment.{Attachment, AttachmentStatus}
use ms_go_comment.Domain.Comment.{Comment, CommentStatus}
use ms_go_comment.Domain.Image.{ImageDecoder}
use ms_go_comment.Domain.Outbox.{EventSubject, OutboxEvent}
use ms_go_comment.Domain.Space.{AccessMode, Policy, Space, SpaceStatus, UrlParser, default_policy}
use ms_go_comment.Domain.Thread.{Thread, ThreadStatus, no_overrides}
use ms_go_comment.Order.{Sequenced}
use ms_go_comment.Order.Files.{AttachmentsHoused}
use ms_go_comment.Store.Database.{Database}
use ms_go_comment.Store.Monad.{Env, World, done}
use ms_go_comment.Usecase.Discussion.{
  CreateCommentInput, DeleteCommentInput, Settings, UpdateCommentInput,
}
use ms_go_comment.Usecase.Discussion.Emit.{comment_event}
use ms_go_comment.Usecase.Discussion.Guards.{IsQuiet}
use ms_go_comment.Usecase.Grants.{Codec}

abbrev pub author : Actor
author = record { user_id = 7; role = codes "student" }

abbrev pub image_policy : Policy
image_policy = record default_policy { allow_images = true }

abbrev pub open_space : Space
open_space = record {
  id = 2;
  key = codes "courses";
  name = codes "Courses";
  status = SpaceStatus.active;
  access_mode = AccessMode.authenticated;
  allowed_origins = [];
  policy = image_policy;
  created_by = 1;
  created_at = 1;
  updated_at = 1;
}

abbrev pub open_thread : Thread
open_thread = record {
  id = 3;
  space_id = 2;
  resource = record { kind = codes "lesson"; id = codes "42" };
  status = ThreadStatus.opened;
  policy_overrides = no_overrides;
  comment_count = pos 1;
  root_comment_count = pos 1;
  last_sequence = pos 1;
  last_comment_at = some 1;
  created_at = 1;
  updated_at = 1;
}

abbrev pub first_comment : Comment
first_comment = record {
  id = 11;
  thread_id = 3;
  author_id = 7;
  parent_id = none;
  root_id = 11;
  path = 11 ∷ [];
  depth = pos 0;
  body = codes "first";
  links = [];
  status = CommentStatus.active;
  version = pos 1;
  sequence = pos 1;
  direct_replies_count = pos 0;
  idempotency_key = 21;
  edited_at = none;
  deleted_at = none;
  created_at = 1;
  updated_at = 1;
}

abbrev pub picture : Attachment
picture = record {
  id = 31;
  thread_id = 3;
  comment_id = none;
  uploader_id = 7;
  filestorage_id = 41;
  status = AttachmentStatus.pending;
  mime_type = codes "image/png";
  size_bytes = pos 2048;
  width = pos 64;
  height = pos 32;
  original_filename = codes "a.png";
  expires_at = 1_000_000;
  activated_at = none;
  deleted_at = none;
  activation_attempts = pos 0;
  activation_next_attempt_at = none;
  delete_attempts = pos 0;
  delete_next_attempt_at = none;
  last_error = [];
  storage_deleted_at = none;
  created_at = 1;
  updated_at = 1;
}

abbrev pub stored : Database
stored = record {
  spaces = open_space ∷ [];
  threads = open_thread ∷ [];
  comments = first_comment ∷ [];
  attachments = picture ∷ [];
  outbox = [];
  grants = [];
  tickets = [];
}

abbrev pub no_urls : UrlParser
no_urls = record { parse = λ s. none; parse_request_uri = λ s. none }

abbrev pub small_png : ImageDecoder
small_png bytes = some (record { width = pos 64; height = pos 32; format = codes "png" })

-- No statement fails, the clock stands at 100 and the identifiers count up from 500.
abbrev pub calm : Env
calm = record {
  fault = λ n. false;
  now_at = λ n. 100;
  id_at = λ n. 500 + n;
  urls = no_urls;
  decode = small_png;
  files_configured = true;
  upload_at = λ n. done 41;
  signed_url_at = λ n. done (codes "https://files/41");
  activate_at = λ n. done tt;
  delete_at = λ n. done tt;
  publish_at = λ n. done tt;
  random_at = λ n. done (n ∷ []);
}

-- The statements from the number 10 on fail.
abbrev pub faulty : Env
faulty = record calm { fault = λ n. ltb 9 n }

abbrev pub plain : Settings
plain = record {
  access = none;
  attachment_ttl_minutes = pos 0;
  signed_url_minutes = pos 0;
  activation_max_attempts = pos 0;
}

pub plain-IsQuiet : IsQuiet plain
plain-IsQuiet access e = cc

abbrev pub start : World
start = record { db = stored; calls = 0; in_tx = false; flag = false }

pub stored-Sequenced : Sequenced stored
stored-Sequenced = record {
  keyed = (tt, tt);
  apart = (tt, tt);
  bounded = ((λ e. omega arith, tt), tt);
  housed = (refl, tt);
}

abbrev pub reply : CreateCommentInput
reply = record {
  thread_id = 3;
  parent_id = some 11;
  body = codes "a reply";
  attachment_ids = 31 ∷ [];
  idempotency_key = 22;
}

abbrev pub change : UpdateCommentInput
change = record { comment_id = 11; body = codes "second"; expected_version = pos 1 }

abbrev pub removal : DeleteCommentInput
removal = record { comment_id = 11; expected_version = pos 1 }

pub stored-AttachmentsHoused : AttachmentsHoused stored
stored-AttachmentsHoused = ((λ e. cc, tt), tt)

abbrev pub event : OutboxEvent
event = comment_event first_comment [] EventSubject.comment_created 7 51 100

abbrev pub queued : Database
queued = record stored { outbox = event ∷ [] }

abbrev pub codec : Codec
codec = record { sha256 = λ bytes. bytes; encode = λ bytes. bytes; decode = λ token. some token }

-- The comment has the picture.
abbrev pub illustrated : Database
illustrated = record stored { attachments = record picture { comment_id = some 11 } ∷ [] }
