-- ===== src/Store/Database.antt =====
-- The tables, and a statement on them: what it returns and what it leaves. Its first argument is
-- the database's `NOW()`.
use ms_go_comment.Base.{
  Bool, Err, List, Option, Result, err, false, none, not_found, ok, some, true,
}
use ms_go_comment.Domain.Attachment.{Attachment}
use ms_go_comment.Domain.Comment.{Comment}
use ms_go_comment.Domain.Common.{Time}
use ms_go_comment.Domain.Grant.{AccessGrant}
use ms_go_comment.Domain.Outbox.{OutboxEvent}
use ms_go_comment.Domain.Space.{Space}
use ms_go_comment.Domain.Thread.{Thread}
use ms_go_comment.Domain.Ticket.{RealtimeTicket}

pub record Database : Type 0 where
  pub spaces : List Space
  pub threads : List Thread
  pub comments : List Comment
  pub attachments : List Attachment
  pub outbox : List OutboxEvent
  pub grants : List AccessGrant
  pub tickets : List RealtimeTicket

abbrev pub Query : Type 0 → Type 0
Query A = Time → Database → Result A × Database

-- `scan…` on a `QueryRow`: no row is `ErrNotFound`, by `mapError`.
abbrev pub or_not_found {ℓ} : {A : Type ℓ} → Option A → Result A
or_not_found none = err not_found
or_not_found (some a) = ok a

abbrev pub reads : {A : Type 0} → (Database → Result A) → Query A
reads f now d = (f d, d)

-- `if command.RowsAffected() == 0 { return e }`
abbrev pub affecting : Bool → Err → Database → Database → Result (Unit {0}) × Database
affecting true e d d' = (ok tt, d')
affecting false e d d' = (err e, d)
