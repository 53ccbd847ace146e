-- ===== src/Order.antt =====
-- The order of the changes in a thread: every write of a comment takes the thread's next sequence
-- number, so that a client can ask for what it has not seen.
pub mod Threads
pub mod Comments
pub mod Steps
pub mod Replies
pub mod Creation
pub mod Files
pub mod Feed
pub mod Pages
pub mod Listing
pub mod Walks
pub mod Administration
pub mod Opening
pub mod Histories
use ms_go_comment.Base.{All, List, [], any, true, ℤ, ◌<ℤ◌, ◌==◌, ◌∷◌, ◌≡◌, ◌≢◌, ◌≤ℤ◌}
use ms_go_comment.Domain.Comment.{Comment}
use ms_go_comment.Domain.Common.{Uuid}
use ms_go_comment.Domain.Thread.{Thread}
use ms_go_comment.Store.Database.{Database}

-- Thread identifiers are distinct.
abbrev pub ThreadsKeyed : List Thread → Type 0
ThreadsKeyed [] = Unit
ThreadsKeyed (t ∷ ts) = All (λ u. u.id ≢ t.id) ts × ThreadsKeyed ts

-- Two comments differ in their identifier and, in one thread, in their sequence number.
abbrev pub Apart : Comment → Comment → Type 0
Apart a b = (a.id ≢ b.id) × (a.thread_id ≡ b.thread_id → a.sequence ≢ b.sequence)

abbrev pub AllApart : List Comment → Type 0
AllApart [] = Unit
AllApart (c ∷ cs) = All (Apart c) cs × AllApart cs

-- A comment's sequence number is at most the last one of its thread.
abbrev pub Bounded : List Thread → Comment → Type 0
Bounded ts c = All (λ t. t.id ≡ c.thread_id → c.sequence ≤ℤ t.last_sequence) ts

abbrev pub Housed : List Thread → Comment → Type 0
Housed ts c = any (λ t. t.id == c.thread_id) ts ≡ true

pub record Sequenced (d : Database) : Type 0 where
  pub keyed : ThreadsKeyed d.threads
  pub apart : AllApart d.comments
  pub bounded : All (Bounded d.threads) d.comments
  pub housed : All (Housed d.threads) d.comments

-- `q` is above every sequence number of the thread `id`, and the thread has counted up to it.
pub record FreshSequence (id : Uuid) (q : ℤ) (d : Database) : Type 0 where
  pub below : All (λ c. c.thread_id ≡ id → c.sequence <ℤ q) d.comments
  pub room : All (λ t. t.id ≡ id → q ≤ℤ t.last_sequence) d.threads
  pub exists : any (λ t. t.id == id) d.threads ≡ true
