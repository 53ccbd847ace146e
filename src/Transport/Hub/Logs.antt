-- ===== src/Transport/Hub/Logs.antt =====
-- The frames of one client of hub.go over a run: what was posted, what was given, and what waits.

use ms_go_comment.Base.{
  List, Option, Result, [], any, ap, arith, err, false, false≢true, if◌then◌else◌, none, ok, refl,
  some, subst, sym, true, ℕ, ◌++◌, ◌<◌, ◌==◌, ◌>>=◌, ◌∙◌, ◌∷◌, ◌≡◌, ◌≤◌,
}
use ms_go_comment.Domain.Common.{Uuid}
use ms_go_comment.Domain.Json.{Json}
use ms_go_comment.Transport.Hub.{Client, Hub, activate, is_pair, receive, store_client}
use ms_go_comment.Transport.Hub.Feeds.{append-nil, backlog, listens}
use ms_go_comment.Transport.Hub.Reach.{
  HubOp, op_activate, op_enqueue, op_ephemeral, op_lifecycle, op_receive,
}
use ms_go_comment.Transport.Hub.Valid.{IsValid}
use ms_go_comment.Transport.Protocol.{ephemeral_thread, lifecycle_envelope}

-- The frames that its session started with, those posted to it, and those that its writer was given.
pub record Log : Type 0 where
  pub initial : List Json
  pub posted : List Json
  pub given : List Json

abbrev pub empty_log : Log
empty_log = record { initial = []; posted = []; given = [] }

abbrev pub posted_by : Result (Uuid × Json) → Uuid → List Json
posted_by (err e) t = []
posted_by (ok (u, frame)) t = if t == u then frame ∷ [] else []

abbrev pub taken : Option Json → List Json
taken none = []
taken (some frame) = frame ∷ []

abbrev pub post : List Json → Log → Log
post frames l = record l { posted = l.posted ++ frames }

-- What a step adds to the log of a client.
abbrev pub log_op : ℕ → HubOp → Hub → Log → Log
log_op p (op_lifecycle subject payload) h l =
    post (posted_by (lifecycle_envelope subject payload) (h.clients p).session.thread_id) l
log_op p (op_ephemeral payload) h l =
    post
      (posted_by (do thread_id ← ephemeral_thread payload; ok (thread_id, payload))
        (h.clients p).session.thread_id)
      l
log_op p (op_activate q initial) h l =
    if q == p then record l { initial = initial; given = (activate q initial h).0 } else l
log_op p (op_enqueue q payload) h l = if q == p then post (payload ∷ []) l else l
log_op p (op_receive q) h l =
    if q == p then record l { given = l.given ++ taken (receive q h).0 } else l
log_op p _ h l = l

-- The log agrees with the queues of a client, while it listens.
pub record Agrees (p : ℕ) (h : Hub) (l : Log) : Type 0 where
  pub valid : IsValid h
  pub exists : p < h.made
  pub silent :
      listens h p ≡ true
      → (h.clients p).active ≡ false
      → (l.given ≡ []) × (backlog (h.clients p) ≡ l.posted)
  pub ordered :
      listens h p ≡ true
      → (h.clients p).active ≡ true
      → l.given ++ backlog (h.clients p) ≡ l.initial ++ l.posted

-- A step that leaves the client as it is.
pub same-Agrees :
    (p : ℕ) (h g : Hub) (l : Log)
    → Agrees p h l
    → IsValid g
    → h.made ≤ g.made
    → (listens g p ≡ true → listens h p ≡ true)
    → (g.clients p).active ≡ (h.clients p).active
    → backlog (g.clients p) ≡ backlog (h.clients p)
    → Agrees p g l
same-Agrees p h g l a v m kept on queue = record {
  valid = v;
  exists = omega (arith, a.exists);
  silent = λ s off. let r = a.silent (kept s) (sym on ∙ off) in (r.0, queue ∙ r.1);
  ordered = λ s act. ap (λ b. l.given ++ b) queue ∙ a.ordered (kept s) (sym on ∙ act);
}

-- A log to which nothing is posted.
pub post_none : (p : ℕ) (h : Hub) (l : Log) → Agrees p h l → Agrees p h (post [] l)
post_none p h l a =
    subst (λ ps. Agrees p h (record l { posted = ps })) (sym (append-nil l.posted)) a

-- A step on the state of another client.
pub other_client-Agrees :
    (p q : ℕ) (c : Client) (h : Hub) (l : Log)
    → (q == p) ≡ false
    → Agrees p h l
    → IsValid (store_client q c h)
    → Agrees p (store_client q c h) l
other_client-Agrees p q c h l ne a v =
    let off : (p == q) ≡ false = ground arith in
    let same : (store_client q c h).clients p ≡ h.clients p = rw off refl in
    same-Agrees p h (store_client q c h) l a v (omega arith)
      (λ s. sym (ap (λ d. any (is_pair d.session.thread_id p) h.threads) same) ∙ s)
      (ap (λ d. d.active) same) (ap backlog same)

-- A step on the client's own state, which keeps its session.
pub own_client-Agrees :
    (p : ℕ) (c : Client) (h : Hub) (l m : Log)
    → Agrees p h l
    → IsValid (store_client p c h)
    → c.session ≡ (h.clients p).session
    → (listens h p ≡ true → c.active ≡ false → (m.given ≡ []) × (backlog c ≡ m.posted))
    → (listens h p ≡ true → c.active ≡ true → m.given ++ backlog c ≡ m.initial ++ m.posted)
    → Agrees p (store_client p c h) m
own_client-Agrees p c h l m a v session off on =
    let here : (p == p) ≡ true = ground arith in
    let same : (store_client p c h).clients p ≡ c = rw here refl in
    let heard : listens (store_client p c h) p ≡ listens h p =
      ap (λ d. any (is_pair d.session.thread_id p) h.threads) same
      ∙ ap (λ d. any (is_pair d.thread_id p) h.threads) session in
    record {
      valid = v;
      exists = a.exists;
      silent = λ s k.
          let r = off (sym heard ∙ s) (sym (ap (λ d. d.active) same) ∙ k) in
          (r.0, ap backlog same ∙ r.1);
      ordered = λ s k.
          ap (λ d. m.given ++ backlog d) same
          ∙ on (sym heard ∙ s) (sym (ap (λ d. d.active) same) ∙ k);
    }

-- A client that does not listen has no promise to keep.
pub unheard-Agrees :
    (p : ℕ) (h : Hub) (m : Log) → IsValid h → p < h.made → listens h p ≡ false → Agrees p h m
unheard-Agrees p h m v k e = record {
  valid = v;
  exists = k;
  silent = λ s off. absurd (false≢true (sym e ∙ s));
  ordered = λ s on. absurd (false≢true (sym e ∙ s));
}
