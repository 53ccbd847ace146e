-- ===== src/Usecase/Files/Uploads.antt =====
-- `UploadAttachment` of comment/attachment_service.go.
-- A new attachment: pending, unbound, its uploader's, and valid under the policy of its thread.
use ms_go_comment.Base.{
  ==_iff, List, [], any, arith, conflict, none, not, refl, subst, sym, true, ◌==◌, ◌||◌, ◌∙◌, ◌∷◌,
  ◌≡◌,
}
use ms_go_comment.Domain.Actor.{Actor}
use ms_go_comment.Domain.Attachment.{Attachment, AttachmentStatus}
use ms_go_comment.Domain.Attachment.Bounds.{AttachmentIsValid, validate_attachment_iff}
use ms_go_comment.Domain.Common.{Uuid}
use ms_go_comment.Domain.Grant.{permission_upload}
use ms_go_comment.Store.Attachments.{count_pending_by_uploader, create_attachment}
use ms_go_comment.Store.Database.{Database}
use ms_go_comment.Store.Monad.{Env, call}
use ms_go_comment.Store.Rows.{any-append}
use ms_go_comment.Store.Triples.{
  Triple, Triple-ask, Triple-bind, Triple-bind-lift, Triple-call, Triple-clock, Triple-guard,
  Triple-new_id, Triple-pure, Triple-reads, Triple-weaken, affecting-eq-ok,
}
use ms_go_comment.Usecase.Discussion.{Settings, ThreadContext}
use ms_go_comment.Usecase.Discussion.Guards.{Admitted, IsQuiet, load_thread_context-Triple}
use ms_go_comment.Usecase.Files.{UploadAttachmentInput}
use ms_go_comment.Usecase.Files.Transfer.{upload_attachment, uploaded}

pub record Uploaded (s : Settings) (actor : Actor) (thread_id : Uuid) (a : Attachment)
    (d : Database) : Type 0 where
  pub context : ThreadContext
  pub admitted : Admitted s actor thread_id permission_upload context d
  pub in_thread : a.thread_id ≡ context.thread.id
  pub valid : AttachmentIsValid a context.policy
  pub waiting : (a.status ≡ AttachmentStatus.pending) × (a.comment_id ≡ none)
  pub own : a.uploader_id ≡ actor.user_id
  pub stored : any (λ x. x.id == a.id) d.attachments ≡ true

-- What the loaded context says does not look at attachments.
Admitted-attachments :
    (s : Settings) (actor : Actor) (id : Uuid) (ctx : ThreadContext) (d : Database)
    (rows : List Attachment)
    → Admitted s actor id permission_upload ctx d
    → Admitted s actor id permission_upload ctx (record d { attachments = rows })
Admitted-attachments s actor id ctx d rows h = record {
  actor_known = h.actor_known;
  found = h.found;
  housed = h.housed;
  permitted = h.permitted;
  visible = h.visible;
  writable = h.writable;
  policy = h.policy;
  policy_valid = h.policy_valid;
}

module _ (env : Env) (s : Settings) (quiet : IsQuiet s) where
  store-Uploaded :
      (actor : Actor) (id : Uuid) (ctx : ThreadContext) (a : Attachment)
      → a.thread_id ≡ ctx.thread.id
      → AttachmentIsValid a ctx.policy
      → (a.status ≡ AttachmentStatus.pending) × (a.comment_id ≡ none)
      → a.uploader_id ≡ actor.user_id
      → Triple
          (Admitted s actor id permission_upload ctx)
          (call env (create_attachment a))
          (λ u d. Uploaded s actor id a d)
  unfolding create_attachment
  store-Uploaded actor id ctx a at valid waiting own = Triple-call env _ _ λ now d u h e.
      let (new, left) =
        affecting-eq-ok
          (not (any (λ x. x.id == a.id || x.filestorage_id == a.filestorage_id) d.attachments))
          conflict d _ u e in
      subst (Uploaded s actor id a) (sym left) (record {
        context = ctx;
        admitted = Admitted-attachments s actor id ctx d _ h;
        in_thread = at;
        valid = valid;
        waiting = waiting;
        own = own;
        stored =
            any-append (λ x. x.id == a.id) d.attachments (a ∷ [])
            ∙ ground (arith, (==_iff a.id a.id).1 refl);
      })

  -- If the authorizer changes nothing, a run of UploadAttachment that returns has stored a row
  -- under the identifier of the attachment that it returns; this is pending, bound to no comment,
  -- of the actor, in the thread asked for, to which loadThreadContext admits the actor for an
  -- upload, and valid under the policy of the thread.
  pub upload_attachment-Uploaded :
      (actor : Actor) (input : UploadAttachmentInput)
      → Triple
          (λ d. Unit {0})
          (upload_attachment env s actor input)
          (λ a d. Uploaded s actor input.thread_id a d)
  unfolding upload_attachment count_pending_by_uploader
  upload_attachment-Uploaded actor input = Triple-bind-lift _ _ _ λ u known.
      Triple-guard _ _ _ _ λ configured.
        Triple-bind _ _ (λ ctx d. Admitted s actor input.thread_id permission_upload ctx d)
          (Triple-weaken _ _ (λ ctx d p. p.1)
            (load_thread_context-Triple env s quiet (λ d. Unit {0}) actor _ _))
          λ ctx. Triple-bind-lift _ _ _ λ metadata inspected.
            Triple-bind _ _ _ (Triple-clock env) λ now.
              Triple-bind _ _ (λ n d. Admitted s actor input.thread_id permission_upload ctx d)
                (Triple-reads env _ _ (λ d n p e. p))
                λ n. Triple-guard _ _ _ _ λ few. Triple-bind _ _ _ (Triple-new_id env) λ id.
                  Triple-bind _ _ _ (Triple-ask env _) λ answer.
                    Triple-bind-lift _ _ _ λ file stored. Triple-bind-lift _ _ _ λ u' valid.
                      Triple-bind _ _
                        (λ u'' d.
                          Uploaded s actor input.thread_id
                            (uploaded env s actor id ctx.thread.id file metadata now) d)
                        (store-Uploaded actor input.thread_id ctx
                          (uploaded env s actor id ctx.thread.id file metadata now) refl
                          ((validate_attachment_iff
                              (uploaded env s actor id ctx.thread.id file metadata now)
                              ctx.policy).0
                            valid)
                          (refl, refl) refl)
                        λ u''. Triple-pure _ _ (λ d p. p)
