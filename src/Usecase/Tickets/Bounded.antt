-- ===== src/Usecase/Tickets/Bounded.antt =====
-- The permissions that `Mint` of realtime/ticket_service.go puts into a ticket.
use ms_go_comment.Base.{
  Bool-cases, arith, false≢true, inl, inr, pos, refl, true, ◌&&◌, ◌<ℤ◌, ◌↔◌, ◌≡◌,
}
use ms_go_comment.Domain.Grant.{
  Permission, includes, permission_upload, permission_valid, permission_write,
}
use ms_go_comment.Domain.Space.{Policy}
use ms_go_comment.Domain.Thread.{ThreadStatus}
use ms_go_comment.Usecase.Tickets.{images_possible, minted_permissions}

-- The permissions of a new ticket are valid; they include writing exactly if the actor may write
-- and the thread is open, and uploading exactly if moreover the actor may upload and the policy
-- allows images and at least one attachment.
pub minted_permissions-bounded :
    (status : ThreadStatus) (policy : Policy) (granted : Permission)
    → (permission_valid (minted_permissions status policy granted) ≡ true)
      × ((includes (minted_permissions status policy granted) permission_write ≡ true)
          ↔ ((includes granted permission_write ≡ true) × (status ≡ ThreadStatus.opened)))
      × ((includes (minted_permissions status policy granted) permission_upload ≡ true) ↔ (
          (includes granted permission_write ≡ true)
          × (status ≡ ThreadStatus.opened)
          × (includes granted permission_upload ≡ true)
          × (policy.allow_images ≡ true)
          × (pos 0 <ℤ policy.max_attachments)))
unfolding minted_permissions permission_valid
minted_permissions-bounded ThreadStatus.opened policy granted =
    elim (Bool-cases (includes granted permission_write)) [
      | inl e ↦ elim (Bool-cases (includes granted permission_upload && images_possible policy)) [
        | inl k ↦ rw (e, k) (refl, (λ h. (refl, refl), λ h. refl), (λ h. ground arith, λ h. refl))
        | inr k ↦
            rw (e, k)
              (
                refl,
                (λ h. (refl, refl), λ h. refl),
                (λ h. absurd (false≢true h), λ h. ground arith),
              )
      ]
      | inr e ↦ rw e (
        refl,
        (λ h. absurd (false≢true h), λ h. absurd (false≢true h.0)),
        (λ h. absurd (false≢true h), λ h. absurd (false≢true h.0)),
      )
    ]
minted_permissions-bounded status policy granted =
    (refl, (λ h. absurd (false≢true h), λ h. cc), (λ h. absurd (false≢true h), λ h. cc))
