-- ===== src/Store/Monad.antt =====
-- How a service runs: on the database, with a clock, generators and outside services that answer
-- each call as they please, and with any statement failing at will.
use ms_go_comment.Base.{
  Bool, Err, List, Result, Text, err, false, if◌then◌else◌, not_found, ok, true, unavailable, ℕ,
  ◌+◌,
}
use ms_go_comment.Domain.Common.{Time, Uuid}
use ms_go_comment.Domain.Image.{ImageDecoder}
use ms_go_comment.Domain.Space.{UrlParser}
use ms_go_comment.Store.Database.{Database, Query}

-- `calls` numbers the calls made so far; `in_tx` says whether the context carries a transaction;
-- `flag` is a variable outside a transaction's closure that the closure assigns.
pub record World : Type 0 where
  pub db : Database
  pub calls : ℕ
  pub in_tx : Bool
  pub flag : Bool

-- What a file service answers: a value, or an error with the bytes of its text.
pub data Answer (A : Type 0) : Type 0 where
  done : A → Answer A
  failed : Text → Answer A

-- What the service does not decide itself, by the number of the call.
pub record Env : Type 0 where
  pub fault : ℕ → Bool
  pub now_at : ℕ → Time
  pub id_at : ℕ → Uuid
  pub urls : UrlParser
  pub decode : ImageDecoder
  pub files_configured : Bool
  pub upload_at : ℕ → Answer Uuid
  pub signed_url_at : ℕ → Answer Text
  pub activate_at : ℕ → Answer (Unit {0})
  pub delete_at : ℕ → Answer (Unit {0})
  pub publish_at : ℕ → Answer (Unit {0})
  pub random_at : ℕ → Answer (List ℕ)

abbrev pub M : Type 0 → Type 0
M A = World → Result A × World

module _ {A : Type 0} where
  unfoldable pub pure : A → M A
  pure a w = (ok a, w)

  -- A result computed without the world.
  unfoldable pub lift : Result A → M A
  lift r w = (r, w)

  -- The result of an action as a value, for code that looks at the error.
  unfoldable pub attempt : M A → M (Result A)
  attempt m w = let (r, w') = m w in (ok r, w')

-- `flag = b`, and its value.
unfoldable pub set_flag : Bool → M (Unit {0})
set_flag b w = (ok tt, record w { flag = b })

unfoldable pub get_flag : M Bool
get_flag w = (ok w.flag, w)

-- `if errors.Is(err, ErrNotFound) { return target }; return err`
abbrev pub map_not_found {ℓ} : {A : Type ℓ} → Err → Result A → Result A
map_not_found target (ok a) = ok a
map_not_found target (err not_found) = err target
map_not_found target (err e) = err e

-- `return mapNotFound(err, target)`
unfoldable pub or_missing : {A : Type 0} → Err → M A → M A
or_missing target m w = let (r, w') = m w in (map_not_found target r, w')

module _ {A B : Type 0} where
  abbrev pub continue : Result A → (A → M B) → M B
  continue (ok a) f w = f a w
  continue (err e) f w = (err e, w)

  infixl 5 ◌>>=◌ ◌>>◌
  -- Opening this opens the actions above and below.
  unfoldable pub ◌>>=◌ : M A → (A → M B) → M B
  unfolding pure lift attempt or_missing
  ◌>>=◌ m f w = let (r, w') = m w in continue r f w'

  abbrev pub ◌>>◌ : M A → M B → M B
  m >> k = m >>= λ _. k

abbrev pub tick : World → World
tick w = record w { calls = w.calls + 1 }

abbrev pub put_back : Database → World → World
put_back d w = record w { db = d; in_tx = false }

module _ (env : Env) where
  -- A statement: it fails with an error of the driver, or does its work.
  unfoldable pub call : {A : Type 0} → Query A → M A
  call q w =
      if env.fault w.calls
      then (err unavailable, tick w)
      else let (r, d) = q (env.now_at w.calls) w.db in (r, record w { db = d; calls = w.calls + 1 })

  unfoldable pub clock : M Time
  clock w = (ok (env.now_at w.calls), tick w)

  unfoldable pub new_id : M Uuid
  new_id w = (ok (env.id_at w.calls), tick w)

  -- A call of an outside service.
  unfoldable pub ask : {A : Type 0} → (ℕ → A) → M A
  ask f w = (ok (f w.calls), tick w)

  -- `Commit`, or the deferred `Rollback`.
  abbrev pub finish : {A : Type 0} → Database → Result A → M A
  finish before (err e) w = (err e, put_back before w)
  finish before (ok a) w =
      if env.fault w.calls
      then (err unavailable, put_back before (tick w))
      else (ok a, put_back w.db (tick w))

  -- `TransactionManager.WithinTransaction`
  unfoldable pub within_transaction : {A : Type 0} → M A → M A
  within_transaction fn w =
      if w.in_tx
      then fn w
      else if env.fault w.calls
      then (err unavailable, tick w)
      else let (r, w') = fn (record (tick w) { in_tx = true }) in finish w.db r w'
