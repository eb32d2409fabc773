-- ===== src/Database.antt =====
-- The tables and the transactions that the sessions of SQLAlchemy work on: the rows of
-- app/auth/persistence.py and app/users/persistence.py with the constraints which these models and
-- the migrations under alembic/versions declare. One request has the database to itself.
pub mod Steps
use Prim.Native.String.{count}
use ai_backend_foundation.Prelude.{
  ℕ, suc, String, Bool, true, Option, none, some, List, [], ◌∷◌, ◌++◌, any, all, ltb, ◌==◌,
  if◌then◌else◌,
}
use ai_backend_foundation.Shared.Errors.{Exception, integrity_error}
use ai_backend_foundation.Action.{Action, ok, raised}
use ai_backend_foundation.Shared.Types.{Uuid, DateTime}

pub record UserRow : Type 0 where
  pub id : Uuid
  pub email : String
  pub password_hash : String
  pub created_at : DateTime
  pub tenant_id : Option Uuid
  pub disabled : Bool

pub record RefreshTokenRow : Type 0 where
  pub id : Uuid
  pub user_id : Uuid
  pub family_id : Uuid
  pub hash : String
  pub issued_at : DateTime
  pub expires_at : DateTime
  pub revoked_at : Option DateTime
  pub replaced_by : Option Uuid

pub record UserProfileRow : Type 0 where
  pub id : Uuid
  pub email : String
  pub created_at : DateTime
  pub updated_at : DateTime

pub record Database : Type 0 where
  pub users : List UserRow
  pub refresh_tokens : List RefreshTokenRow
  pub user_profiles : List UserProfileRow

-- `committed` is what every session sees that starts now, `db` what the open session sees,
-- `asked` the number of the next question to the surroundings, and `log` the events logged.
pub record World : Type 0 where
  pub committed : Database
  pub db : Database
  pub asked : ℕ
  pub log : List String

-- The answer of a component to the next question.
unfoldable pub ask : {A : Type 0} → (ℕ → A) → Action World A
ask f w = (ok (f w.asked), record w { asked = suc w.asked })

unfoldable pub log_event : String → Action World Unit
log_event event w = (ok tt, record w { log = w.log ++ event ∷ [] })

-- A statement that the database refuses: the transaction is rolled back.
unfoldable pub refuse : {A : Type 0} → Exception → Action World A
refuse e w = (raised e, record w { db = w.committed })

unfoldable pub set_users : List UserRow → Action World Unit
set_users rows w = (ok tt, record w { db = record w.db { users = rows } })

unfoldable pub set_refresh_tokens : List RefreshTokenRow → Action World Unit
set_refresh_tokens rows w = (ok tt, record w { db = record w.db { refresh_tokens = rows } })

unfoldable pub set_user_profiles : List UserProfileRow → Action World Unit
set_user_profiles rows w = (ok tt, record w { db = record w.db { user_profiles = rows } })

-- `String(255)`: PostgreSQL refuses a longer text. One whose characters beyond 255 are all spaces, which
-- PostgreSQL cuts off instead, is outside the model.
abbrev pub too_long : String → Bool
too_long s = ltb 255 (count s)

abbrev pub has_token : List RefreshTokenRow → Uuid → Bool
has_token rows id = any (λ r. r.id == id) rows

-- The deferred foreign key of `replaced_by`.
abbrev pub refers : List RefreshTokenRow → Option Uuid → Bool
refers rows none = true
refers rows (some id) = has_token rows id

abbrev pub replacement_exists : List RefreshTokenRow → RefreshTokenRow → Bool
replacement_exists rows r = refers rows r.replaced_by

-- `session.commit()`: the deferred constraint is checked now.
unfoldable pub commit : Action World Unit
commit w =
    if all (replacement_exists w.db.refresh_tokens) w.db.refresh_tokens
    then (ok tt, record w { committed = w.db })
    else (raised integrity_error, record w { db = w.committed })

-- `async with session_factory() as session`: the session starts from what is committed, and what
-- it leaves uncommitted is rolled back when it closes.
unfoldable pub with_session : {A : Type 0} → Action World A → Action World A
with_session m w =
    let (r, w') = m (record w { db = w.committed }) in (r, record w' { db = w'.committed })
