-- ===== src/Auth/Service.antt =====
-- app/auth/service.py: the class `AuthService`. `self` holds its fields, the session is the state.
use Prim.Native.String.{◌++◌}
use ai_backend_foundation.Action.{
  Action, Outcome, lift, ok, pure, raise, raise_if, raised, ◌>>=◌, ◌>>◌,
}
use ai_backend_foundation.Auth.Domain.{
  AccessToken, AuthenticatedUser, Credentials, RefreshToken, RefreshTokenRecord, UserAuthRecord,
  authenticated_user, invalid_credentials_error, refresh_reuse_detected_error,
}
use ai_backend_foundation.Auth.Persistence.{
  get_refresh_token_by_id, get_user_by_email, get_user_by_id, insert_refresh_token, insert_user,
  mark_refresh_token_replaced, revoke_refresh_token, revoke_refresh_token_family,
}
use ai_backend_foundation.Auth.Ports.{Claims, PasswordHasher, TokenSigner}
use ai_backend_foundation.Database.{World, ask, commit, log_event}
use ai_backend_foundation.Prelude.{
  Bool, Option, String, [], false, if◌then◌else◌, is_some, ltb, none, not, some, true, ℕ, ◌+◌, ◌/◌,
  ◌∷◌,
}
use ai_backend_foundation.Shared.Errors.{
  ErrorClass, Exception, app, attribute_error, conflict_error, value_error,
}
use ai_backend_foundation.Shared.Types.{
  Clock, DateTime, Uuid, UuidModule, days, microseconds, minutes,
}
use ai_backend_foundation.Shared.Values.{
  Value, flag, get_claim, is_text, is_true, null, number, text, texts,
}

pub record AuthService : Type 0 where
  pub uuid : UuidModule
  pub password_hasher : PasswordHasher
  pub token_signer : TokenSigner
  pub clock : Clock
  pub access_token_expires_minutes : ℕ
  pub refresh_token_expires_days : ℕ

abbrev pub is_authentication_error : Exception → Bool
is_authentication_error (app e) = elim e.class [ ErrorClass.authentication ↦ true | _ ↦ false ]
is_authentication_error _ = false

-- `if not x: raise e`, and `x` from there on
unfoldable pub or_raise : {A : Type 0} → Exception → Option A → Action World A
or_raise e none = raise e
or_raise e (some a) = pure a

-- `if not user or user.disabled: raise InvalidCredentialsError()`
unfoldable pub or_invalid : Option UserAuthRecord → Action World UserAuthRecord
or_invalid none = raise (app (invalid_credentials_error none))
or_invalid (some user) =
    if user.disabled then raise (app (invalid_credentials_error none)) else pure user

abbrev pub invalid : String → Exception
invalid detail = app (invalid_credentials_error (some detail))

module _ (self : AuthService) where
  -- `str(tenant_id) if tenant_id else …`
  abbrev pub tenant_text : Option Uuid → String
  tenant_text none = ""
  tenant_text (some id) = self.uuid.str id

  abbrev pub tenant_claim : Option Uuid → Value
  tenant_claim none = null
  tenant_claim (some id) = text (self.uuid.str id)

  -- `UUID(value)`
  unfoldable pub uuid_of : Option Value → Action World Uuid
  uuid_of (some (text s)) =
      or_raise (value_error "badly formed hexadecimal UUID string") (self.uuid.parse s)
  uuid_of _ = raise attribute_error

  unfoldable pub register : String → String → Action World AuthenticatedUser
  register email password = do
    existing ← get_user_by_email email
    raise_if (is_some existing)
        (app (conflict_error (some (("User with email " ++ email) ++ " already exists")) []))
    user_id ← ask self.uuid.uuid4
    password_hash ← ask (λ n. self.password_hasher.hash n password)
    created_at ← ask self.clock.now
    user_record ← insert_user (record {
      id = user_id;
      email = email;
      password_hash = password_hash;
      created_at = created_at;
      tenant_id = none;
      disabled = false;
    })
    commit
    lift (
        authenticated_user (self.uuid.str user_record.id) user_record.email
          (tenant_text user_record.tenant_id) ("user" ∷ []))

  abbrev pub access_claims : UserAuthRecord → DateTime → Claims
  access_claims user now =
      ("sub", text (self.uuid.str user.id))
      ∷ ("email", text user.email)
      ∷ ("tenant_id", tenant_claim user.tenant_id)
      ∷ ("typ", text "access")
      ∷ ("active", flag (not user.disabled))
      ∷ ("exp", number ((now + minutes self.access_token_expires_minutes) / microseconds))
      ∷ ("iat", number (now / microseconds))
      ∷ ("scopes", texts ("user" ∷ []))
      ∷ []

  abbrev pub refresh_claims : UserAuthRecord → Uuid → DateTime → Claims
  refresh_claims user token_id now =
      ("sub", text (self.uuid.str user.id))
      ∷ ("jti", text (self.uuid.str token_id))
      ∷ ("typ", text "refresh")
      ∷ ("exp", number ((now + days self.refresh_token_expires_days) / microseconds))
      ∷ ("iat", number (now / microseconds))
      ∷ []

  -- `if id is None: id = uuid4()`
  unfoldable pub or_new : Option Uuid → Action World Uuid
  or_new none = ask self.uuid.uuid4
  or_new (some id) = pure id

  unfoldable pub issue_tokens :
      UserAuthRecord → Option Uuid → Option Uuid → Action World (AccessToken × RefreshToken)
  issue_tokens user family_id token_id = do
    now ← ask self.clock.now
    let access_expires = now + minutes self.access_token_expires_minutes
    let refresh_expires = now + days self.refresh_token_expires_days
    family_id ← or_new family_id
    token_id ← or_new token_id
    access_token ← ask (λ n. self.token_signer.sign n (access_claims user now))
    refresh_token ← ask (λ n. self.token_signer.sign n (refresh_claims user token_id now))
    refresh_token_hash ← ask (λ n. self.password_hasher.hash n refresh_token)
    insert_refresh_token (record {
      id = token_id;
      user_id = user.id;
      family_id = family_id;
      hash = refresh_token_hash;
      issued_at = now;
      expires_at = refresh_expires;
      revoked_at = none;
      replaced_by = none;
    })
    pure (
      record { token = access_token; expires_at = access_expires },
      record { token = refresh_token; expires_at = refresh_expires },
    )

  unfoldable pub login : Credentials → Action World (AccessToken × RefreshToken)
  login creds = do
    found ← get_user_by_email creds.username
    user ← or_invalid found
    raise_if (not (self.password_hasher.verify creds.password user.password_hash))
        (app (invalid_credentials_error none))
    tokens ← issue_tokens user none none
    commit
    pure tokens

  -- The `try` of `refresh` around `token_signer.verify`.
  unfoldable pub claims_or_raise : Outcome Claims → Action World Claims
  claims_or_raise (ok claims) = pure claims
  claims_or_raise (raised e) =
      if is_authentication_error e
      then (log_event "refresh_token_invalid" >> raise (invalid "Invalid refresh token"))
      else (log_event "refresh_token_unexpected_error" >> raise e)

  -- The checks of `refresh` up to the hash of the token: the record that the token stands for.
  unfoldable pub presented_record : String → Action World RefreshTokenRecord
  presented_record refresh_token = do
    verified ← ask (λ n. self.token_signer.verify n refresh_token)
    claims ← claims_or_raise verified
    raise_if (not (is_text "refresh" (get_claim "typ" claims))) (invalid "Invalid token type")
    raise_if (not (is_true (get_claim "jti" claims))) (invalid "Invalid refresh token claims")
    token_id ← uuid_of (get_claim "jti" claims)
    found ← get_refresh_token_by_id token_id
    token_record ← or_raise (invalid "Refresh token not found") found
    raise_if (not (self.password_hasher.verify refresh_token token_record.hash))
        (invalid "Invalid refresh token hash")
    pure token_record

  -- The branch of `refresh` for a token that was used before.
  unfoldable pub report_reuse : RefreshTokenRecord → Action World Unit
  report_reuse token_record = do
    now ← ask self.clock.now
    revoke_refresh_token_family token_record.family_id now
    commit
    log_event "refresh_token_reuse_detected"
    raise (app (refresh_reuse_detected_error none))

  unfoldable pub check_reuse : RefreshTokenRecord → Action World Unit
  check_reuse token_record =
      if is_some token_record.revoked_at
      then (if is_some token_record.replaced_by then report_reuse token_record else pure tt)
      else pure tt

  -- The rest of `refresh`: the remaining checks, and the rotation.
  unfoldable pub rotate : RefreshTokenRecord → Action World (AccessToken × RefreshToken)
  rotate token_record = do
    raise_if (is_some token_record.revoked_at) (invalid "Refresh token revoked")
    checked_at ← ask self.clock.now
    raise_if (ltb token_record.expires_at checked_at) (invalid "Refresh token expired")
    found ← get_user_by_id token_record.user_id
    user ← or_invalid found
    new_token_id ← ask self.uuid.uuid4
    now ← ask self.clock.now
    mark_refresh_token_replaced token_record.id new_token_id now
    tokens ← issue_tokens user (some token_record.family_id) (some new_token_id)
    commit
    pure tokens

  unfoldable pub refresh : String → Action World (AccessToken × RefreshToken)
  refresh refresh_token = do
    token_record ← presented_record refresh_token
    check_reuse token_record
    rotate token_record

  unfoldable pub revoke_claimed : Claims → Action World Unit
  revoke_claimed claims =
      if not (is_text "refresh" (get_claim "typ" claims))
      then log_event "logout.invalid_token_type"
      else if not (is_true (get_claim "jti" claims))
      then log_event "logout.missing_jti"
      else do
        token_id ← uuid_of (get_claim "jti" claims)
        now ← ask self.clock.now
        revoke_refresh_token token_id now
        commit

  unfoldable pub logout_verified : Outcome Claims → Action World Unit
  logout_verified (ok claims) = revoke_claimed claims
  logout_verified (raised e) =
      if is_authentication_error e
      then log_event "logout.invalid_token"
      else (log_event "logout.unexpected_error" >> raise e)

  unfoldable pub logout : String → Action World Unit
  logout refresh_token = do
    verified ← ask (λ n. self.token_signer.verify n refresh_token)
    logout_verified verified
