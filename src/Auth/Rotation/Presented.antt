-- ===== src/Auth/Rotation/Presented.antt =====
-- The checks that `refresh` makes of the presented text, on known tables.
use ai_backend_foundation.Action.{Action, Outcome, ok, pure, raise, raised, ◌>>=◌}
use ai_backend_foundation.Action.Rules.{Ensures, ok-injective}
use ai_backend_foundation.Auth.Domain.{RefreshTokenRecord}
use ai_backend_foundation.Auth.Invariant.{IsConsistent}
use ai_backend_foundation.Auth.Invariant.Rows.{one_token_by_id}
use ai_backend_foundation.Auth.Persistence.{option_map, token_to_domain}
use ai_backend_foundation.Auth.Persistence.Steps.{get_refresh_token_by_id-Gives}
use ai_backend_foundation.Auth.Persistence.Writes.{rows_with}
use ai_backend_foundation.Auth.Ports.{Claims}
use ai_backend_foundation.Auth.Rotation.{IsPresented}
use ai_backend_foundation.Auth.Service.{
  AuthService, claims_or_raise, is_authentication_error, or_raise, presented_record, uuid_of,
}
use ai_backend_foundation.Database.{Database, World, log_event}
use ai_backend_foundation.Database.Steps.{At, ask_step, raise_if_step, returns, run_step}
use ai_backend_foundation.Prelude.{
  Bool-cases, Option, String, arith, first, inl, inr, none, refl, some, some_eq, suc, sym, ℕ, ◌∙◌,
  ◌≡◌, ◌≢◌,
}
use ai_backend_foundation.Shared.Errors.{Exception}
use ai_backend_foundation.Shared.Types.{Uuid}
use ai_backend_foundation.Shared.Values.{Value, flag, null, number, text, texts}

module _ {B : Type 0} {c d : Database} {n : ℕ} (Q : B → World → Type 0)
    (E : Exception → World → Type 0) where
  pub claims_step :
      (self : AuthService) (o : Outcome Claims) (f : Claims → Action World B)
      → (((claims : Claims) → o ≢ ok claims)
          → (e : Exception) (w : World) → w.committed ≡ c
          → E e w)
      → ((claims : Claims) → o ≡ ok claims → Ensures (At c d n) (f claims) Q E)
      → Ensures (At c d n) (claims_or_raise self o >>= f) Q E
  unfolding claims_or_raise log_event raise pure ◌>>=◌
  claims_step self (ok claims) f stop go = record { at = λ w h. (go claims refl).at w h }
  claims_step self (raised e) f stop go = elim (Bool-cases (is_authentication_error e)) [
    | inl auth ↦ rw auth (record { at = λ w h. stop (λ claims. cc) _ _ h.0 })
    | inr fault ↦ rw fault (record { at = λ w h. stop (λ claims. cc) _ _ h.0 })
  ]

  pub or_raise_step :
      {A : Type 0} (x : Exception) (o : Option A) (f : A → Action World B)
      → (((a : A) → o ≢ some a) → (w : World) → w.committed ≡ c → E x w)
      → ((a : A) → o ≡ some a → Ensures (At c d n) (f a) Q E)
      → Ensures (At c d n) (or_raise x o >>= f) Q E
  unfolding or_raise raise pure ◌>>=◌
  or_raise_step x none f stop go = record { at = λ w h. stop (λ a. cc) w h.0 }
  or_raise_step x (some a) f stop go = record { at = λ w h. (go a refl).at w h }

  pub uuid_step :
      (self : AuthService) (v : Option Value) (f : Uuid → Action World B)
      → (((s : String) (id : Uuid) → v ≡ some (text s) → self.uuid.parse s ≢ some id)
          → (e : Exception) (w : World) → w.committed ≡ c
          → E e w)
      → ((s : String) (id : Uuid)
          → v ≡ some (text s)
          → self.uuid.parse s ≡ some id
          → Ensures (At c d n) (f id) Q E)
      → Ensures (At c d n) (uuid_of self v >>= f) Q E
  unfolding uuid_of raise ◌>>=◌
  uuid_step self (some (text s)) f stop go =
      or_raise_step _ (self.uuid.parse s) f
        (λ no w h. stop (λ t id e p. no id (rw (same_text t e) p)) _ w h) (λ id e. go s id refl e)
    where
      same_text : (t : String) → some (text s) ≡ some (text t) → s ≡ t
      same_text t e = cc
  uuid_step self (some null) f stop go = record { at = λ w h. stop (λ t id e. cc) _ w h.0 }
  uuid_step self (some (flag b)) f stop go = record { at = λ w h. stop (λ t id e. cc) _ w h.0 }
  uuid_step self (some (number k)) f stop go = record { at = λ w h. stop (λ t id e. cc) _ w h.0 }
  uuid_step self (some (texts ts)) f stop go = record { at = λ w h. stop (λ t id e. cc) _ w h.0 }
  uuid_step self none f stop go = record { at = λ w h. stop (λ t id e. cc) _ w h.0 }

module _ (self : AuthService) (c d : Database) (n : ℕ) (consistent : IsConsistent d)
    (token : String) where
  -- What passes the checks was presented.
  pub presented_record-IsPresented :
      Ensures
        (At c d n)
        (presented_record self token)
        (λ r w. IsPresented self d n token r × At c d (suc n) w)
        (λ e w. Unit)
  unfolding presented_record
  presented_record-IsPresented = ask_step _ _ _ _ (
      claims_step _ _ _ _ _ (λ no e w h. tt)
        λ claims verified.
          raise_if_step _ _ _ _ _ (λ b w h. tt)
            λ typ.
              raise_if_step _ _ _ _ _ (λ b w h. tt)
                λ nonempty.
                  uuid_step _ _ _ _ _ (λ no e w h. tt)
                    λ jti id named parsed.
                      run_step _ _ _ _
                        (get_refresh_token_by_id-Gives c d _ id (one_token_by_id d consistent id))
                        (or_raise_step _ _ _ _ _ (λ no w h. tt)
                          λ r found.
                            raise_if_step _ _ _ _ _ (λ b w h. tt)
                              λ hashed. returns _ _ _ λ w h. (
                                record {
                                  claims = claims;
                                  verified = verified;
                                  typ = ground arith;
                                  jti = jti;
                                  named = named;
                                  nonempty = ground arith;
                                  id = id;
                                  parsed = parsed;
                                  found = found;
                                  hashed = ground arith;
                                },
                                h,
                              )))

  -- What was presented passes the checks.
  pub presented_record_passes :
      (r : RefreshTokenRecord)
      → IsPresented self d n token r
      → Ensures
          (At c d n)
          (presented_record self token)
          (λ a w. (a ≡ r) × At c d (suc n) w)
          (λ e w. ⊥)
  unfolding presented_record
  presented_record_passes r p = ask_step _ _ _ _ (
      claims_step _ _ _ _ _ (λ no e w h. no p.claims p.verified)
        λ claims verified.
          let same : claims ≡ p.claims = ok-injective (sym verified ∙ p.verified) in
          raise_if_step _ _ _ _ _ (λ b w h. ground arith)
            λ typ.
              raise_if_step _ _ _ _ _ (λ b w h. ground arith)
                λ nonempty.
                  uuid_step _ _ _ _ _ (λ no e w h. no p.jti p.id (rw same p.named) p.parsed)
                    λ jti id named parsed.
                      let same_id : id ≡ p.id = ground arith in
                      run_step _ _ _ _
                        (get_refresh_token_by_id-Gives c d _ id (one_token_by_id d consistent id))
                        (or_raise_step _ _ _ _ _ (λ no w h. no r (rw same_id p.found))
                          λ a found.
                            let found_here : option_map token_to_domain (first (rows_with id d))
                                ≡ some r =
                              rw same_id p.found in
                            let same_record : a ≡ r = some_eq (sym found ∙ found_here) in
                            raise_if_step _ _ _ _ _ (λ b w h. ground arith)
                              λ hashed. returns _ _ _ λ w h. (same_record, h)))
