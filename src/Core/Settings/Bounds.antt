-- ===== src/Core/Settings/Bounds.antt =====
-- What the settings that app/core/config/settings.py loads satisfy.
use mathlib.Core.Path.{subst}
use ai_backend_foundation.Action.{ok, pure, raised}
use ai_backend_foundation.Action.Returns.{Returned-bind}
use ai_backend_foundation.Action.Rules.{ok-injective}
use ai_backend_foundation.Core.Config.{
  Environment, Pydantic, RawValue, above_zero, at_least, checked, field, read_value,
}
use ai_backend_foundation.Core.Settings.App.{AppSettings, load_settings}
use ai_backend_foundation.Core.Settings.Limits.{
  Argon2Settings, ArqSettings, GovernanceSettings, HttpSettings, load_argon2, load_arq,
  load_governance, load_http,
}
use ai_backend_foundation.Prelude.{
  Bool, List, Option, String, ap, false, if◌then◌else◌, none, refl, some, sym, true, ◌∙◌, ◌≡◌,
}
use ai_backend_foundation.Shared.Errors.{Exception}

-- Where there is a default, it passes the check that it is not put to.
abbrev DefaultPasses : {A : Type 0} → (A → Bool) → Option A → Type 0
DefaultPasses bound none = Unit
DefaultPasses bound (some a) = bound a ≡ true

module _ {A : Type 0} (convert : RawValue → Option A) (bound : A → Bool) where
  passing :
      (passes : Bool) (b a : A) (e : Exception)
      → bound b ≡ passes
      → (if passes then ok b else raised e) ≡ ok a
      → bound a ≡ true
  passing true b a e same h = ap bound (sym (ok-injective h)) ∙ same
  passing false b a e same h = cc

  checked_lem : (o : Option A) (a : A) → checked convert bound o ≡ ok a → bound a ≡ true
  checked_lem none a h = cc
  checked_lem (some b) a h = passing (bound b) b a _ refl h

  read_value_lem :
      (default : Option A) (raw : Option RawValue) (a : A)
      → DefaultPasses bound default
      → read_value convert bound default raw ≡ ok a
      → bound a ≡ true
  read_value_lem default (some raw) a passes h = checked_lem (convert raw) a h
  read_value_lem none none a passes h = cc
  read_value_lem (some b) none a passes h = ap bound (sym (ok-injective h)) ∙ passes

  field_lem :
      (aliases : List String) (default : Option A) (env : Environment) (a : A)
      → DefaultPasses bound default
      → (field convert bound aliases default env).0 ≡ ok a
      → bound a ≡ true
  unfolding field
  field_lem aliases default env a passes h = read_value_lem default (env aliases) a passes h

pub record IsBoundedHttp (settings : HttpSettings) : Type 0 where
  pub connect : above_zero settings.connect_timeout_s ≡ true
  pub read : above_zero settings.read_timeout_s ≡ true
  pub total : above_zero settings.total_timeout_s ≡ true
  pub attempts : at_least 1 settings.retry_max_attempts ≡ true
  pub backoff : above_zero settings.retry_backoff_factor ≡ true

pub record IsBoundedArq (settings : ArqSettings) : Type 0 where
  pub max_jobs : at_least 1 settings.max_jobs ≡ true
  pub job_timeout : at_least 1 settings.job_timeout_s ≡ true
  pub keep_result : at_least 0 settings.keep_result_s ≡ true

pub record IsBoundedArgon2 (settings : Argon2Settings) : Type 0 where
  pub time_cost : at_least 1 settings.time_cost ≡ true
  pub memory_cost : at_least 1 settings.memory_cost ≡ true
  pub parallelism : at_least 1 settings.parallelism ≡ true
  pub hash_len : at_least 1 settings.hash_len ≡ true
  pub salt_len : at_least 1 settings.salt_len ≡ true

pub record IsBounded (settings : AppSettings) : Type 0 where
  pub http : IsBoundedHttp settings.http
  pub arq : IsBoundedArq settings.arq
  pub argon2 : IsBoundedArgon2 settings.argon2
  pub budget : at_least 0 settings.governance.monthly_budget_usd ≡ true

module _ (pydantic : Pydantic) (env : Environment) where
  load_http-IsBoundedHttp :
      (settings : HttpSettings) → (load_http pydantic env).0 ≡ ok settings → IsBoundedHttp settings
  unfolding load_http pure
  load_http-IsBoundedHttp settings h =
      let r1 = Returned-bind _ _ env h in
      let r2 = Returned-bind _ _ _ r1.rest in
      let r3 = Returned-bind _ _ _ r2.rest in
      let r4 = Returned-bind _ _ _ r3.rest in
      let r5 = Returned-bind _ _ _ r4.rest in
      subst IsBoundedHttp (ok-injective r5.rest) (record {
        connect = field_lem _ _ _ _ _ _ refl r1.step;
        read = field_lem _ _ _ _ _ _ refl r2.step;
        total = field_lem _ _ _ _ _ _ refl r3.step;
        attempts = field_lem _ _ _ _ _ _ refl r4.step;
        backoff = field_lem _ _ _ _ _ _ refl r5.step;
      })

  load_arq-IsBoundedArq :
      (settings : ArqSettings) → (load_arq pydantic env).0 ≡ ok settings → IsBoundedArq settings
  unfolding load_arq pure
  load_arq-IsBoundedArq settings h =
      let r1 = Returned-bind _ _ env h in
      let r2 = Returned-bind _ _ _ r1.rest in
      let r3 = Returned-bind _ _ _ r2.rest in
      let r4 = Returned-bind _ _ _ r3.rest in
      subst IsBoundedArq (ok-injective r4.rest) (record {
        max_jobs = field_lem _ _ _ _ _ _ refl r2.step;
        job_timeout = field_lem _ _ _ _ _ _ refl r3.step;
        keep_result = field_lem _ _ _ _ _ _ refl r4.step;
      })

  load_argon2-IsBoundedArgon2 :
      (settings : Argon2Settings)
      → (load_argon2 pydantic env).0 ≡ ok settings
      → IsBoundedArgon2 settings
  unfolding load_argon2 pure
  load_argon2-IsBoundedArgon2 settings h =
      let r1 = Returned-bind _ _ env h in
      let r2 = Returned-bind _ _ _ r1.rest in
      let r3 = Returned-bind _ _ _ r2.rest in
      let r4 = Returned-bind _ _ _ r3.rest in
      let r5 = Returned-bind _ _ _ r4.rest in
      subst IsBoundedArgon2 (ok-injective r5.rest) (record {
        time_cost = field_lem _ _ _ _ _ _ refl r1.step;
        memory_cost = field_lem _ _ _ _ _ _ refl r2.step;
        parallelism = field_lem _ _ _ _ _ _ refl r3.step;
        hash_len = field_lem _ _ _ _ _ _ refl r4.step;
        salt_len = field_lem _ _ _ _ _ _ refl r5.step;
      })

  load_governance-budget :
      (settings : GovernanceSettings)
      → (load_governance pydantic env).0 ≡ ok settings
      → at_least 0 settings.monthly_budget_usd ≡ true
  unfolding load_governance pure
  load_governance-budget settings h =
      let r1 = Returned-bind _ _ env h in
      let r2 = Returned-bind _ _ _ r1.rest in
      let r3 = Returned-bind _ _ _ r2.rest in
      subst (λ (g : GovernanceSettings). at_least 0 g.monthly_budget_usd ≡ true)
        (ok-injective r3.rest) (field_lem _ _ _ _ _ _ tt r1.step)

-- In whatever environment, settings that load have positive timeouts and at least one attempt for the
-- HTTP client, at least one job and one second for the queue, at least one for every parameter of the
-- hasher, and a budget that is not negative.
pub load_settings-IsBounded :
    (pydantic : Pydantic) (env : Environment) (settings : AppSettings)
    → (load_settings pydantic env).0 ≡ ok settings
    → IsBounded settings
unfolding load_settings pure
load_settings-IsBounded pydantic env settings h =
    let r1 = Returned-bind _ _ env h in
    let r2 = Returned-bind _ _ _ r1.rest in
    let r3 = Returned-bind _ _ _ r2.rest in
    let r4 = Returned-bind _ _ _ r3.rest in
    let r5 = Returned-bind _ _ _ r4.rest in
    let r6 = Returned-bind _ _ _ r5.rest in
    let r7 = Returned-bind _ _ _ r6.rest in
    let r8 = Returned-bind _ _ _ r7.rest in
    let r9 = Returned-bind _ _ _ r8.rest in
    let r10 = Returned-bind _ _ _ r9.rest in
    let r11 = Returned-bind _ _ _ r10.rest in
    let r12 = Returned-bind _ _ _ r11.rest in
    let r13 = Returned-bind _ _ _ r12.rest in
    subst IsBounded (ok-injective r13.rest) (record {
      http = load_http-IsBoundedHttp pydantic _ _ r11.step;
      arq = load_arq-IsBoundedArq pydantic _ _ r12.step;
      argon2 = load_argon2-IsBoundedArgon2 pydantic _ _ r10.step;
      budget = load_governance-budget pydantic _ _ r9.step;
    })
