-- ===== src/Core/Settings/Limits.antt =====
-- The classes of app/core/config/settings.py with bounds: the HTTP client, the queue, the budget and
-- the hasher.
use ai_backend_foundation.Action.{Action, pure, ◌>>=◌}
use ai_backend_foundation.Core.Config.{
  Environment, Pydantic, above_zero, at_least, field, str_of, tuple_field, unbounded,
}
use ai_backend_foundation.Prelude.{List, String, [], none, pos, some, ℤ, ◌∷◌}

pub record HttpSettings : Type 0 where
  pub connect_timeout_s : ℤ
  pub read_timeout_s : ℤ
  pub total_timeout_s : ℤ
  pub retry_max_attempts : ℤ
  pub retry_backoff_factor : ℤ

pub record ArqSettings : Type 0 where
  pub queue_name : String
  pub max_jobs : ℤ
  pub job_timeout_s : ℤ
  pub keep_result_s : ℤ

pub record GovernanceSettings : Type 0 where
  pub monthly_budget_usd : ℤ
  pub warning_threshold : ℤ
  pub model_allowlist : List String

pub record Argon2Settings : Type 0 where
  pub time_cost : ℤ
  pub memory_cost : ℤ
  pub parallelism : ℤ
  pub hash_len : ℤ
  pub salt_len : ℤ

module _ (pydantic : Pydantic) where
  unfoldable pub load_http : Action Environment HttpSettings
  load_http = do
    connect_timeout_s ←
        field pydantic.float_of above_zero
          ("HTTP_CONNECT_TIMEOUT_S" ∷ "http__connect_timeout_s" ∷ []) (some (pos 5000000))
    read_timeout_s ←
        field pydantic.float_of above_zero ("HTTP_READ_TIMEOUT_S" ∷ "http__read_timeout_s" ∷ [])
          (some (pos 30000000))
    total_timeout_s ←
        field pydantic.float_of above_zero ("HTTP_TOTAL_TIMEOUT_S" ∷ "http__total_timeout_s" ∷ [])
          (some (pos 60000000))
    retry_max_attempts ←
        field pydantic.int_of (at_least 1)
          ("HTTP_RETRY_MAX_ATTEMPTS" ∷ "http__retry_max_attempts" ∷ []) (some (pos 3))
    retry_backoff_factor ←
        field pydantic.float_of above_zero
          ("HTTP_RETRY_BACKOFF_FACTOR" ∷ "http__retry_backoff_factor" ∷ []) (some (pos 500000))
    pure (record {
      connect_timeout_s = connect_timeout_s;
      read_timeout_s = read_timeout_s;
      total_timeout_s = total_timeout_s;
      retry_max_attempts = retry_max_attempts;
      retry_backoff_factor = retry_backoff_factor;
    })

  unfoldable pub load_arq : Action Environment ArqSettings
  load_arq = do
    queue_name ← field str_of unbounded ("ARQ_QUEUE_NAME" ∷ "arq__queue_name" ∷ []) (some "default")
    max_jobs ←
        field pydantic.int_of (at_least 1) ("ARQ_MAX_JOBS" ∷ "arq__max_jobs" ∷ []) (some (pos 10))
    job_timeout_s ←
        field pydantic.int_of (at_least 1) ("ARQ_JOB_TIMEOUT_S" ∷ "arq__job_timeout_s" ∷ [])
          (some (pos 300))
    keep_result_s ←
        field pydantic.int_of (at_least 0) ("ARQ_KEEP_RESULT_S" ∷ "arq__keep_result_s" ∷ [])
          (some (pos 3600))
    pure (record {
      queue_name = queue_name;
      max_jobs = max_jobs;
      job_timeout_s = job_timeout_s;
      keep_result_s = keep_result_s;
    })

  unfoldable pub load_governance : Action Environment GovernanceSettings
  load_governance = do
    monthly_budget_usd ←
        field pydantic.decimal_of (at_least 0)
          ("LLM_MONTHLY_BUDGET_USD" ∷ "governance__monthly_budget_usd" ∷ []) (none)
    warning_threshold ←
        field pydantic.float_of unbounded ("governance__warning_threshold" ∷ []) (some (pos 800000))
    model_allowlist ←
        tuple_field pydantic ("LLM_MODEL_ALLOWLIST" ∷ "governance__model_allowlist" ∷ []) (none)
    pure (record {
      monthly_budget_usd = monthly_budget_usd;
      warning_threshold = warning_threshold;
      model_allowlist = model_allowlist;
    })

  unfoldable pub load_argon2 : Action Environment Argon2Settings
  load_argon2 = do
    time_cost ←
        field pydantic.int_of (at_least 1) ("ARGON2_TIME_COST" ∷ "argon2__time_cost" ∷ [])
          (some (pos 2))
    memory_cost ←
        field pydantic.int_of (at_least 1) ("ARGON2_MEMORY_COST" ∷ "argon2__memory_cost" ∷ [])
          (some (pos 19456))
    parallelism ←
        field pydantic.int_of (at_least 1) ("ARGON2_PARALLELISM" ∷ "argon2__parallelism" ∷ [])
          (some (pos 1))
    hash_len ←
        field pydantic.int_of (at_least 1) ("ARGON2_HASH_LEN" ∷ "argon2__hash_len" ∷ [])
          (some (pos 32))
    salt_len ←
        field pydantic.int_of (at_least 1) ("ARGON2_SALT_LEN" ∷ "argon2__salt_len" ∷ [])
          (some (pos 16))
    pure (record {
      time_cost = time_cost;
      memory_cost = memory_cost;
      parallelism = parallelism;
      hash_len = hash_len;
      salt_len = salt_len;
    })
