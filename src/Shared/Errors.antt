-- ===== src/Shared/Errors.antt =====
-- app/shared/errors.py: the hierarchy of application errors, and the exceptions of Python and of
-- the database driver that the program meets. The class of an error is a field, which `except`
-- clauses and `isinstance` test.
use ai_backend_foundation.Prelude.{List, Option, String, ℕ}
use ai_backend_foundation.Shared.Values.{Extras}

pub data ErrorClass : Type 0 where
  base not_found conflict validation authentication authorization : ErrorClass
  budget_exceeded upstream_provider rate_limited : ErrorClass
  invalid_credentials refresh_reuse_detected : ErrorClass

pub record AppError : Type 0 where
  pub class : ErrorClass
  pub code : String
  pub title : String
  pub status : ℕ
  pub detail : Option String
  pub extras : Extras

pub data Exception : Type 0 where
  app : AppError → Exception
  request_validation_error : List String → Exception
  value_error : String → Exception
  attribute_error : Exception
  runtime_error : String → Exception
  integrity_error : Exception
  data_error : Exception
  multiple_results_found : Exception
  file_not_found_error : String → Exception
  unexpected_error : String → Exception

module _ (detail : Option String) (extras : Extras) where
  abbrev pub not_found_error : AppError
  not_found_error = record {
    class = not_found;
    code = "not-found";
    title = "Resource not found";
    status = 404;
    detail = detail;
    extras = extras;
  }

  abbrev pub conflict_error : AppError
  conflict_error = record {
    class = conflict;
    code = "conflict";
    title = "Conflict";
    status = 409;
    detail = detail;
    extras = extras;
  }

  abbrev pub validation_error : AppError
  validation_error = record {
    class = validation;
    code = "validation-error";
    title = "Validation error";
    status = 422;
    detail = detail;
    extras = extras;
  }

  abbrev pub authentication_error : AppError
  authentication_error = record {
    class = authentication;
    code = "authentication-error";
    title = "Authentication failed";
    status = 401;
    detail = detail;
    extras = extras;
  }

  abbrev pub authorization_error : AppError
  authorization_error = record {
    class = authorization;
    code = "authorization-error";
    title = "Authorization failed";
    status = 403;
    detail = detail;
    extras = extras;
  }

  abbrev pub budget_exceeded_error : AppError
  budget_exceeded_error = record {
    class = budget_exceeded;
    code = "budget-exceeded";
    title = "Budget exceeded";
    status = 409;
    detail = detail;
    extras = extras;
  }

  abbrev pub upstream_provider_error : AppError
  upstream_provider_error = record {
    class = upstream_provider;
    code = "upstream-provider-error";
    title = "Upstream provider error";
    status = 502;
    detail = detail;
    extras = extras;
  }

  abbrev pub rate_limited_error : AppError
  rate_limited_error = record {
    class = rate_limited;
    code = "rate-limited";
    title = "Rate limit exceeded";
    status = 429;
    detail = detail;
    extras = extras;
  }
