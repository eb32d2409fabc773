-- ===== src/Shared/ProblemDetails.antt =====
-- app/shared/problem_details.py: RFC 9457 Problem Details.
pub mod Fields
use ai_backend_foundation.Prelude.{
  Bool, List, Option, String, [], any, none, not, select, some, str_eq, ℕ, ◌∷◌,
}
use ai_backend_foundation.Shared.Errors.{AppError}
use ai_backend_foundation.Shared.Values.{Extras, flag, null, number, text, texts}

abbrev pub media_type : String
media_type = "application/problem+json"

abbrev pub reserved_fields : List String
reserved_fields = "type" ∷ "title" ∷ "status" ∷ "detail" ∷ "instance" ∷ "code" ∷ "request_id" ∷ []

pub record ProblemDetails : Type 0 where
  pub type : String
  pub title : String
  pub status : ℕ
  pub detail : Option String
  pub instance' : Option String
  pub code : String
  pub request_id : Option String
  pub extras : Extras

abbrev pub is_reserved : String → Bool
is_reserved key = any (λ field. str_eq field key) reserved_fields

-- `{k: v for k, v in err.extras.items() if k not in _RESERVED_FIELDS}`
abbrev pub safe_extras : Extras → Extras
safe_extras extras = select (λ item. not (is_reserved item.0)) extras

unfoldable pub from_app_error : AppError → Option String → ProblemDetails
from_app_error err request_id = record {
  type = "about:blank";
  title = err.title;
  status = err.status;
  detail = err.detail;
  instance' = none;
  code = err.code;
  request_id = request_id;
  extras = safe_extras err.extras;
}

-- A field that `model_dump(exclude_none=True)` leaves out when it is `None`.
abbrev pub dump_text : String → Option String → Extras → Extras
dump_text key none rest = rest
dump_text key (some s) rest = (key, text s) ∷ rest

abbrev pub dump_extras : Extras → Extras
dump_extras [] = []
dump_extras ((k, null) ∷ extras) = dump_extras extras
dump_extras ((k, flag b) ∷ extras) = (k, flag b) ∷ dump_extras extras
dump_extras ((k, number n) ∷ extras) = (k, number n) ∷ dump_extras extras
dump_extras ((k, text s) ∷ extras) = (k, text s) ∷ dump_extras extras
dump_extras ((k, texts ts) ∷ extras) = (k, texts ts) ∷ dump_extras extras

-- `model_dump(exclude_none=True)`
unfoldable pub model_dump : ProblemDetails → Extras
model_dump p =
    ("type", text p.type)
    ∷ ("title", text p.title)
    ∷ ("status", number p.status)
    ∷ dump_text "detail" p.detail (
        dump_text "instance" p.instance'
          (("code", text p.code) ∷ dump_text "request_id" p.request_id (dump_extras p.extras)))
