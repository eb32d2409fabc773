-- ===== src/Http/Headers.antt =====
-- Reading a header after one was set.
use ai_backend_foundation.Http.{Headers, header, put_header}
use ai_backend_foundation.Prelude.{
  String, [], arith, eq_iff, eq_refl, false, if◌then◌else◌, refl, some, str_eq, ◌∙◌, ◌∷◌, ◌≡◌,
}

pub header-put_header :
    (name key value : String) (headers : Headers)
    → header name (put_header key value headers)
      ≡ (if str_eq key name then some value else header name headers)
header-put_header name key value [] = refl
header-put_header name key value ((k, v) ∷ headers) =
    ground (
      arith,
      eq_iff k key,
      eq_iff k name,
      eq_iff key name,
      header-put_header name key value headers,
    )

pub header-put_header_self :
    (name value : String) (headers : Headers)
    → header name (put_header name value headers) ≡ some value
header-put_header_self name value headers = header-put_header name name value headers ∙ rw eq_refl

pub header-put_header_ne :
    (name key value : String) (headers : Headers)
    → str_eq key name ≡ false
    → header name (put_header key value headers) ≡ header name headers
header-put_header_ne name key value headers h = header-put_header name key value headers ∙ rw h
