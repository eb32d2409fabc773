-- ===== src/Shared/ProblemDetails/Fields.antt =====
-- What a client reads in the problem document of an application error.
use mathlib.Core.Path.{subst}
use mathlib.Core.Bool.{false≢true}
use ai_backend_foundation.Prelude.{
  Bool-cases, Option, String, [], arith, eq_iff, false, inl, inr, none, refl, some, str_eq, sym,
  true, ℕ, ◌∙◌, ◌∷◌, ◌≡◌,
}
use ai_backend_foundation.Shared.Errors.{AppError}
use ai_backend_foundation.Shared.ProblemDetails.{
  dump_extras, dump_text, from_app_error, is_reserved, model_dump, safe_extras,
}
use ai_backend_foundation.Shared.Values.{Extras, Value, flag, get_claim, null, number, text, texts}

-- A dumped item whose key is another one does not matter.
get-dump_cons :
    (key k : String) (v : Value) (extras : Extras)
    → str_eq k key ≡ false
    → get_claim key (dump_extras ((k, v) ∷ extras)) ≡ get_claim key (dump_extras extras)
get-dump_cons key k null extras h = refl
get-dump_cons key k (flag b) extras h = rw h
get-dump_cons key k (number n) extras h = rw h
get-dump_cons key k (text s) extras h = rw h
get-dump_cons key k (texts ts) extras h = rw h

get-dump_cong :
    (key k : String) (v : Value) (xs ys : Extras)
    → get_claim key (dump_extras xs) ≡ get_claim key (dump_extras ys)
    → get_claim key (dump_extras ((k, v) ∷ xs)) ≡ get_claim key (dump_extras ((k, v) ∷ ys))
get-dump_cong key k null xs ys h = h
get-dump_cong key k (flag b) xs ys h = ground (arith, h)
get-dump_cong key k (number n) xs ys h = ground (arith, h)
get-dump_cong key k (text s) xs ys h = ground (arith, h)
get-dump_cong key k (texts ts) xs ys h = ground (arith, h)

get-select_reserved :
    (key : String) (extras : Extras)
    → is_reserved key ≡ true
    → get_claim key (dump_extras (safe_extras extras)) ≡ none
get-select_reserved key [] h = refl
get-select_reserved key ((k, v) ∷ extras) h = elim (Bool-cases (is_reserved k)) [
  | inl reserved ↦ rw reserved (get-select_reserved key extras h)
  | inr free ↦
      rw free (get-dump_cons key k v _ (key_differs k free) ∙ get-select_reserved key extras h)
]
  where
    key_differs : (k : String) → is_reserved k ≡ false → str_eq k key ≡ false
    key_differs k free = elim (Bool-cases (str_eq k key)) [
      | inl same ↦ absurd (
          false≢true (sym free ∙ subst (λ x. is_reserved x ≡ true) (sym ((eq_iff k key).0 same)) h))
      | inr differs ↦ differs
    ]

get-select_free :
    (key : String) (extras : Extras)
    → is_reserved key ≡ false
    → get_claim key (dump_extras (safe_extras extras)) ≡ get_claim key (dump_extras extras)
get-select_free key [] h = refl
get-select_free key ((k, v) ∷ extras) h = elim (Bool-cases (is_reserved k)) [
  | inl reserved ↦
      rw reserved
        (get-select_free key extras h ∙ sym (get-dump_cons key k v extras (key_differs k reserved)))
  | inr free ↦ rw free (get-dump_cong key k v _ _ (get-select_free key extras h))
]
  where
    key_differs : (k : String) → is_reserved k ≡ true → str_eq k key ≡ false
    key_differs k reserved = elim (Bool-cases (str_eq k key)) [
      | inl same ↦
          absurd (
            false≢true (sym h ∙ subst (λ x. is_reserved x ≡ true) ((eq_iff k key).0 same) reserved))
      | inr differs ↦ differs
    ]

abbrev pub as_text : Option String → Option Value
as_text none = none
as_text (some s) = some (text s)

-- The fields of a document, before what the extras add.
abbrev document : String → ℕ → String → Option String → Option String → Extras → Extras
document title status code detail request_id rest =
    ("type", text "about:blank")
    ∷ ("title", text title)
    ∷ ("status", number status)
    ∷ dump_text "detail" detail (("code", text code) ∷ dump_text "request_id" request_id rest)

get-document_optional :
    (title code : String) (status : ℕ) (detail request_id : Option String) (rest : Extras)
    → ((key : String) → is_reserved key ≡ true → get_claim key rest ≡ none)
    → (get_claim "code" (document title status code detail request_id rest) ≡ some (text code))
      × (get_claim "detail" (document title status code detail request_id rest) ≡ as_text detail)
      × (get_claim "instance" (document title status code detail request_id rest) ≡ none)
      × (get_claim "request_id" (document title status code detail request_id rest)
          ≡ as_text request_id)
get-document_optional title code status none none rest h =
    (refl, h "detail" refl, h "instance" refl, h "request_id" refl)
get-document_optional title code status none (some id) rest h =
    (refl, h "detail" refl, h "instance" refl, refl)
get-document_optional title code status (some d) none rest h =
    (refl, refl, h "instance" refl, h "request_id" refl)
get-document_optional title code status (some d) (some id) rest h =
    (refl, refl, h "instance" refl, refl)

get-document_free :
    (title code : String) (status : ℕ) (detail request_id : Option String) (rest : Extras)
    (key : String)
    → is_reserved key ≡ false
    → get_claim key (document title status code detail request_id rest) ≡ get_claim key rest
get-document_free title code status none none rest key h = ground (arith, h)
get-document_free title code status none (some id) rest key h = ground (arith, h)
get-document_free title code status (some d) none rest key h = ground (arith, h)
get-document_free title code status (some d) (some id) rest key h = ground (arith, h)

-- Whatever extras an application error has, the canonical fields of its document are those of the
-- error: `extras` can neither override a field nor supply one that is absent. A key of the extras
-- that is not reserved has its value in the document, unless that is `None`.
pub document_fields :
    (err : AppError) (request_id : Option String) (key : String)
    → is_reserved key ≡ false
    → (let body = model_dump (from_app_error err request_id) in
        (get_claim "type" body ≡ some (text "about:blank"))
        × (get_claim "title" body ≡ some (text err.title))
        × (get_claim "status" body ≡ some (number err.status))
        × (get_claim "code" body ≡ some (text err.code))
        × (get_claim "detail" body ≡ as_text err.detail)
        × (get_claim "instance" body ≡ none)
        × (get_claim "request_id" body ≡ as_text request_id)
        × (get_claim key body ≡ get_claim key (dump_extras err.extras)))
unfolding model_dump from_app_error
document_fields err request_id key free =
    let optional =
      get-document_optional err.title err.code err.status err.detail request_id _
        (λ key. get-select_reserved key err.extras) in
    (
      refl,
      refl,
      refl,
      optional.0,
      optional.1,
      optional.2,
      optional.3,
      get-document_free err.title err.code err.status err.detail request_id _ key free
          ∙ get-select_free key err.extras free,
    )
