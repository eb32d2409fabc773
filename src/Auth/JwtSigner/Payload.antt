-- ===== src/Auth/JwtSigner/Payload.antt =====
-- What app/auth/adapters/jwt_signer.py adds to the claims.
use ai_backend_foundation.Auth.JwtSigner.{JwtSigner, payload, put_default}
use ai_backend_foundation.Auth.Ports.{Claims}
use ai_backend_foundation.Prelude.{
  Bool-cases, String, [], arith, inl, inr, is_some, some, ◌++◌, ◌∷◌, ◌≡◌,
}
use ai_backend_foundation.Shared.Types.{DateTime, Uuid}
use ai_backend_foundation.Shared.Values.{Value, get_claim}

get-put_default :
    (k key : String) (v value : Value) (claims : Claims)
    → get_claim k claims ≡ some v
    → get_claim k (put_default key value claims) ≡ some v
get-put_default k key v value claims h = elim (Bool-cases (is_some (get_claim key claims))) [
  | inl there ↦ rw there h
  | inr missing ↦ rw missing (get-append claims h)
]
  where
    get-append :
        (d : Claims) → get_claim k d ≡ some v → get_claim k (d ++ (key, value) ∷ []) ≡ some v
    get-append [] e = cc
    get-append ((k', v') ∷ d) e = ground (arith, e, get-append d)

-- Every claim that is given to `sign` is signed as it is: the standard claims are only added where they
-- are missing.
pub payload-keeps :
    (self : JwtSigner) (now : DateTime) (jti : Uuid) (claims : Claims) (key : String)
    (value : Value)
    → get_claim key claims ≡ some value
    → get_claim key (payload self now jti claims) ≡ some value
unfolding payload
payload-keeps self now jti claims key value h = get-put_default key "jti" value _ _ (
    get-put_default key "exp" value _ _ (
      get-put_default key "iat" value _ _
        (get-put_default key "aud" value _ _ (get-put_default key "iss" value _ _ h))))
