-- ===== src/Users/Access.antt =====
-- Whose profile `GET /users/me` of app/users/api.py answers with.
use ai_backend_foundation.Action.{Action, gets, ok, pure, raise, ◌>>=◌}
use ai_backend_foundation.Action.Returns.{Returned-bind}
use ai_backend_foundation.Action.Rules.{ok-injective}
use ai_backend_foundation.Auth.Deps.{Wiring, get_current_user}
use ai_backend_foundation.Auth.Deps.CurrentUser.{IsAccepted, get_current_user-IsAccepted}
use ai_backend_foundation.Auth.Domain.{AuthenticatedUser}
use ai_backend_foundation.Auth.Persistence.{option_map, scalar_one_or_none}
use ai_backend_foundation.Auth.Rotation.Success.{first-select}
use ai_backend_foundation.Auth.Service.{or_raise}
use ai_backend_foundation.Database.{
  UserProfileRow, World, ask, log_event, refuse, set_user_profiles, with_session,
}
use ai_backend_foundation.Prelude.{
  ==_iff, Bool-cases, List, Option, String, [], ap, arith, first, inl, inr, none, refl, select,
  some, some_eq, sym, ◌==◌, ◌∙◌, ◌∷◌, ◌≡◌,
}
use ai_backend_foundation.Shared.Errors.{Exception, value_error}
use ai_backend_foundation.Shared.Types.{Uuid, UuidModule}
use ai_backend_foundation.Users.Deps.{get_user_service, me_route, users_db_session}
use ai_backend_foundation.Users.Persistence.{
  UserProfile, create_user_profile, get_user_profile, profile_to_domain,
}
use ai_backend_foundation.Users.Service.{
  UserService, get_or_create_profile, my_profile, profile_or_new,
}

or_raise_lem :
    {A : Type 0} (e : Exception) (o : Option A) (w : World) (a : A)
    → (or_raise e o w).0 ≡ ok a
    → o ≡ some a
unfolding or_raise raise pure
or_raise_lem e none w a h = cc
or_raise_lem e (some b) w a h = ap some (ok-injective h)

-- The session changes the tables that are seen, not the outcome.
session_inner :
    {A : Type 0} (container : Wiring) (m : Action World A) (w : World) (a : A)
    → (users_db_session container m w).0 ≡ ok a
    → (m (record w { db = w.committed })).0 ≡ ok a
unfolding users_db_session with_session log_event raise ◌>>=◌
session_inner container m w a h = elim (Bool-cases container.session_factory) [
  | inl there ↦ rw there at h
  | inr missing ↦ let refused = rw missing at h in cc
]

scalar_one_or_none-first :
    {A : Type 0} (rows : List A) (w : World) (a : A)
    → (scalar_one_or_none rows w).0 ≡ ok (some a)
    → first rows ≡ some a
unfolding scalar_one_or_none pure raise
scalar_one_or_none-first [] w a h = cc
scalar_one_or_none-first (x ∷ []) w a h = ok-injective h
scalar_one_or_none-first (x ∷ y ∷ rows) w a h = cc

found_profile :
    (id : Uuid) (rows : List UserProfileRow) (w : World) (p : UserProfileRow)
    → (scalar_one_or_none (select (λ r. r.id == id) rows) w).0 ≡ ok (some p)
    → p.id ≡ id
found_profile id rows w p h =
    (==_iff p.id id).0
      (first-select (λ (r : UserProfileRow). r.id == id) rows (scalar_one_or_none-first _ w p h))

created_profile :
    (row : UserProfileRow) (w : World) (p : UserProfile)
    → (create_user_profile row w).0 ≡ ok p
    → p.id ≡ row.id
unfolding create_user_profile refuse gets set_user_profiles pure ◌>>=◌
created_profile row w p h = ground (arith, h)

option_map-some :
    (o : Option UserProfileRow) (p : UserProfile)
    → option_map profile_to_domain o ≡ some p
    → (row : UserProfileRow) × (o ≡ some row) × (row.id ≡ p.id)
option_map-some none p h = cc
option_map-some (some row) p h = (row, refl, ap (λ (x : UserProfile). x.id) (some_eq h))

got_profile :
    (id : Uuid) (w : World) (p : UserProfile) → (get_user_profile id w).0 ≡ ok (some p) → p.id ≡ id
unfolding get_user_profile gets pure ◌>>=◌
got_profile id w p h =
    let found =
      Returned-bind (scalar_one_or_none (select (λ r. r.id == id) w.db.user_profiles)) _ w h in
    let (row, here, same) = option_map-some found.result p (ok-injective found.rest) in
    sym same ∙ found_profile id w.db.user_profiles w row (found.step ∙ ap ok here)

profile_or_new_lem :
    (self : UserService) (id : Uuid) (email : String) (o : Option UserProfile) (w : World)
    (p : UserProfile)
    → ((q : UserProfile) → o ≡ some q → q.id ≡ id)
    → (profile_or_new self id email o w).0 ≡ ok p
    → p.id ≡ id
unfolding profile_or_new ask pure ◌>>=◌
profile_or_new_lem self id email (some q) w p own h =
    ap (λ (x : UserProfile). x.id) (sym (ok-injective h)) ∙ own q refl
profile_or_new_lem self id email none w p own h = created_profile _ _ p h

get_or_create_profile_lem :
    (self : UserService) (id : Uuid) (email : String) (w : World) (p : UserProfile)
    → (get_or_create_profile self id email w).0 ≡ ok p
    → p.id ≡ id
unfolding get_or_create_profile
get_or_create_profile_lem self id email w p h =
    let found = Returned-bind (get_user_profile id) _ w h in
    profile_or_new_lem self id email found.result _ p
      (λ q here. got_profile id w q (found.step ∙ ap ok here)) found.rest

-- Whatever the tables and the container are: `GET /users/me` answers with a profile only to a good
-- access token of the wired signer, and then with the profile under the identifier of its claims.
pub me_route-IsAccepted :
    (uuid : UuidModule) (container : Wiring) (credentials : Option String) (w : World)
    (profile : UserProfile)
    → (me_route uuid container credentials w).0 ≡ ok profile
    → (user : AuthenticatedUser) × IsAccepted uuid container credentials w.asked user
      × (uuid.parse user.user_id ≡ some profile.id)
unfolding me_route my_profile
me_route-IsAccepted uuid container credentials w profile h =
    let known = Returned-bind (get_current_user uuid container credentials) _ w h in
    let opened = session_inner container _ _ profile known.rest in
    let served = Returned-bind (get_user_service container) _ _ opened in
    let named =
      Returned-bind
        (or_raise (value_error "badly formed hexadecimal UUID string")
          (uuid.parse known.result.user_id))
        _ _ served.rest in
    (
      known.result,
      get_current_user-IsAccepted uuid container credentials w known.result known.step,
      or_raise_lem _ _ _ named.result named.step
          ∙ ap some (
              sym (
                get_or_create_profile_lem served.result named.result known.result.email _ profile
                  named.rest)),
    )
