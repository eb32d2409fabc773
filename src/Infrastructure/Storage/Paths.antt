-- ===== src/Infrastructure/Storage/Paths.antt =====
-- Which paths `LocalBlobStorage` of app/infrastructure/storage/local.py accepts.
-- A part of a path that the file system reads as a plain name.
use mathlib.Core.Path.{subst}
use ai_backend_foundation.Action.{Outcome, Outcome-cases, gets, lift, ok, raised, ◌>>=◌}
use ai_backend_foundation.Action.Rules.{ok-injective}
use ai_backend_foundation.Infrastructure.Storage.{
  FilePath, FileSystem, check_part, check_segments, contained, invalid_path, is_under, joined,
  part_error, segments, validate_path,
}
use ai_backend_foundation.Prelude.{
  All, Bool, Bool-cases, List, String, [], ap, arith, eq_iff, false, has_code, if◌then◌else◌, inl,
  inr, is_empty, refl, starts_with_code, str_eq, sym, true, ◌++◌, ◌∙◌, ◌∷◌, ◌≡◌, ◌≢◌, ◌⊎◌,
}
use ai_backend_foundation.Shared.Errors.{Exception, value_error}

pub record IsPlain (segment : String) : Type 0 where
  pub not_parent : segment ≢ ".."
  pub not_here : segment ≢ "."
  pub not_empty : segment ≢ ""

pub record IsSafe (value : String) : Type 0 where
  pub not_empty : value ≢ ""
  pub no_nul : has_code 0 value ≡ false
  pub no_backslash : has_code b'\\' value ≡ false
  pub relative : starts_with_code b'/' value ≡ false
  pub no_colon : has_code b':' value ≡ false
  pub plain : All IsPlain (segments value)

true_and_false : {b : Bool} → b ≡ true → b ≡ false → ⊥
true_and_false h k = cc

str_ne : {s t : String} → str_eq s t ≡ false → s ≢ t
str_ne h e = true_and_false ((eq_iff _ _).1 e) h

-- Whether a check passes or raises `ValueError`.
abbrev Checked : Type 0 → Outcome (Unit {0}) → Type 0
Checked P r = ((r ≡ ok tt) × P) ⊎ ((m : String) × (r ≡ raised (value_error m)) × (P → ⊥))

module _ {P : Type 0} where
  Checked-map :
      {Q : Type 0} (r : Outcome (Unit {0})) → (P → Q) → (Q → P) → Checked P r → Checked Q r
  Checked-map r f g (inl (passed, p)) = inl (passed, f p)
  Checked-map r f g (inr (m, thrown, refuted)) = inr (m, thrown, λ q. refuted (g q))

  -- One `if` that raises `ValueError`.
  guarded :
      (b : Bool) (n problem : String) (r : Outcome (Unit {0}))
      → (b ≡ true → P → ⊥)
      → (b ≡ false → Checked P r)
      → Checked P (if b then part_error n problem else r)
  guarded true n problem r refuted later = inr (_, refl, refuted refl)
  guarded false n problem r refuted later = later refl

check_segments-cases :
    (n : String) (xs : List String) → Checked (All IsPlain xs) (check_segments n xs)
unfolding check_segments
check_segments-cases n [] = inl (refl, tt)
check_segments-cases n (x ∷ xs) =
    guarded (str_eq x "..") n _ _ (λ e h. h.0.not_parent ((eq_iff _ _).0 e))
      λ e1.
        guarded (str_eq x ".") n _ _ (λ e h. h.0.not_here ((eq_iff _ _).0 e))
          λ e2.
            guarded (is_empty x) n _ _ (λ e h. h.0.not_empty ((eq_iff _ _).0 e))
              λ e3.
                Checked-map (check_segments n xs)
                  (λ h. (
                    record { not_parent = str_ne e1; not_here = str_ne e2; not_empty = str_ne e3 },
                    h,
                  ))
                  (λ h. h.1) (check_segments-cases n xs)

pub check_part-cases : (n value : String) → Checked (IsSafe value) (check_part n value)
unfolding check_part
check_part-cases n value =
    guarded (is_empty value) n _ _ (λ e h. h.not_empty ((eq_iff _ _).0 e))
      λ e1.
        guarded (has_code 0 value) n _ _ (λ e h. true_and_false e h.no_nul)
          λ e2.
            guarded (has_code b'\\' value) n _ _ (λ e h. true_and_false e h.no_backslash)
              λ e3.
                guarded (starts_with_code b'/' value) n _ _ (λ e h. true_and_false e h.relative)
                  λ e4.
                    guarded (has_code b':' value) n _ _ (λ e h. true_and_false e h.no_colon)
                      λ e5.
                        Checked-map (check_segments n (segments value))
                          (λ h. record {
                            not_empty = str_ne e1;
                            no_nul = e2;
                            no_backslash = e3;
                            relative = e4;
                            no_colon = e5;
                            plain = h;
                          })
                          (λ h. h.plain) (check_segments-cases n (segments value))

-- What lies under the base path continues it.
is_under-prefix :
    (root path : FilePath) → is_under root path ≡ true → (rest : FilePath) × (path ≡ root ++ rest)
is_under-prefix [] path h = (path, refl)
is_under-prefix (d ∷ root) [] h = absurd (ground (arith, h))
is_under-prefix (d ∷ root) (e ∷ path) h =
    let (rest, same) = is_under-prefix root path (ground (arith, h)) in
    let here : d ≡ e = (eq_iff d e).0 (ground (arith, h)) in (rest, cc)

module _ {A : Type 0} {r : Outcome A} where
  pub ok_and_raised : {a : A} {e : Exception} → r ≡ ok a → r ≡ raised e → ⊥
  ok_and_raised h k = cc

  pub ok_eq : {a b : A} → r ≡ ok a → r ≡ ok b → a ≡ b
  ok_eq h k = ok-injective (sym h ∙ k)

-- The parts are safe, and the path to which they lead is under the base path.
pub record IsContained (fs : FileSystem) (base_path : FilePath) (bucket key : String) (s : fs.Store)
    (path : FilePath) : Type 0 where
  pub safe_bucket : IsSafe bucket
  pub safe_key : IsSafe key
  pub resolves : fs.resolve (joined fs base_path bucket key) s ≡ ok path
  pub under_base : is_under base_path path ≡ true

module _ (fs : FileSystem) (base_path : FilePath) (bucket key : String) where
  moved :
      {p q : FilePath} {s : fs.Store}
      → fs.resolve (joined fs base_path bucket key) s ≡ ok p
      → fs.resolve (joined fs base_path bucket key) s ≡ ok q
      → is_under base_path p ≡ false
      → is_under base_path q ≡ false
  moved h k outside = subst (λ q. is_under base_path q ≡ false) (ok_eq h k) outside

  abbrev pub Validated : fs.Store → Outcome FilePath × fs.Store → Type 0
  Validated s r =
      ((path : FilePath) × IsContained fs base_path bucket key s path × (r ≡ (ok path, s)))
      ⊎ ((m : String) × (r ≡ (raised (value_error m), s))
          × ((path : FilePath) → IsContained fs base_path bucket key s path → ⊥))

  resolved_cases :
      (s : fs.Store)
      → IsSafe bucket
      → IsSafe key
      → Validated s (
          (gets (fs.resolve (joined fs base_path bucket key)) >>= λ resolved.
          lift (invalid_path resolved) >>= λ path. lift (contained fs base_path path))
            s)
  unfolding ◌>>=◌ lift gets
  resolved_cases s safe_bucket safe_key =
      elim (Outcome-cases (fs.resolve (joined fs base_path bucket key) s)) [
        | inr (e, no_path) ↦ rw no_path (inr (_, refl, λ path h. ok_and_raised h.resolves no_path))
        | inl (path, resolved) ↦ rw resolved (elim (Bool-cases (is_under base_path path)) [
          | inl inside ↦ rw inside (
              inl (
                path,
                record {
                  safe_bucket = safe_bucket;
                  safe_key = safe_key;
                  resolves = resolved;
                  under_base = inside;
                },
                refl,
              ))
          | inr outside ↦ rw outside (
              inr (
                _,
                refl,
                λ path' h. true_and_false h.under_base (moved resolved h.resolves outside),
              ))
        ])
      ]

  pub validate_path-cases : (s : fs.Store) → Validated s (validate_path fs base_path bucket key s)
  unfolding validate_path ◌>>=◌ lift gets
  validate_path-cases s = elim (check_part-cases "bucket" bucket) [
    | inr (m, thrown, refuted) ↦ rw thrown (inr (m, refl, λ path h. refuted h.safe_bucket))
    | inl (passed, safe_bucket) ↦ rw passed (elim (check_part-cases "key" key) [
      | inr (m, thrown, refuted) ↦ rw thrown (inr (m, refl, λ path h. refuted h.safe_key))
      | inl (passed_key, safe_key) ↦ rw passed_key (resolved_cases s safe_bucket safe_key)
    ])
  ]

  refused_why :
      (s s' : fs.Store) (r : Outcome FilePath × fs.Store) {path : FilePath} {m : String}
      → r ≡ (ok path, s')
      → r ≡ (raised (value_error m), s)
      → ⊥
  refused_why s s' r h k = ok_and_raised (ap (λ x. x.0) h) (ap (λ x. x.0) k)

  -- A path that `_validate_path` accepts lies under the base path, and then bucket and key are safe:
  -- not empty, with no NUL, no backslash and no colon, and with no part that is empty, "." or "..".
  -- No file is touched.
  pub validate_path-contained :
      (s s' : fs.Store) (path : FilePath)
      → validate_path fs base_path bucket key s ≡ (ok path, s')
      → ((rest : FilePath) × (path ≡ base_path ++ rest)) × IsSafe bucket × IsSafe key × (s' ≡ s)
  validate_path-contained s s' path h = elim (validate_path-cases s) [
    | inl (p, facts, e) ↦
        let same : p ≡ path = ok_eq (ap (λ x. x.0) e) (ap (λ x. x.0) h) in
        (
          is_under-prefix base_path path
              (subst (λ q. is_under base_path q ≡ true) same facts.under_base),
          facts.safe_bucket,
          facts.safe_key,
          ap (λ x. x.1) (sym h ∙ e),
        )
    | inr (m, e, refuted) ↦ absurd (refused_why s s' _ h e)
  ]
