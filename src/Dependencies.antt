-- ===== src/Dependencies.antt =====
-- dependencies.py, `dedupe_external_dependencies`: one resource for each identity. An entry that is
-- no dependency is `none`.
pub mod First
pub mod Causes
pub mod Reasons
use roboz.Prelude.{
  ◌≡◌, Bool, true, false, ◌||◌, Option, none, some, List, [], ◌∷◌, String, str_eq, Result, ok, err,
}

pub record Resource (D : Type 0) : Type 0 where
  pub dependency_id : String
  pub body : D

pub data DependencyTypeError : Type 0 where
  type_error : DependencyTypeError

-- `id in seen`
unfoldable pub is_seen : String → List String → Bool
is_seen id [] = false
is_seen id (known ∷ seen) = str_eq known id || is_seen id seen

module _ {D : Type 0} where
  abbrev pub kept_first :
      Resource D
      → Result DependencyTypeError (List (Resource D))
      → Result DependencyTypeError (List (Resource D))
  kept_first r (err e) = err e
  kept_first r (ok unique) = ok (r ∷ unique)

  -- The loop, with the identities seen so far.
  unfoldable pub dedupe_from :
      List String → List (Option (Resource D)) → Result DependencyTypeError (List (Resource D))
  dedupe_from seen [] = ok []
  dedupe_from seen (none ∷ resources) = err type_error
  dedupe_from seen (some r ∷ resources) = elim (is_seen r.dependency_id seen) [
    | true ↦ dedupe_from seen resources
    | false ↦ kept_first r (dedupe_from (r.dependency_id ∷ seen) resources)
  ]

  unfoldable pub dedupe_external_dependencies :
      List (Option (Resource D)) → Result DependencyTypeError (List (Resource D))
  unfolding dedupe_from
  dedupe_external_dependencies resources = dedupe_from [] resources

  -- The first resource of an identity, among the dependencies and among the entries.
  abbrev pub first_of : String → List (Resource D) → Option (Resource D)
  first_of id [] = none
  first_of id (r ∷ resources) = elim (str_eq r.dependency_id id) [
    | true ↦ some r
    | false ↦ first_of id resources
  ]

  abbrev pub instances : List (Option (Resource D)) → List (Resource D)
  instances [] = []
  instances (none ∷ resources) = instances resources
  instances (some r ∷ resources) = r ∷ instances resources

  -- No identity stands twice.
  abbrev pub Distinct : List (Resource D) → Type 0
  Distinct [] = Unit {0}
  Distinct (r ∷ resources) = (first_of r.dependency_id resources ≡ none) × Distinct resources
