-- ===== src/Dependencies/First.antt =====
-- What is left of the dependencies: the first of each identity.
use roboz.Prelude.{
  ◌≡◌, ◌≢◌, refl, sym, ap, ◌∙◌, Bool, true, false, Option, none, some, List, [], ◌∷◌, String,
  str_eq, eq_iff, map, Result, ok, err, Bool-cases, inl, inr,
}
use roboz.Dependencies.{
  Resource, DependencyTypeError, is_seen, kept_first, dedupe_from, dedupe_external_dependencies,
  first_of, instances, Distinct,
}

true≢false : true ≢ false
true≢false e = cc

differs :
    (known id : String) (seen : List String)
    → is_seen known seen ≡ true
    → is_seen id seen ≡ false
    → str_eq known id ≡ false
differs known id seen h g = elim (Bool-cases (str_eq known id)) [
  | inl same ↦
      let is : known ≡ id = (eq_iff known id).0 same in
      absurd (true≢false (sym h ∙ (ap (λ x. is_seen x seen) is ∙ g)))
  | inr other ↦ other
]

apart :
    (known id : String) (seen : List String)
    → is_seen known seen ≡ false
    → is_seen id seen ≡ true
    → str_eq known id ≡ false
apart known id seen g h = elim (Bool-cases (str_eq known id)) [
  | inl same ↦
      let is : known ≡ id = (eq_iff known id).0 same in
      absurd (true≢false (sym h ∙ (ap (λ x. is_seen x seen) (sym is) ∙ g)))
  | inr other ↦ other
]

is_seen-same :
    (known id : String) (seen : List String)
    → str_eq known id ≡ true
    → is_seen id (known ∷ seen) ≡ true
unfolding is_seen
is_seen-same known id seen h = rw h refl

is_seen-other :
    (known id : String) (seen : List String) {b : Bool}
    → str_eq known id ≡ false
    → is_seen id seen ≡ b
    → is_seen id (known ∷ seen) ≡ b
unfolding is_seen
is_seen-other known id seen h g = rw (h, g) refl

is_seen-later :
    (known id : String) (seen : List String)
    → is_seen id seen ≡ true
    → is_seen id (known ∷ seen) ≡ true
unfolding is_seen
is_seen-later known id seen g = elim (Bool-cases (str_eq known id)) [
  | inl same ↦ rw same refl
  | inr other ↦ rw (other, g) refl
]

module _ {D : Type 0} where
  record Deduped (seen : List String) (resources : List (Option (Resource D)))
      (unique : List (Resource D)) : Type 0 where
    firsts :
        (id : String)
        → is_seen id seen ≡ false
        → first_of id unique ≡ first_of id (instances resources)
    fresh : (id : String) → is_seen id seen ≡ true → first_of id unique ≡ none
    distinct : Distinct unique

  first_of-other :
      (id : String) (r : Resource D) (resources : List (Resource D))
      → str_eq r.dependency_id id ≡ false
      → first_of id (r ∷ resources) ≡ first_of id resources
  first_of-other id r resources h = rw (h, first_of) refl

  first_of-same :
      (id : String) (r : Resource D) (resources : List (Resource D))
      → str_eq r.dependency_id id ≡ true
      → first_of id (r ∷ resources) ≡ some r
  first_of-same id r resources h = rw (h, first_of) refl

  kept_first-ok :
      (r : Resource D) (rest : Result DependencyTypeError (List (Resource D)))
      {unique : List (Resource D)}
      → kept_first r rest ≡ ok unique
      → (kept : List (Resource D)) × (rest ≡ ok kept) × (r ∷ kept ≡ unique)
  kept_first-ok r (err e) h = absurd cc
  kept_first-ok r (ok kept) h = (kept, refl, cc)

  again-Deduped :
      (seen : List String) (r : Resource D) (resources : List (Option (Resource D)))
      (unique : List (Resource D))
      → is_seen r.dependency_id seen ≡ true
      → Deduped seen resources unique
      → Deduped seen (some r ∷ resources) unique
  again-Deduped seen r resources unique known rest = record {
    firsts = λ id new.
        rest.firsts id new
        ∙ sym
            (first_of-other id r (instances resources) (differs r.dependency_id id seen known new));
    fresh = rest.fresh;
    distinct = rest.distinct;
  }

  kept-Deduped :
      (seen : List String) (r : Resource D) (resources : List (Option (Resource D)))
      (kept : List (Resource D))
      → is_seen r.dependency_id seen ≡ false
      → Deduped (r.dependency_id ∷ seen) resources kept
      → Deduped seen (some r ∷ resources) (r ∷ kept)
  kept-Deduped seen r resources kept new rest = record {
    firsts = λ id unseen. elim (Bool-cases (str_eq r.dependency_id id)) [
      | inl same ↦
          first_of-same id r kept same ∙ sym (first_of-same id r (instances resources) same)
      | inr other ↦
          first_of-other id r kept other
          ∙ (rest.firsts id (is_seen-other r.dependency_id id seen other unseen)
              ∙ sym (first_of-other id r (instances resources) other))
    ];
    fresh = λ id known.
        first_of-other id r kept (apart r.dependency_id id seen new known)
        ∙ rest.fresh id (is_seen-later r.dependency_id id seen known);
    distinct = (
      rest.fresh r.dependency_id (
          is_seen-same r.dependency_id r.dependency_id seen
            ((eq_iff r.dependency_id r.dependency_id).1 refl)),
      rest.distinct,
    );
  }

  nothing-Deduped : (seen : List String) → Deduped seen [] []
  nothing-Deduped seen = record { firsts = λ id new. refl; fresh = λ id known. refl; distinct = tt }

  dedupe_from-Deduped :
      (seen : List String) (resources : List (Option (Resource D))) (unique : List (Resource D))
      → dedupe_from seen resources ≡ ok unique
      → Deduped seen resources unique
  unfolding dedupe_from
  dedupe_from-Deduped seen [] unique h =
      let is : [] ≡ unique = cc in rw is at (nothing-Deduped seen)
  dedupe_from-Deduped seen (none ∷ resources) unique h = absurd cc
  dedupe_from-Deduped seen (some r ∷ resources) unique h =
      elim (Bool-cases (is_seen r.dependency_id seen)) [
        | inl known ↦
            again-Deduped seen r resources unique known
              (dedupe_from-Deduped seen resources unique (rw (known, dedupe_from) at h))
        | inr new ↦
            let (kept, left, is) = kept_first-ok r _ (rw (new, dedupe_from) at h) in
            rw is at (
              kept-Deduped seen r resources kept new
                (dedupe_from-Deduped (r.dependency_id ∷ seen) resources kept left))
      ]

  dedupe_from-ok :
      (seen : List String) (resources : List (Resource D))
      → (unique : List (Resource D)) × (dedupe_from seen (map some resources) ≡ ok unique)
  unfolding dedupe_from
  dedupe_from-ok seen [] = ([], refl)
  dedupe_from-ok seen (r ∷ resources) = elim (Bool-cases (is_seen r.dependency_id seen)) [
    | inl known ↦ rw (known, dedupe_from) (dedupe_from-ok seen resources)
    | inr new ↦
        let (kept, is) = dedupe_from-ok (r.dependency_id ∷ seen) resources in
        rw (new, dedupe_from, is) (r ∷ kept, refl)
  ]

  instances-map : (resources : List (Resource D)) → instances (map some resources) ≡ resources
  instances-map [] = refl
  instances-map (r ∷ resources) = ap (λ rest. r ∷ rest) (instances-map resources)

  -- Deduplication of dependencies succeeds, keeps for every identity the first dependency that has
  -- it, and no identity twice.
  pub dedupe_external_dependencies-first :
      (resources : List (Resource D))
      → (unique : List (Resource D)) × (dedupe_external_dependencies (map some resources)
          ≡ ok unique)
        × ((id : String) → first_of id unique ≡ first_of id resources)
        × Distinct unique
  unfolding dedupe_external_dependencies is_seen
  dedupe_external_dependencies-first resources =
      let (unique, is) = dedupe_from-ok [] resources in
      let deduped = dedupe_from-Deduped [] (map some resources) unique is in
      (unique, is, λ id. rw (instances-map resources) at (deduped.firsts id refl), deduped.distinct)
