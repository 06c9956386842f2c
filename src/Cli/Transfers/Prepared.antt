-- ===== src/Cli/Transfers/Prepared.antt =====
-- The operations that the transfers are guarded by.
use roboz.Prelude.{◌≡◌, inl, inr, refl, Bool, true, false, List, [], ◌∷◌, All, All-map}
use roboz.Guard.Policy.{Operation, read, create, delete}
use roboz.Cli.Transfers.{
  Location, Files, Transfer, replaces, with_replaced, operations_of, has_operation, from_keys,
  prepared_operations,
}
use roboz.Cli.Transfers.Keys.{Required, from_keys-has, has_operation-first, has_operation-later}

module _ (files : Files) (source_operation : Operation) where
  -- The operations for a transfer: that on its source, the creation of its destination, and, where
  -- it replaces what stands there, a read and a deletion.
  pub data Guarded (operations : List Required) : Transfer → Type 0 where
    adds :
        {source destination : Location}
        → has_operation (source_operation, source) operations ≡ true
        → has_operation (create, destination) operations ≡ true
        → replaces files source_operation destination ≡ false
        → Guarded operations (source, destination)
    overwrites :
        {source destination : Location}
        → has_operation (source_operation, source) operations ≡ true
        → has_operation (create, destination) operations ≡ true
        → has_operation (read, destination) operations ≡ true
        → has_operation (delete, destination) operations ≡ true
        → Guarded operations (source, destination)

  Guarded-mono :
      (operations more : List Required) (t : Transfer)
      → ((o : Required) → has_operation o operations ≡ true → has_operation o more ≡ true)
      → Guarded operations t
      → Guarded more t
  Guarded-mono operations more (source, destination) keeps (adds s d unless) =
      adds (keeps _ s) (keeps _ d) unless
  Guarded-mono operations more (source, destination) keeps (overwrites s d r x) =
      overwrites (keeps _ s) (keeps _ d) (keeps _ r) (keeps _ x)

  after_two :
      (a b o : Required) (operations : List Required)
      → has_operation o operations ≡ true
      → has_operation o (a ∷ b ∷ operations) ≡ true
  after_two a b o operations h = has_operation-later o a _ (has_operation-later o b operations h)

  with_transfer-Guarded :
      (source destination : Location) (rest : List Required) (transfers : List Transfer) (b : Bool)
      → replaces files source_operation destination ≡ b
      → All (Guarded rest) transfers
      → All
          (Guarded (
            (source_operation, source)
            ∷ (create, destination)
            ∷ with_replaced files b destination rest))
          ((source, destination) ∷ transfers)
  with_transfer-Guarded source destination rest transfers false unless guarded =
      let s : Required = (source_operation, source) in
      let c : Required = (create, destination) in
      (
        adds (has_operation-first s (c ∷ rest))
            (has_operation-later c s _ (has_operation-first c rest)) unless,
        All-map (Guarded rest) (Guarded (s ∷ c ∷ rest)) transfers
            (λ t. Guarded-mono rest (s ∷ c ∷ rest) t (λ o. after_two s c o rest)) guarded,
      )
  with_transfer-Guarded source destination rest transfers true replaced guarded =
      let s : Required = (source_operation, source) in
      let c : Required = (create, destination) in
      let r : Required = (read, destination) in
      let x : Required = (delete, destination) in
      (
        overwrites (has_operation-first s (c ∷ r ∷ x ∷ rest))
            (has_operation-later c s _ (has_operation-first c (r ∷ x ∷ rest)))
            (after_two s c r (r ∷ x ∷ rest) (has_operation-first r (x ∷ rest)))
            (after_two s c x (r ∷ x ∷ rest)
              (has_operation-later x r _ (has_operation-first x rest))),
        All-map (Guarded rest) (Guarded (s ∷ c ∷ r ∷ x ∷ rest)) transfers
            (λ t.
              Guarded-mono rest (s ∷ c ∷ r ∷ x ∷ rest) t
                (λ o h. after_two s c o (r ∷ x ∷ rest) (after_two r x o rest h)))
            guarded,
      )

  operations_of-Guarded :
      (transfers : List Transfer)
      → All (Guarded (operations_of files source_operation transfers)) transfers
  unfolding operations_of
  operations_of-Guarded [] = tt
  operations_of-Guarded ((source, destination) ∷ transfers) =
      with_transfer-Guarded source destination _ transfers
        (replaces files source_operation destination) refl (operations_of-Guarded transfers)

  from_keys-all :
      (operations : List Required) (o : Required)
      → has_operation o operations ≡ true
      → has_operation o (from_keys [] operations) ≡ true
  unfolding has_operation
  from_keys-all operations o h = elim (from_keys-has o [] operations h) [
    | inl nowhere ↦ cc
    | inr taken ↦ taken
  ]

  -- The guard is asked for every transfer: for the operation on the source, the creation of the
  -- destination, and the read and the deletion of a destination that is replaced: one that exists and
  -- is no directory, or that a move finds. Removing repeated operations loses none of them.
  pub prepared_operations-Guarded :
      (transfers : List Transfer)
      → All (Guarded (prepared_operations files source_operation transfers)) transfers
  unfolding prepared_operations
  prepared_operations-Guarded transfers =
      let all = operations_of files source_operation transfers in
      All-map (Guarded all) (Guarded (from_keys [] all)) transfers
        (λ t. Guarded-mono all (from_keys [] all) t (from_keys-all all))
        (operations_of-Guarded transfers)
