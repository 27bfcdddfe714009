-- ===== src/Act/Attribution.antt =====
-- What may become an entry of an observation.
use civ_sim_taskify.Prelude.{
  ◌≡◌, ◌≢◌, inl, inr, ◌⊎◌, none, some, List, [], ◌∷◌, Option-cases, arith,
}
use civ_sim_taskify.Errors.{ok, err, observation_assembly_error}
use civ_sim_taskify.Models.Value.{Value}
use civ_sim_taskify.Models.Turn.{ObservationEntry}
use civ_sim_taskify.Act.Registry.{
  Catalog, CapabilityResult, ParityDeclaration, action, lookup_declaration, resolve,
  resolve_observable, filter_to_entries,
}

-- The entry of a declaration with a value.
abbrev pub entry_of : ParityDeclaration → Value → ObservationEntry
entry_of d v = record {
  declaration_id = d.declaration_id;
  key = d.declaration_id;
  value = v;
  context = d.context;
}

module _ (catalog : Catalog) (r : CapabilityResult) where
  -- Whatever passes the filter is one entry, with the value that was read, attributed to a
  -- declaration of the catalog that is no action.
  pub filter_to_entries_attributes :
      (es : List ObservationEntry)
      → filter_to_entries catalog r ≡ ok es
      → (d : ParityDeclaration) × (lookup_declaration catalog.declarations r.declaration_id
          ≡ some d)
        × (d.kind ≢ action)
        × (es ≡ entry_of d r.value ∷ [])
  unfolding filter_to_entries resolve_observable resolve
  filter_to_entries_attributes es h =
      elim (Option-cases (lookup_declaration catalog.declarations r.declaration_id)) [
        | inl n ↦ absurd (ground arith)
        | inr (d, e) ↦ (d, e, (λ k. ground arith), ground arith)
      ]

  -- A result of an unknown declaration or of an action is refused.
  pub filter_to_entries_refuses :
      ((lookup_declaration catalog.declarations r.declaration_id ≡ none)
        ⊎ ((d : ParityDeclaration) × (lookup_declaration catalog.declarations r.declaration_id
              ≡ some d)
            × (d.kind ≡ action)))
      → filter_to_entries catalog r ≡ err observation_assembly_error
  unfolding filter_to_entries resolve_observable resolve
  filter_to_entries_refuses (inl n) = ground arith
  filter_to_entries_refuses (inr (d, e, k)) = ground arith
