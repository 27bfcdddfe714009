-- ===== src/Observe/Assemble/Entries.antt =====
-- What an assembled observation consists of.
use civ_sim_taskify.Prelude.{
  ℕ, String, ◌≡◌, refl, sym, ap, subst, ◌∙◌, ◌≢◌, inl, inr, Option, none, some, List, [], ◌∷◌, ◌++◌,
  ==_iff, Option-cases, arith,
}
use civ_sim_taskify.Errors.{ok, >>=-eq-ok, >>-eq-ok, ok-path}
use civ_sim_taskify.Models.Turn.{Observation, ObservationEntry}
use civ_sim_taskify.Models.Value.{Value}
use civ_sim_taskify.Observe.Schema.{Schema, schema_errors}
use civ_sim_taskify.Observe.Assemble.{
  Header, conforming, validate_output, entries_of, all_entries, assemble_observation,
}
use civ_sim_taskify.Act.Registry.{
  Catalog, ParityDeclaration, CapabilityResult, action, lookup_declaration, resolve,
  resolve_observable, filter_to_entries,
}
use civ_sim_taskify.Act.Attribution.{entry_of}

module _ (catalog : Catalog) where
  -- The result is one of a declaration of the catalog that is no action, whose id is its key and
  -- whose schema the value satisfies.
  pub record IsReadable (r : CapabilityResult) (e : ObservationEntry) : Type 0 where
    pub declaration : ParityDeclaration
    pub registered : lookup_declaration catalog.declarations r.declaration_id ≡ some declaration
    pub observable : declaration.kind ≢ action
    pub schema : Schema
    pub declared : declaration.output_schema ≡ some schema
    pub conforms : schema_errors schema r.value ≡ 0
    pub entry : e ≡ entry_of declaration r.value

  -- The entries are those of the results, one for each and in their order.
  abbrev pub Entries : List CapabilityResult → List ObservationEntry → Type 0
  Entries [] es = es ≡ []
  Entries (r ∷ rs) es =
      (e : ObservationEntry) × (rest : List ObservationEntry) × (es ≡ e ∷ rest)
      × IsReadable r e
      × Entries rs rest

  observable_of :
      (k : String) (d : ParityDeclaration)
      → resolve_observable catalog k ≡ ok d
      → (lookup_declaration catalog.declarations k ≡ some d) × (d.kind ≢ action)
  unfolding resolve_observable resolve
  observable_of k d h = elim (Option-cases (lookup_declaration catalog.declarations k)) [
    | inl n ↦ absurd (ground arith)
    | inr (c, e) ↦ let same : c ≡ d = ground arith in (e ∙ ap some same, λ q. ground arith)
  ]

  schema_of :
      (o : Option Schema) (v : Value)
      → conforming o v ≡ ok tt
      → (s : Schema) × (o ≡ some s) × (schema_errors s v ≡ 0)
  schema_of none v h = absurd (cc)
  schema_of (some s) v h = (s, refl, (==_iff (schema_errors s v) 0).0 (ground arith))

  module _
      (keyed : (k : String) (d : ParityDeclaration)
        → lookup_declaration catalog.declarations k ≡ some d
        → d.declaration_id ≡ k) where
    one :
        (r : CapabilityResult) (es : List ObservationEntry)
        → entries_of catalog r ≡ ok es
        → (e : ObservationEntry) × (es ≡ e ∷ []) × IsReadable r e
    unfolding entries_of validate_output filter_to_entries
    one r es h =
        let (d, p, q) = >>=-eq-ok (resolve_observable catalog r.declaration_id) _ h in
        let (v, w) = >>-eq-ok (validate_output d r.value) _ q in
        let (c, x, y) = >>=-eq-ok (resolve_observable catalog d.declaration_id) _ w in
        let (found, kind) = observable_of r.declaration_id d p in
        let (s, has, fits) = schema_of d.output_schema r.value v in
        let again : resolve_observable catalog d.declaration_id ≡ ok d =
          ap (resolve_observable catalog) (keyed r.declaration_id d found) ∙ p in
        let same : c ≡ d = ok-path (sym x ∙ again) in
        (
          entry_of d r.value,
          ok-path (sym y) ∙ ap (λ z. entry_of z r.value ∷ []) same,
          record {
            declaration = d;
            registered = found;
            observable = kind;
            schema = s;
            declared = has;
            conforms = fits;
            entry = refl;
          },
        )

    all_Entries :
        (rs : List CapabilityResult) (es : List ObservationEntry)
        → all_entries catalog rs ≡ ok es
        → Entries rs es
    unfolding all_entries
    all_Entries [] es h = sym (ok-path h)
    all_Entries (r ∷ rs) es h =
        let (first, p, q) = >>=-eq-ok (entries_of catalog r) _ h in
        let (rest, x, y) = >>=-eq-ok (all_entries catalog rs) _ q in
        let (e, s, readable) = one r first p in
        (e, rest, sym (ok-path y) ∙ ap (λ z. z ++ rest) s, readable, all_Entries rs rest x)

    -- With a catalog whose keys are the ids of its declarations, an observation that is assembled
    -- has one entry for each result, in their order, with the value that was read and the key and
    -- context of its declaration, which is of the catalog, is no action and has a schema that the
    -- value satisfies; it has the step, the identifiers, the time, the screen and the captures that
    -- the caller gives.
    pub assemble_observation-Entries :
        (h : Header) (results : List CapabilityResult) (screen : String) (captures : List ℕ)
        (o : Observation)
        → assemble_observation catalog h results screen captures ≡ ok o
        → Entries results o.entries
          × (o.decision_step_id ≡ h.decision_step_id)
          × (o.observation_id ≡ h.observation_id)
          × (o.screen_identity ≡ screen)
          × (o.captures ≡ captures)
          × (o.assembled_at ≡ h.assembled_at)
          × (o.catalog_version ≡ h.catalog_version)
    unfolding assemble_observation
    assemble_observation-Entries h results screen captures o e =
        let (es, p, q) = >>=-eq-ok (all_entries catalog results) _ e in
        let same = ok-path q in
        (
          subst (λ z. Entries results z.entries) same (all_Entries results es p),
          ap (λ z. z.decision_step_id) (sym same),
          ap (λ z. z.observation_id) (sym same),
          ap (λ z. z.screen_identity) (sym same),
          ap (λ z. z.captures) (sym same),
          ap (λ z. z.assembled_at) (sym same),
          ap (λ z. z.catalog_version) (sym same),
        )
