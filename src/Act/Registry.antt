-- ===== src/Act/Registry.antt =====
-- capability/registry.py and parity/filter.py: the loaded catalog, the lookup of a declaration, the
-- check of its Lua context, and the rule for what may become an observation entry.
use civ_sim_taskify.Prelude.{
  String, Bool, true, false, Option, none, some, List, [], ◌∷◌, str_eq, if◌then◌else◌,
}
use civ_sim_taskify.Errors.{
  Result, ok, err, catalog_error, wrong_context_error, observation_assembly_error, ◌>>=◌,
}
use civ_sim_taskify.Models.Value.{Value}
use civ_sim_taskify.Models.Turn.{ObservationEntry}
pub use civ_sim_taskify.Models.Turn.{LuaContext, game_core_tuner, in_game}
use civ_sim_taskify.Observe.Schema.{Schema}

pub data DeclarationKind : Type 0 where
  observation action view : DeclarationKind

-- models/catalog.py, with the fields that execution reads.
pub record ParityDeclaration : Type 0 where
  pub declaration_id : String
  pub kind : DeclarationKind
  pub context : LuaContext
  pub capability_id : String
  pub availability_predicate : Option String
  pub verification_predicate : Option String
  pub output_schema : Option Schema

pub record Catalog : Type 0 where
  pub declarations : List (String × ParityDeclaration)

abbrev pub lookup_declaration :
    List (String × ParityDeclaration) → String → Option ParityDeclaration
lookup_declaration [] k = none
lookup_declaration ((j, d) ∷ ds) k = if str_eq j k then some d else lookup_declaration ds k

abbrev or_catalog_error : Option ParityDeclaration → Result ParityDeclaration
or_catalog_error none = err catalog_error
or_catalog_error (some d) = ok d

-- `CapabilityRegistry.resolve`
unfoldable pub resolve : Catalog → String → Result ParityDeclaration
resolve catalog k = or_catalog_error (lookup_declaration catalog.declarations k)

abbrev pub same_context : LuaContext → LuaContext → Bool
same_context game_core_tuner game_core_tuner = true
same_context in_game in_game = true
same_context a b = false

-- `CapabilityRegistry.authorize`
unfoldable pub authorize : Catalog → String → LuaContext → Result ParityDeclaration
authorize catalog k context = do
  d ← resolve catalog k
  if same_context d.context context then ok d else err wrong_context_error

-- parity/filter.py
pub record CapabilityResult : Type 0 where
  pub declaration_id : String
  pub value : Value

abbrev pub observable_kind : ParityDeclaration → DeclarationKind → Result ParityDeclaration
observable_kind d action = err observation_assembly_error
observable_kind d observation = ok d
observable_kind d view = ok d

abbrev pub as_observable : Result ParityDeclaration → Result ParityDeclaration
as_observable (err e) = err observation_assembly_error
as_observable (ok d) = observable_kind d d.kind

-- `resolve_observable`
unfoldable pub resolve_observable : Catalog → String → Result ParityDeclaration
resolve_observable catalog k = as_observable (resolve catalog k)

-- `filter_to_entries`
unfoldable pub filter_to_entries : Catalog → CapabilityResult → Result (List ObservationEntry)
filter_to_entries catalog r = do
  d ← resolve_observable catalog r.declaration_id
  ok (
      record {
        declaration_id = d.declaration_id;
        key = d.declaration_id;
        value = r.value;
        context = d.context;
      }
      ∷ [])
