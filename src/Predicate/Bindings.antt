-- ===== src/Predicate/Bindings.antt =====
-- act/predicates.py: the bindings of a predicate, built from an observation, a target and a
-- snapshot of the observation before the action.
use civ_sim_taskify.Prelude.{
  String, Bool, true, false, Option, none, some, List, [], ◌∷◌, str_eq, if◌then◌else◌,
}
use civ_sim_taskify.Models.Turn.{ObservationEntry}
pub use civ_sim_taskify.Models.Turn.{Observation}
use civ_sim_taskify.Models.Value.{
  Value, null, bool, text, arr, obj, Items, nil, cons, Fields, end, field,
}
use civ_sim_taskify.Predicate.Values.{codes, get_field, set_field, truthy, value_eq}
use civ_sim_taskify.Predicate.Symbols.{starts_with, observed_prefix}

-- `observation_index`: a later entry of the same declaration wins.
index_from : Fields → List ObservationEntry → Fields
index_from fs [] = fs
index_from fs (e ∷ es) = index_from (set_field fs e.declaration_id e.value) es

unfoldable pub observation_index : Observation → Fields
unfolding index_from
observation_index o = index_from end o.entries

abbrev renamed : List (String × String) → String → String
renamed [] k = k
renamed ((old, new) ∷ rs) k = if str_eq old k then new else renamed rs k

update_renamed : List (String × String) → Fields → Fields → Fields
update_renamed rs into end = into
update_renamed rs into (field k v fs) = update_renamed rs (set_field into (renamed rs k) v) fs

abbrev merge_one : List (String × String) → Fields → Option Value → Fields
merge_one rs into (some (obj fs)) = update_renamed rs into fs
merge_one rs into v = into

-- `_merge_fields`
merge_fields : Fields → List (String × String) → Fields → List String → Fields
unfolding update_renamed
merge_fields index rs into [] = into
merge_fields index rs into (d ∷ ds) =
    merge_fields index rs (merge_one rs into (get_field index d)) ds

abbrev set_default : Fields → String → Value → Fields
set_default fs k v = elim (get_field fs k) [ none ↦ set_field fs k v | some w ↦ fs ]

abbrev prompt_type_of : Value → Value
prompt_type_of (text s) = if starts_with (codes "prompt.") (codes s) then text s else null
prompt_type_of v = null

abbrev with_prompt_type : Fields → Option Value → Fields
with_prompt_type game none = game
with_prompt_type game (some screen) = set_default game "active_prompt_type" (prompt_type_of screen)

game_namespace : Fields → Fields
unfolding merge_fields starts_with
game_namespace index =
    let game =
      merge_fields index (("screen", "current_screen") ∷ []) end
        ("game.screen_state" ∷ "game.turn_state" ∷ []) in
    with_prompt_type game (get_field game "current_screen")

abbrev with_favor : Fields → Option Value → Fields
with_favor player (some (obj congress)) = elim (get_field congress "local_player_favor") [
  | none ↦ player
  | some v ↦ set_field player "diplomatic_favor" v
]
with_favor player v = player

player_namespace : Fields → Fields
unfolding merge_fields
player_namespace index =
    with_favor
      (merge_fields index [] end ("research.state" ∷ "government.state" ∷ "religion.state" ∷ []))
      (get_field index "congress.state")

abbrev or_else_value : Option Value → Value → Value
or_else_value none d = d
or_else_value (some v) d = v

-- `list(v or [])` of a JSON value that is a list.
abbrev as_list : Value → Value
as_list v = if truthy v then v else arr nil

abbrev prompt_of : Option Value → Fields
prompt_of (some (obj source)) = field "type" (or_else_value (get_field source "screen") null) (
    field "is_active"
      (bool (truthy (or_else_value (get_field source "has_blocking_prompt") (bool false))))
      (field "options" (as_list (or_else_value (get_field source "prompt_options") null)) end))
prompt_of v = field "type" null (field "is_active" (bool false) (field "options" (arr nil) end))

update_all : Fields → Fields → Fields
update_all into end = into
update_all into (field k v fs) = update_all (set_field into k v) fs

abbrev matches_id : Option Value → Value → Bool
matches_id none target = false
matches_id (some v) target = value_eq v target

-- The first item of the list whose id is the target.
bind_item : Fields → String → Value → Items → Fields
unfolding update_all
bind_item namespace id_field target nil = namespace
bind_item namespace id_field target (cons (obj item) items) =
    let later = bind_item namespace id_field target items in
    if matches_id (get_field item id_field) target
    then set_field (update_all namespace item) "exists" (bool true)
    else later
bind_item namespace id_field target (cons v items) = bind_item namespace id_field target items

abbrev bind_list : Fields → String → Value → Option Value → Fields
bind_list namespace id_field null items = namespace
bind_list namespace id_field target (some (arr items)) = bind_item namespace id_field target items
bind_list namespace id_field target v = namespace

abbrev with_fields : Fields → Fields → List String → Fields
with_fields namespace source [] = namespace
with_fields namespace source (k ∷ ks) =
    with_fields (elim (get_field source k) [ none ↦ namespace | some v ↦ set_field namespace k v ])
      source ks

-- `_bind_subject_namespace`
subject_namespace : Fields → Value → String → String → String → List String → Fields
unfolding bind_item
subject_namespace index target declaration_id list_field id_field extra =
    let namespace = field "exists" (bool false) end in
    elim (get_field index declaration_id) [
      | some (obj source) ↦
          bind_list (with_fields namespace source extra) id_field target
            (get_field source list_field)
      | _ ↦ namespace
    ]

-- Snapshot keys that carry the prefix.
with_snapshot : Fields → Fields → Fields
with_snapshot b end = b
with_snapshot b (field k v fs) =
    with_snapshot (if starts_with observed_prefix (codes k) then set_field b k v else b) fs

-- `build_predicate_bindings`: the nine namespaces, the target and the snapshot.
unfoldable pub build_predicate_bindings : Observation → Value → Fields → Fields
unfolding game_namespace player_namespace subject_namespace with_snapshot
build_predicate_bindings observation target snapshot =
    let index = observation_index observation in
    with_snapshot
      (field "game" (obj (game_namespace index)) (
        field "player" (obj (player_namespace index)) (
          field "prompt" (obj (prompt_of (get_field index "game.screen_state"))) (
            field "camera" (obj end) (
              field "target" target (
                field "unit"
                  (obj (subject_namespace index target "units.state" "units" "unit_id" []))
                  (field "city"
                    (obj (subject_namespace index target "cities.state" "cities" "city_id" []))
                    (field "other_player"
                      (obj (
                        subject_namespace index target "diplomacy.state" "relations" "player_id"
                          []))
                      (field "congress"
                        (obj (
                          subject_namespace index target "congress.state" "active_resolutions"
                            "resolution_id" ("is_in_session" ∷ [])))
                        (field "great_person"
                          (obj (
                            subject_namespace index target "great_people.state"
                              "recruitable_individuals" "individual_id" []))
                          (field "spy"
                            (obj (
                              subject_namespace index target "espionage.state" "spies" "unit_id"
                                []))
                            end)))))))))))
      snapshot
