-- ===== src/Fields.antt =====
-- The fields of a username's form: hushline/model/field_definition.py, and in hushline/settings/common.py
-- handle_field_post.
pub mod Valid
pub mod Swap
pub mod Posts
pub mod Succeed
pub mod Moves
mod Tests
use Prim.Native.Nat.{◌-◌}
use hushline.Common.{
  ℕ, suc, Bool, true, false, ◌&&◌, Option, none, some, List, [], ◌∷◌, ◌++◌, String, if◌then◌else◌,
  ◌==◌, nat_eq, option_eq, leb, any, Found, absent, one, multiple, one_or_none,
}
use hushline.UserDeletion.{FieldValueRow, without}

-- hushline/model/enums.py
pub data FieldType : Type 0 where
  text multiline_text choice_single choice_multiple : FieldType

pub record FieldDefinition : Type 0 where
  pub id : ℕ
  pub username_id : ℕ
  pub label : String
  pub field_type : FieldType
  pub required : Bool
  pub enabled : Bool
  pub encrypted : Bool
  pub choices : List String
  pub sort_order : ℕ

-- The tables, with the next id of the primary key.
pub record Store : Type 0 where
  pub next_id : ℕ
  pub definitions : List FieldDefinition
  pub field_values : List FieldValueRow

-- A form that passed its validators; the id is `none` where `int` raises.
pub record FieldForm : Type 0 where
  pub id : Option ℕ
  pub label : String
  pub field_type : FieldType
  pub required : Bool
  pub enabled : Bool
  pub encrypted : Bool
  pub choices : List String

-- The names of buttons that are in the request's form.
pub record Buttons : Type 0 where
  pub submit : Bool
  pub update : Bool
  pub delete : Bool
  pub move_up : Bool
  pub move_down : Bool

-- A redirection, no response, `abort(404)`, and an exception, which rolls back.
pub data Outcome : Type 0 where
  done : Store → Outcome
  no_response not_found raised : Outcome

-- UniqueConstraint("username_id", "sort_order")
abbrev pub same_place : FieldDefinition → FieldDefinition → Bool
same_place d e = d.username_id == e.username_id && d.sort_order == e.sort_order

-- `coalesce(max(sort_order), 0)` for the username
abbrev pub max_sort_order : ℕ → List FieldDefinition → ℕ
max_sort_order username [] = 0
max_sort_order username (d ∷ ds) =
    let rest = max_sort_order username ds in
    if d.username_id == username && leb rest d.sort_order then d.sort_order else rest

abbrev pub new_definition : ℕ → FieldForm → Store → FieldDefinition
new_definition username form st = record {
  id = st.next_id;
  username_id = username;
  label = form.label;
  field_type = form.field_type;
  required = form.required;
  enabled = form.enabled;
  encrypted = form.encrypted;
  choices = form.choices;
  sort_order = suc (max_sort_order username st.definitions);
}

abbrev pub insert_definition : FieldDefinition → Store → Outcome
insert_definition d st =
    if any (same_place d) st.definitions
    then raised
    else done (record st { next_id = suc st.next_id; definitions = d ∷ st.definitions })

unfoldable pub add_field : ℕ → FieldForm → Store → Outcome
add_field username form st = insert_definition (new_definition username form st) st

abbrev pub filled : FieldForm → FieldDefinition → FieldDefinition
filled form d = record d {
  label = form.label;
  field_type = form.field_type;
  required = form.required;
  enabled = form.enabled;
  encrypted = form.encrypted;
  choices = form.choices;
}

abbrev pub each : (FieldDefinition → FieldDefinition) → List FieldDefinition → List FieldDefinition
each f [] = []
each f (d ∷ ds) = f d ∷ each f ds

abbrev pub fill_one : FieldForm → ℕ → FieldDefinition → FieldDefinition
fill_one form i d = if d.id == i then filled form d else d

unfoldable pub update_field : FieldForm → FieldDefinition → Store → Outcome
update_field form d st = done (record st { definitions = each (fill_one form d.id) st.definitions })

unfoldable pub delete_field : FieldDefinition → Store → Outcome
delete_field d st = done (record st {
  field_values =
      without (λ (v : FieldValueRow). v.field_definition_id == some d.id) st.field_values;
  definitions = without (λ (e : FieldDefinition). e.id == d.id) st.definitions;
})

-- The two fields swap places; the temporary values -1 and -2 keep the constraint in between.
abbrev pub swapped : FieldDefinition → FieldDefinition → FieldDefinition → FieldDefinition
swapped a b d =
    if d.id == a.id
    then record d { sort_order = b.sort_order }
    else if d.id == b.id
    then record d { sort_order = a.sort_order }
    else d

abbrev pub swap_with : FieldDefinition → Store → Found FieldDefinition → Outcome
swap_with d st absent = done st
swap_with d st (one e) = done (record st { definitions = each (swapped d e) st.definitions })
swap_with d st multiple = raised

abbrev pub is_at : ℕ → ℕ → FieldDefinition → Bool
is_at username place e = e.username_id == username && e.sort_order == place

unfoldable pub move_up : FieldDefinition → Store → Outcome
move_up d st =
    if d.sort_order == 0
    then done st
    else swap_with d st (one_or_none (is_at d.username_id (d.sort_order - 1)) st.definitions)

unfoldable pub move_down : FieldDefinition → Store → Outcome
move_down d st =
    swap_with d st (one_or_none (is_at d.username_id (suc d.sort_order)) st.definitions)

abbrev pub is_posted : ℕ → ℕ → FieldDefinition → Bool
is_posted username i d = d.id == i && d.username_id == username

-- `_field_definition_for_posted_id`, and the rest of the handler after it
abbrev pub with_found : Found FieldDefinition → (FieldDefinition → Outcome) → Outcome
with_found absent next = not_found
with_found (one d) next = next d
with_found multiple next = raised

abbrev pub with_posted_id : ℕ → Option ℕ → Store → (FieldDefinition → Outcome) → Outcome
with_posted_id username none st next = not_found
with_posted_id username (some i) st next =
    with_found (one_or_none (is_posted username i) st.definitions) next

-- The handler without a form is for one that its validators refused.
unfoldable pub handle_field_post : ℕ → Option FieldForm → Buttons → Store → Outcome
handle_field_post username none pressed st = no_response
handle_field_post username (some form) pressed st =
    let found_then = with_posted_id username form.id st in
    if pressed.submit
    then add_field username form st
    else if pressed.update
    then found_then (λ d. update_field form d st)
    else if pressed.delete
    then found_then (λ d. delete_field d st)
    else if pressed.move_up
    then found_then (λ d. move_up d st)
    else if pressed.move_down
    then found_then (λ d. move_down d st)
    else no_response
