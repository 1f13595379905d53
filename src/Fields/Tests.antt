-- ===== src/Fields/Tests.antt =====
-- hushline/settings/common.py, handle_field_post, on the two default fields of a username.
use hushline.Common.{ℕ, ◌≡◌, refl, true, false, arith, Option, none, some, List, [], ◌∷◌}
use hushline.Fields.{
  text, multiline_text, FieldDefinition, FieldForm, Store, Buttons, done, not_found, add_field,
  move_up, move_down, handle_field_post,
}
use hushline.Fields.Valid.{IsValid}
use hushline.Fields.Swap.{at_place_of}
use hushline.Fields.Succeed.{post_each, field_posts_succeed}
use hushline.Fields.Moves.{move_up-move_down}

abbrev contact : FieldDefinition
contact = record {
  id = 1;
  username_id = 7;
  label = "Contact Method";
  field_type = text;
  required = false;
  enabled = true;
  encrypted = true;
  choices = [];
  sort_order = 0;
}

abbrev message : FieldDefinition
message = record {
  id = 2;
  username_id = 7;
  label = "Message";
  field_type = multiline_text;
  required = true;
  enabled = true;
  encrypted = true;
  choices = [];
  sort_order = 1;
}

abbrev fields : Store
fields = record { next_id = 3; definitions = contact ∷ message ∷ []; field_values = [] }

abbrev fields-IsValid : IsValid fields
fields-IsValid = ((((refl, refl), tt), (tt, tt)), (omega arith, (omega arith, tt)))

abbrev form : Option ℕ → FieldForm
form id = record {
  id = id;
  label = "City";
  field_type = text;
  required = false;
  enabled = true;
  encrypted = true;
  choices = [];
}

abbrev no_button : Buttons
no_button = record {
  submit = false;
  update = false;
  delete = false;
  move_up = false;
  move_down = false;
}

abbrev city : FieldDefinition
city = record contact { id = 3; label = "City"; sort_order = 2 }

field_is_added :
    handle_field_post 7 (some (form none)) (record no_button { submit = true }) fields
    ≡ done (record fields { next_id = 4; definitions = city ∷ contact ∷ message ∷ [] })
unfolding handle_field_post add_field
field_is_added = refl

-- The field is not one of the username.
foreign_field_is_not_found :
    handle_field_post 8 (some (form (some 2))) (record no_button { delete = true }) fields
    ≡ not_found
unfolding handle_field_post
foreign_field_is_not_found = refl

-- Below a gap that a deletion left, a field that is moved up stays.
abbrev gap : Store
gap = record fields { next_id = 4; definitions = contact ∷ city ∷ [] }

gap_is_not_crossed :
    handle_field_post 7 (some (form (some 3))) (record no_button { move_up = true }) gap ≡ done gap
unfolding handle_field_post move_up
gap_is_not_crossed = refl

move_up-move_down_example :
    (after : Store) × (move_up message fields ≡ done after)
    × (move_down (at_place_of contact message) after ≡ done fields)
move_up-move_down_example = move_up-move_down message contact fields fields-IsValid refl refl refl

abbrev posts : List (ℕ × Option FieldForm × Buttons)
posts =
    (7, some (form none), record no_button { submit = true })
    ∷ (7, some (form (some 1)), record no_button { delete = true })
    ∷ (7, some (form (some 3)), record no_button { move_up = true })
    ∷ (7, none, no_button)
    ∷ []

field_posts_succeed_example :
    (after : Store) × (post_each posts fields ≡ some after) × IsValid after
field_posts_succeed_example = field_posts_succeed posts fields fields-IsValid
