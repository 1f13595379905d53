-- ===== src/Fields/Succeed.antt =====
-- hushline/settings/common.py, handle_field_post: requests about fields one after the other.
use hushline.Common.{
  arith, ℕ, ◌≡◌, refl, Bool, true, false, Option, none, some, List, [], ◌∷◌, inl, inr,
}
use hushline.Fields.{
  FieldForm, Store, Buttons, Outcome, done, no_response, not_found, raised, new_definition,
  add_field, handle_field_post,
}
use hushline.Fields.Valid.{IsValid}
use hushline.Fields.Posts.{
  Succeeds, insert_definition-Succeeds, update_field-Succeeds, delete_field-Succeeds,
  move_up-Succeeds, move_down-Succeeds, with_posted_id-Succeeds,
}

-- Each request is for a username of the user, with the form that was posted and the buttons pressed;
-- `none` stands for an exception on the way.
abbrev pub stored : Store → Outcome → (Store → Option Store) → Option Store
stored st (done after) next = next after
stored st no_response next = next st
stored st not_found next = next st
stored st raised next = none

unfoldable pub post_each : List (ℕ × Option FieldForm × Buttons) → Store → Option Store
post_each [] st = some st
post_each ((username, form, pressed) ∷ ps) st =
    stored st (handle_field_post username form pressed st) (post_each ps)

handle_field_post-Succeeds :
    (username : ℕ) (form : Option FieldForm) (pressed : Buttons) (st : Store)
    → IsValid st
    → Succeeds (handle_field_post username form pressed st)
unfolding handle_field_post add_field
handle_field_post-Succeeds username none pressed st k = inl refl
handle_field_post-Succeeds username (some form) pressed st k =
    go pressed.submit pressed.update pressed.delete pressed.move_up pressed.move_down
  where
    go :
        (submit update delete up down : Bool)
        → Succeeds (
            handle_field_post username
              (some form)
              (record {
                submit = submit;
                update = update;
                delete = delete;
                move_up = up;
                move_down = down;
              })
              st)
    go true _ _ _ _ =
        insert_definition-Succeeds (new_definition username form st) st refl (omega arith) k
    go false true _ _ _ =
        with_posted_id-Succeeds username form.id st _ k (λ d _. update_field-Succeeds form d st k)
    go false false true _ _ =
        with_posted_id-Succeeds username form.id st _ k (λ d _. delete_field-Succeeds d st k)
    go false false false true _ =
        with_posted_id-Succeeds username form.id st _ k (λ d a. move_up-Succeeds d st k a)
    go false false false false true =
        with_posted_id-Succeeds username form.id st _ k (λ d a. move_down-Succeeds d st k a)
    go false false false false false = inl refl

each_outcome :
    (st : Store) (o : Outcome) (next : Store → Option Store)
    → IsValid st
    → Succeeds o
    → ((mid : Store) → IsValid mid → (after : Store) × (next mid ≡ some after) × IsValid after)
    → (after : Store) × (stored st o next ≡ some after) × IsValid after
each_outcome st o next k (inl e) h = rw e (h st k)
each_outcome st o next k (inr (inl e)) h = rw e (h st k)
each_outcome st o next k (inr (inr (mid, e, l))) h = rw e (h mid l)

-- However fields are added, updated, deleted and moved, for whatever usernames, no request raises, so
-- none breaks the constraint that no two fields of a username have one place, and the fields' ids stay
-- different and below the next one; if this is so at first.
pub field_posts_succeed :
    (ps : List (ℕ × Option FieldForm × Buttons)) (st : Store)
    → IsValid st
    → (after : Store) × (post_each ps st ≡ some after) × IsValid after
unfolding post_each
field_posts_succeed [] st k = (st, refl, k)
field_posts_succeed ((username, form, pressed) ∷ ps) st k =
    each_outcome st (handle_field_post username form pressed st) (post_each ps) k
      (handle_field_post-Succeeds username form pressed st k)
      (λ mid l. field_posts_succeed ps mid l)
