-- ===== src/Fields/Posts.antt =====
-- hushline/settings/common.py, handle_field_post: what its requests keep.
use Prim.Native.Nat.{◌-◌}
use hushline.Common.{
  rows-All, All-map, ℕ, suc, ◌≡◌, ◌<◌, refl, Bool, false, not, Option, none, some, List, [], ◌∷◌,
  ◌==◌, nat_eq, arith, any, rows, found, All, Bool-cases, inl, inr, ◌⊎◌,
}
use hushline.UserDeletion.{without}
use hushline.Fields.{
  FieldDefinition, FieldForm, Store, Outcome, done, no_response, not_found, same_place,
  max_sort_order, insert_definition, fill_one, each, update_field, delete_field, move_up, move_down,
  is_posted, with_found, with_posted_id,
}
use hushline.Fields.Valid.{Differ, AreDistinct, IsValid, Apart, rows-Apart, rows-two, All-each}
use hushline.Fields.Swap.{swap_with-IsValid}

-- A request did not raise, and what it stored is valid.
abbrev pub Succeeds : Outcome → Type 0
Succeeds o =
    (o ≡ no_response) ⊎ (o ≡ not_found) ⊎ ((after : Store) × (o ≡ done after) × IsValid after)

no_place :
    (d : FieldDefinition) (ds : List FieldDefinition)
    → max_sort_order d.username_id ds < d.sort_order
    → any (same_place d) ds ≡ false
no_place d [] h = refl
no_place d (e ∷ ds) h = ground (arith, no_place d ds)

All-Differ :
    (d : FieldDefinition) (ds : List FieldDefinition)
    → any (same_place d) ds ≡ false
    → All (λ (e : FieldDefinition). e.id < d.id) ds
    → All (Differ d) ds
All-Differ d [] h l = tt
All-Differ d (e ∷ ds) h (l, ls) = ((ground arith, ground arith), All-Differ d ds (ground arith) ls)

pub insert_definition-Succeeds :
    (d : FieldDefinition) (st : Store)
    → d.id ≡ st.next_id
    → max_sort_order d.username_id st.definitions < d.sort_order
    → IsValid st
    → Succeeds (insert_definition d st)
insert_definition-Succeeds d st i m (k, l) =
    let free : any (same_place d) st.definitions ≡ false = no_place d st.definitions m in
    rw free (
      inr (
        inr (
          record st { next_id = suc st.next_id; definitions = d ∷ st.definitions },
          refl,
          (
            (All-Differ d st.definitions free (rw i l), k),
            (omega (arith, i), All-map (λ x y. omega arith) st.definitions l),
          ),
        )))

filled-same :
    (form : FieldForm) (i : ℕ) (d : FieldDefinition)
    → (e : FieldDefinition) → Differ d e
    → Differ (fill_one form i d) (fill_one form i e)
filled-same form i d e h = elim (Bool-cases (d.id == i)) [
  | inl a ↦ elim (Bool-cases (e.id == i)) [ inl b ↦ rw (a, b) h | inr b ↦ rw (a, b) h ]
  | inr a ↦ elim (Bool-cases (e.id == i)) [ inl b ↦ rw (a, b) h | inr b ↦ rw (a, b) h ]
]

update-AreDistinct :
    (form : FieldForm) (i : ℕ) (ds : List FieldDefinition)
    → AreDistinct ds
    → AreDistinct (each (fill_one form i) ds)
update-AreDistinct form i [] k = tt
update-AreDistinct form i (d ∷ ds) (f, k) = (go ds f, update-AreDistinct form i ds k)
  where
    go :
        (es : List FieldDefinition)
        → All (Differ d) es
        → All (Differ (fill_one form i d)) (each (fill_one form i) es)
    go [] f = tt
    go (e ∷ es) (f, fs) = (filled-same form i d e f, go es fs)

without-AreDistinct :
    (p : FieldDefinition → Bool) (ds : List FieldDefinition)
    → AreDistinct ds
    → AreDistinct (without p ds)
without-AreDistinct p [] k = tt
without-AreDistinct p (d ∷ ds) (f, k) = elim (Bool-cases (p d)) [
  | inl e ↦ rw e (without-AreDistinct p ds k)
  | inr e ↦ rw e (rows-All (Differ d) (λ e. not (p e)) ds f, without-AreDistinct p ds k)
]

filled-id : (form : FieldForm) (i : ℕ) (d : FieldDefinition) → (fill_one form i d).id ≡ d.id
filled-id form i d = elim (Bool-cases (d.id == i)) [ inl e ↦ rw e refl | inr e ↦ rw e refl ]

pub update_field-Succeeds :
    (form : FieldForm) (d : FieldDefinition) (st : Store)
    → IsValid st
    → Succeeds (update_field form d st)
unfolding update_field
update_field-Succeeds form d st (k, l) = inr (
    inr (
      record st { definitions = each (fill_one form d.id) st.definitions },
      refl,
      (
        update-AreDistinct form d.id st.definitions k,
        All-each (fill_one form d.id) (λ x y. rw (filled-id form d.id x) y) st.definitions l,
      ),
    ))

pub delete_field-Succeeds :
    (d : FieldDefinition) (st : Store) → IsValid st → Succeeds (delete_field d st)
unfolding delete_field
delete_field-Succeeds d st (k, l) =
    inr (inr (_, refl, (without-AreDistinct _ st.definitions k, rows-All _ _ st.definitions l)))

-- The field that moves is in the table.
pub move_up-Succeeds :
    (d : FieldDefinition) (st : Store)
    → IsValid st
    → All (Apart d) st.definitions
    → Succeeds (move_up d st)
unfolding move_up
move_up-Succeeds d st k a = elim (Bool-cases (d.sort_order == 0)) [
  | inl e ↦ rw e (inr (inr (st, refl, k)))
  | inr e ↦ rw e (
      inr (
        inr
          (swap_with-IsValid d d.username_id (d.sort_order - 1) st _ k a refl (ground arith) refl)))
]

pub move_down-Succeeds :
    (d : FieldDefinition) (st : Store)
    → IsValid st
    → All (Apart d) st.definitions
    → Succeeds (move_down d st)
unfolding move_down
move_down-Succeeds d st k a =
    inr
      (inr (swap_with-IsValid d d.username_id (suc d.sort_order) st _ k a refl (ground arith) refl))

pub with_posted_id-Succeeds :
    (username : ℕ) (id : Option ℕ) (st : Store) (next : FieldDefinition → Outcome)
    → IsValid st
    → ((d : FieldDefinition) → All (Apart d) st.definitions → Succeeds (next d))
    → Succeeds (with_posted_id username id st next)
with_posted_id-Succeeds username none st next k h = inr (inl refl)
with_posted_id-Succeeds username (some i) st next (k, l) h =
    go (rows (is_posted username i) st.definitions) refl
  where
    go :
        (ds : List FieldDefinition)
        → rows (is_posted username i) st.definitions ≡ ds
        → Succeeds (with_found (found ds) next)
    go [] e = inr (inl refl)
    go (d ∷ []) e = h d (rows-Apart (is_posted username i) st.definitions k e)
    go (c ∷ d ∷ ds) e =
        let (f, p, q) = rows-two (is_posted username i) st.definitions k e in
        absurd (ground (arith, f))
