-- ===== src/Fields/Moves.antt =====
-- hushline/model/field_definition.py: move_down undoes move_up.
use Prim.Native.Nat.{◌-◌}
use hushline.Common.{
  rows-first, All-map, suc, ◌≡◌, refl, sym, ap, ◌∙◌, Bool, false, List, [], ◌∷◌, ◌==◌, nat_eq,
  arith, rows, found, one, one_or_none, All, Bool-cases, inl, inr,
}
use hushline.Fields.{
  FieldDefinition, Store, done, each, swapped, swap_with, is_at, move_up, move_down, is_posted,
}
use hushline.Fields.Valid.{Differ, IsValid, Apart, rows-Apart}
use hushline.Fields.Swap.{
  Swapped, Swapped-cases, swapped-first, swapped-second, at_place_of, other, exchanged,
}

found-one : {A : Type 0} (xs : List A) {x : A} → found xs ≡ one x → xs ≡ x ∷ []
found-one [] e = cc
found-one (x ∷ []) e = ap (λ y. y ∷ []) (cc e)
found-one (x ∷ y ∷ xs) e = cc

rows-each :
    (p q : FieldDefinition → Bool) (f : FieldDefinition → FieldDefinition)
    (ds : List FieldDefinition)
    → All (λ e. p (f e) ≡ q e) ds
    → rows p (each f ds) ≡ each f (rows q ds)
rows-each p q f [] h = refl
rows-each p q f (d ∷ ds) (h, hs) = elim (Bool-cases (q d)) [
  | inl e ↦ rw (h, e, rows-each p q f ds hs) refl
  | inr e ↦ rw (h, e, rows-each p q f ds hs) refl
]

each-each :
    (f g : FieldDefinition → FieldDefinition) (ds : List FieldDefinition)
    → All (λ e. g (f e) ≡ e) ds
    → each g (each f ds) ≡ ds
each-each f g [] h = refl
each-each f g (d ∷ ds) (h, hs) = rw (h, each-each f g ds hs) refl

All-zip :
    {A : Type 0} (P Q R : A → Type 0)
    → ((x : A) → P x → Q x → R x)
    → (xs : List A) → All P xs
    → All Q xs
    → All R xs
All-zip P Q R f [] h k = tt
All-zip P Q R f (x ∷ xs) (h, hs) (k, ks) = (f x h k, All-zip P Q R f xs hs ks)

-- After the swap the other field is at the place where the field was.
at_swapped :
    (d c e : FieldDefinition)
    → Differ d c
    → d.username_id ≡ c.username_id
    → d.sort_order ≡ suc c.sort_order
    → Swapped d c e
    → is_at d.username_id (suc c.sort_order) (swapped d c e) ≡ is_at d.username_id c.sort_order e
unfolding Swapped
at_swapped d c e h u o (inl (x, p)) = rw (p, x) (ground arith)
at_swapped d c e h u o (inr (inl (x, p))) = rw (p, x) (ground arith)
at_swapped d c e h u o (inr (inr (x, y, p))) = rw p (ground arith)

swapped_back :
    (d c e : FieldDefinition)
    → Differ d c
    → d.username_id ≡ c.username_id
    → Swapped d c e
    → swapped (at_place_of c d) (at_place_of d c) (swapped d c e) ≡ e
unfolding Swapped
swapped_back d c e h u (inl (x, p)) =
    rw p (swapped-first (at_place_of c d) (at_place_of d c) ∙ sym x)
swapped_back d c e h u (inr (inl (x, p))) =
    rw p (swapped-second (at_place_of c d) (at_place_of d c) (exchanged d c h u) ∙ sym x)
swapped_back d c e h u (inr (inr (x, y, p))) = rw (p, x.0, y.0) refl

-- A field that moves up past another one and then down is where it was, and so is everything else, if
-- the fields have different ids and places.
pub move_up-move_down :
    (d c : FieldDefinition) (st : Store)
    → IsValid st
    → one_or_none (is_posted d.username_id d.id) st.definitions ≡ one d
    → (d.sort_order == 0) ≡ false
    → one_or_none (is_at d.username_id (d.sort_order - 1)) st.definitions ≡ one c
    → (after : Store) × (move_up d st ≡ done after) × (move_down (at_place_of c d) after ≡ done st)
unfolding move_up move_down
move_up-move_down d c st (k, l) e z f =
    let ds = st.definitions in
    let p = is_at d.username_id (d.sort_order - 1) in
    let s = found-one (rows p ds) f in
    let ad =
      rows-Apart (is_posted d.username_id d.id) ds k
        (found-one (rows (is_posted d.username_id d.id) ds) e) in
    let (m, t) = rows-first p (Apart d) ds s ad in
    let h = other d c d.username_id (d.sort_order - 1) m (ground arith) t in
    let u : d.username_id ≡ c.username_id = ground arith in
    let o : d.sort_order ≡ suc c.sort_order = ground arith in
    let v : d.sort_order - 1 ≡ c.sort_order = ground arith in
    let cases =
      All-zip (Apart d) (Apart c) (Swapped d c) (λ x y w. Swapped-cases d c x h y w) ds ad
        (rows-Apart p ds k s) in
    let below : rows (is_at d.username_id (suc c.sort_order)) (each (swapped d c) ds)
        ≡ at_place_of d c ∷ [] =
      rows-each _ (is_at d.username_id c.sort_order) (swapped d c) ds
        (All-map (λ x y. at_swapped d c x h u o y) ds cases)
      ∙ ap (each (swapped d c)) (rw v at s)
      ∙ ap (λ x. x ∷ []) (swapped-second d c h) in
    let after = record st { definitions = each (swapped d c) ds } in
    (
      after,
      rw (z, f) refl,
      ap (λ es. swap_with (at_place_of c d) after (found es)) below
          ∙ ap (λ es. done (record st { definitions = es }))
              (each-each (swapped d c) (swapped (at_place_of c d) (at_place_of d c)) ds
                (All-map (λ x y. swapped_back d c x h u y) ds cases)),
    )
