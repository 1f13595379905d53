-- ===== src/Fields/Swap.antt =====
-- hushline/model/field_definition.py, move_up and move_down: two fields that swap their places.
use hushline.Common.{
  rows-first, ℕ, ◌≡◌, refl, sym, ap, ◌∙◌, true, false, List, [], ◌∷◌, ◌==◌, nat_eq, nat_beq_iff,
  arith, rows, found, All, Bool-cases, inl, inr, ◌⊎◌,
}
use hushline.Fields.{FieldDefinition, Store, done, each, swapped, swap_with, is_at}
use hushline.Fields.Valid.{
  Differ, AreDistinct, IsValid, Apart, Differ-sym, rows-Apart, rows-two, All-each,
}

swapped-id : (a b d : FieldDefinition) → (swapped a b d).id ≡ d.id
swapped-id a b d = elim (Bool-cases (d.id == a.id)) [
  | inl e ↦ rw e refl
  | inr e ↦ elim (Bool-cases (d.id == b.id)) [ inl f ↦ rw (e, f) refl | inr f ↦ rw (e, f) refl ]
]

-- Where a row of the table is after the swap.
unfoldable pub Swapped : FieldDefinition → FieldDefinition → FieldDefinition → Type 0
Swapped a b d =
    (d ≡ a) × (swapped a b d ≡ record a { sort_order = b.sort_order })
    ⊎ (d ≡ b) × (swapped a b d ≡ record b { sort_order = a.sort_order })
    ⊎ Differ d a × Differ d b × (swapped a b d ≡ d)

abbrev pub at_place_of : FieldDefinition → FieldDefinition → FieldDefinition
at_place_of b a = record a { sort_order = b.sort_order }

abbrev id_of : FieldDefinition → ℕ
id_of d = d.id

pub swapped-first : (a b : FieldDefinition) → swapped a b a ≡ record a { sort_order = b.sort_order }
swapped-first a b = rw ((nat_beq_iff a.id a.id).1 refl) refl

pub swapped-second :
    (a b : FieldDefinition) → Differ a b → swapped a b b ≡ record b { sort_order = a.sort_order }
swapped-second a b h =
    let i : (b.id == a.id) ≡ false = (Differ-sym a b h).0 in
    rw (i, (nat_beq_iff b.id b.id).1 refl) refl

-- A row that differs from two rows of one username differs from either at the other's place.
placed :
    (a b d : FieldDefinition)
    → a.username_id ≡ b.username_id
    → Differ d a
    → Differ d b
    → Differ d (record a { sort_order = b.sort_order })
placed a b d u (i, p) (j, q) = (i, rw u q)

pub exchanged :
    (a b : FieldDefinition)
    → Differ a b
    → a.username_id ≡ b.username_id
    → Differ (record a { sort_order = b.sort_order }) (record b { sort_order = a.sort_order })
exchanged a b (i, p) u = (i, ground arith)

pub Swapped-cases : (a b d : FieldDefinition) → Differ a b → Apart a d → Apart b d → Swapped a b d
unfolding Swapped
Swapped-cases a b d h (inl e) _ = inl (e, ap (swapped a b) e ∙ swapped-first a b)
Swapped-cases a b d h (inr (i, p)) (inl e) =
    inr (inl (e, ap (swapped a b) e ∙ swapped-second a b h))
Swapped-cases a b d h (inr (i, p)) (inr (j, q)) = inr (inr ((i, p), (j, q), rw (i, j) refl))

swapped-Differ :
    (a b d e : FieldDefinition)
    → Differ a b
    → a.username_id ≡ b.username_id
    → Differ d e
    → Swapped a b d
    → Swapped a b e
    → Differ (swapped a b d) (swapped a b e)
unfolding Swapped
swapped-Differ a b d e h u k (inl (x, p)) (inl (y, q)) =
    absurd (ground (arith, ap id_of x, ap id_of y))
swapped-Differ a b d e h u k (inl (x, p)) (inr (inl (y, q))) = rw (p, q) (exchanged a b h u)
swapped-Differ a b d e h u k (inl (x, p)) (inr (inr (y, z, q))) =
    rw (p, q) (Differ-sym e (at_place_of b a) (placed a b e u y z))
swapped-Differ a b d e h u k (inr (inl (x, p))) (inl (y, q)) =
    rw (p, q) (Differ-sym (at_place_of b a) (at_place_of a b) (exchanged a b h u))
swapped-Differ a b d e h u k (inr (inl (x, p))) (inr (inl (y, q))) =
    absurd (ground (arith, ap id_of x, ap id_of y))
swapped-Differ a b d e h u k (inr (inl (x, p))) (inr (inr (y, z, q))) =
    rw (p, q) (Differ-sym e (at_place_of a b) (placed b a e (sym u) z y))
swapped-Differ a b d e h u k (inr (inr (x, w, p))) (inl (y, q)) = rw (p, q) (placed a b d u x w)
swapped-Differ a b d e h u k (inr (inr (x, w, p))) (inr (inl (y, q))) =
    rw (p, q) (placed b a d (sym u) w x)
swapped-Differ a b d e h u k (inr (inr (x, w, p))) (inr (inr (y, z, q))) = rw (p, q) k

swapped-All :
    (a b d : FieldDefinition) (ds : List FieldDefinition)
    → Differ a b
    → a.username_id ≡ b.username_id
    → Apart a d × Apart b d
    → All (Apart a) ds
    → All (Apart b) ds
    → All (Differ d) ds
    → All (Differ (swapped a b d)) (each (swapped a b) ds)
swapped-All a b d [] h u k ka kb f = tt
swapped-All a b d (e ∷ ds) h u (p, q) (k, ka) (l, kb) (f, fs) = (
  swapped-Differ a b d e h u f (Swapped-cases a b d h p q) (Swapped-cases a b e h k l),
  swapped-All a b d ds h u (p, q) ka kb fs,
)

pub swapped-AreDistinct :
    (a b : FieldDefinition) (ds : List FieldDefinition)
    → Differ a b
    → a.username_id ≡ b.username_id
    → All (Apart a) ds
    → All (Apart b) ds
    → AreDistinct ds
    → AreDistinct (each (swapped a b) ds)
swapped-AreDistinct a b [] h u ka kb k = tt
swapped-AreDistinct a b (d ∷ ds) h u (p, ka) (q, kb) (f, k) =
    (swapped-All a b d ds h u (p, q) ka kb f, swapped-AreDistinct a b ds h u ka kb k)

pub other :
    (d c : FieldDefinition) (username place : ℕ)
    → Apart d c
    → (d.sort_order == place) ≡ false
    → is_at username place c ≡ true
    → Differ d c
other d c username place (inl e) n t =
    absurd (ground (arith, ap (λ (x : FieldDefinition). x.sort_order) e))
other d c username place (inr h) n t = Differ-sym c d h

pub swap_with-IsValid :
    (d : FieldDefinition) (username place : ℕ) (st : Store) (ms : List FieldDefinition)
    → IsValid st
    → All (Apart d) st.definitions
    → d.username_id ≡ username
    → (d.sort_order == place) ≡ false
    → rows (is_at username place) st.definitions ≡ ms
    → (after : Store) × (swap_with d st (found ms) ≡ done after) × IsValid after
swap_with-IsValid d username place st [] k a u n e = (st, refl, k)
swap_with-IsValid d username place st (c ∷ []) (k, l) a u n e =
    let (m, t) = rows-first (is_at username place) (Apart d) st.definitions e a in
    let b = rows-Apart (is_at username place) st.definitions k e in
    let v : d.username_id ≡ c.username_id = ground arith in
    let h : Differ d c = other d c username place m n t in
    (
      record st { definitions = each (swapped d c) st.definitions },
      refl,
      (
        swapped-AreDistinct d c st.definitions h v a b k,
        All-each (swapped d c) (λ x y. rw (swapped-id d c x) y) st.definitions l,
      ),
    )
swap_with-IsValid d username place st (c ∷ e ∷ ms) (k, l) a u n r =
    let (h, p, q) = rows-two (is_at username place) st.definitions k r in absurd (ground (arith, h))
