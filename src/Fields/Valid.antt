-- ===== src/Fields/Valid.antt =====
-- hushline/settings/common.py, handle_field_post: the ids and the places of a username's fields.
use hushline.Common.{
  rows-first, All-map, ◌≡◌, ◌<◌, Bool, true, false, List, [], ◌∷◌, ◌==◌, nat_eq, arith, rows, All,
  Bool-cases, inl, inr, ◌⊎◌,
}
use hushline.Fields.{FieldDefinition, Store, same_place, each}

abbrev pub same_id : FieldDefinition → FieldDefinition → Bool
same_id d e = d.id == e.id

-- Two rows with one id, or with one place.
abbrev pub Differ : FieldDefinition → FieldDefinition → Type 0
Differ d e = (same_id d e ≡ false) × (same_place d e ≡ false)

abbrev pub AreDistinct : List FieldDefinition → Type 0
AreDistinct [] = Unit
AreDistinct (d ∷ ds) = All (Differ d) ds × AreDistinct ds

-- The primary key, the sequence that it is taken from, and the constraint on the places.
abbrev pub IsValid : Store → Type 0
IsValid st =
    AreDistinct st.definitions × All (λ (d : FieldDefinition). d.id < st.next_id) st.definitions

-- A row that is found is apart from each other row.
abbrev pub Apart : FieldDefinition → FieldDefinition → Type 0
Apart c d = (d ≡ c) ⊎ Differ d c

pub Differ-sym : (c d : FieldDefinition) → Differ c d → Differ d c
Differ-sym c d (i, p) = (ground arith, ground arith)

pub rows-Apart :
    (p : FieldDefinition → Bool) (ds : List FieldDefinition) {c : FieldDefinition}
    {cs : List FieldDefinition}
    → AreDistinct ds
    → rows p ds ≡ c ∷ cs
    → All (Apart c) ds
rows-Apart p [] k e = tt
rows-Apart p (d ∷ ds) {c} (f, k) e = elim (Bool-cases (p d)) [
  | inl b ↦
      let q : d ≡ c = cc (rw b at e) in
      (inl q, All-map (λ x h. inr (Differ-sym c x (rw q at h))) ds f)
  | inr b ↦
      let r : rows p ds ≡ c ∷ _ = rw b at e in
      (inr (rows-first p (Differ d) ds r f).0, rows-Apart p ds k r)
]

pub rows-two :
    (p : FieldDefinition → Bool) (ds : List FieldDefinition) {c d : FieldDefinition}
    {cs : List FieldDefinition}
    → AreDistinct ds
    → rows p ds ≡ c ∷ d ∷ cs
    → Differ c d × (p c ≡ true) × (p d ≡ true)
rows-two p [] k e = cc
rows-two p (x ∷ ds) {c} {d} {cs} (f, k) e = elim (Bool-cases (p x)) [
  | inl b ↦
      let q : x ≡ c = cc (rw b at e) in
      let r : rows p ds ≡ d ∷ cs = cc (rw b at e) in
      let (g, h) = rows-first p (Differ x) ds r f in (rw q at g, rw q at b, h)
  | inr b ↦ rows-two p ds k (rw b at e)
]

pub All-each :
    {P : FieldDefinition → Type 0} (f : FieldDefinition → FieldDefinition)
    → ((x : FieldDefinition) → P x → P (f x))
    → (ds : List FieldDefinition) → All P ds
    → All P (each f ds)
All-each f h [] k = tt
All-each {P} f h (d ∷ ds) (k, ks) = (h d k, All-each {P = P} f h ds ks)
