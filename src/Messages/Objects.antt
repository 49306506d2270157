-- ===== src/Messages/Objects.antt =====
-- Objects as lists of fields: what an insertion does, and how the decoder builds one.
use wrkr.Prelude.{◌≡◌, refl, true, none, some, ◌↔◌, [], ◌∷◌, ==_iff, if◌then◌else◌, arith}
use wrkr.Wire.{Bytes}
use wrkr.Value.{Value, Items, ObjectMap}
use wrkr.Messages.Kinds.{bytes_eq, get_field, insert_field, append_items}

pub bytes_eq_iff : (s t : Bytes) → (bytes_eq s t ≡ true) ↔ (s ≡ t)
unfolding bytes_eq
bytes_eq_iff [] [] = (λ e. refl, λ e. refl)
bytes_eq_iff [] (c ∷ t) = (λ e. cc, λ e. cc)
bytes_eq_iff (b ∷ s) [] = (λ e. cc, λ e. cc)
bytes_eq_iff (b ∷ s) (c ∷ t) = ground (arith, bytes_eq_iff s t, ==_iff b c)

abbrev pub append_object : ObjectMap → ObjectMap → ObjectMap
append_object ObjectMap.end m = m
append_object (ObjectMap.field n v out) m = ObjectMap.field n v (append_object out m)

-- No name of the second object is in the first.
abbrev pub Fresh : ObjectMap → ObjectMap → Type 0
Fresh out ObjectMap.end = Unit
Fresh out (ObjectMap.field n v m) = (get_field n out ≡ none) × Fresh out m

pub Fresh-end : (m : ObjectMap) → Fresh ObjectMap.end m
unfolding get_field
Fresh-end ObjectMap.end = tt
Fresh-end (ObjectMap.field n v m) = (refl, Fresh-end m)

pub get_field-insert_field :
    (name other : Bytes) (v : Value) (out : ObjectMap)
    → get_field other (insert_field name v out)
      ≡ (if bytes_eq name other then some v else get_field other out)
unfolding get_field insert_field
get_field-insert_field name other v ObjectMap.end = refl
get_field-insert_field name other v (ObjectMap.field n w out) = ground (
  arith,
  bytes_eq_iff n name,
  bytes_eq_iff n other,
  bytes_eq_iff name other,
  get_field-insert_field name other v out,
)

pub insert_field_same :
    (name : Bytes) (v : Value) (out : ObjectMap)
    → get_field name out ≡ some v
    → insert_field name v out ≡ out
unfolding get_field insert_field
insert_field_same name v ObjectMap.end h = cc
insert_field_same name v (ObjectMap.field n w out) h = ground (arith, insert_field_same name v out)

pub insert_field-insert_field :
    (name : Bytes) (v w : Value) (out : ObjectMap)
    → insert_field name v (insert_field name w out) ≡ insert_field name v out
unfolding insert_field
insert_field-insert_field name v w ObjectMap.end = ground (arith, (bytes_eq_iff name name).1 refl)
insert_field-insert_field name v w (ObjectMap.field n u out) =
    ground (arith, insert_field-insert_field name v w out)

pub append_object-insert_field :
    (name : Bytes) (v : Value) (out m : ObjectMap)
    → get_field name out ≡ none
    → append_object (insert_field name v out) m ≡ append_object out (ObjectMap.field name v m)
unfolding get_field insert_field
append_object-insert_field name v ObjectMap.end m h = refl
append_object-insert_field name v (ObjectMap.field n w out) m h =
    ground (arith, append_object-insert_field name v out m)

pub append_object-end : (out : ObjectMap) → append_object out ObjectMap.end ≡ out
append_object-end ObjectMap.end = refl
append_object-end (ObjectMap.field n v out) = rw (append_object-end out) refl

pub Fresh-insert_field :
    (name : Bytes) (v : Value) (out m : ObjectMap)
    → get_field name m ≡ none
    → Fresh out m
    → Fresh (insert_field name v out) m
unfolding get_field
Fresh-insert_field name v out ObjectMap.end apart h = tt
Fresh-insert_field name v out (ObjectMap.field n w m) apart h = (
  ground
      (arith, get_field-insert_field name n v out, bytes_eq_iff n name, bytes_eq_iff name n, h.0),
  Fresh-insert_field name v out m (ground (arith)) h.1,
)

pub append_items-nil : (xs : Items) → append_items xs Items.nil ≡ xs
unfolding append_items
append_items-nil Items.nil = refl
append_items-nil (Items.cons v xs) = rw (append_items-nil xs) refl

pub append_items-append_items :
    (xs ys zs : Items) → append_items (append_items xs ys) zs ≡ append_items xs (append_items ys zs)
unfolding append_items
append_items-append_items Items.nil ys zs = refl
append_items-append_items (Items.cons v xs) ys zs = rw (append_items-append_items xs ys zs) refl
