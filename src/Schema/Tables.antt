-- ===== src/Schema/Tables.antt =====
-- The tables of a built method: the index of the output, and the two tables of a message.
use wrkr.Prelude.{
  ℕ, suc, ◌+◌, ◌<◌, ◌≡◌, ◌≢◌, refl, sym, ap, ◌∙◌, subst, not, Option, none, some, List, [], ◌∷◌,
  get_elem?, arith, ==_iff, ◌==◌, if◌then◌else◌, Option-cases, Bool-cases, inl, inr,
}
use wrkr.Wire.{Bytes}
use wrkr.Messages.Kinds.{
  GrpcFieldShape, GrpcMessageMeta, no_fields, field, get_by_name, get_by_number, bytes_eq,
}
use wrkr.Messages.Objects.{bytes_eq_iff}
use wrkr.Prelude.Results.{ok}
use wrkr.Schema.Pool.{MethodDescriptor, DescriptorPool, IsPool}
use wrkr.Schema.Sound.{IsMetaOf}
use wrkr.Schema.Method.{method_by_name, OutputField, BuiltMethod, index_from, get_index, get_output}
use wrkr.Schema.Ends.{as_meta, IsNamed, method_by_name-IsMethodOf}

-- What the decoder reads of an output field.
abbrev pub name_and_shape : Option OutputField → Option (Bytes × GrpcFieldShape)
name_and_shape none = none
name_and_shape (some o) = some (o.name, o.shape)

-- The field at an index that may not be there.
abbrev at_index : List OutputField → Option ℕ → Option OutputField
at_index os none = none
at_index os (some i) = get_elem? os i

-- These fields are the rest of all the fields from a place on.
abbrev IsRestAt : ℕ → List OutputField → List OutputField → Type 0
IsRestAt idx os outputs = (i : ℕ) → get_elem? outputs (idx + i) ≡ get_elem? os i

IsRestAt-tail :
    (idx : ℕ) (o : OutputField) (os outputs : List OutputField)
    → IsRestAt idx (o ∷ os) outputs
    → IsRestAt (suc idx) os outputs
IsRestAt-tail idx o os outputs rest i =
    subst (λ n. get_elem? outputs n ≡ get_elem? os i) (omega arith) (rest (suc i))

-- The entry of a field goes into the index and into the table of numbers alike.
index_step :
    (number idx : ℕ) (o : OutputField) (os outputs : List OutputField) (acc : List (ℕ × ℕ))
    (meta : GrpcMessageMeta)
    → IsRestAt idx (o ∷ os) outputs
    → name_and_shape (at_index outputs (get_index number acc)) ≡ get_by_number number meta
    → name_and_shape (
        at_index outputs
          (get_index number (if not (o.number == 0) then (o.number, idx) ∷ acc else acc)))
      ≡ get_by_number number (field o.name o.number o.shape meta)
unfolding get_index get_by_number
index_step number idx o os outputs acc meta rest e =
    let here : get_elem? outputs idx ≡ some o =
      subst (λ n. get_elem? outputs n ≡ some o) (omega arith) (rest 0) in
    ground (arith, here)

index_from-as_meta :
    (number idx : ℕ) (os outputs : List OutputField) (acc : List (ℕ × ℕ)) (meta : GrpcMessageMeta)
    → IsRestAt idx os outputs
    → name_and_shape (at_index outputs (get_index number acc)) ≡ get_by_number number meta
    → name_and_shape (at_index outputs (get_index number (index_from idx os acc)))
      ≡ get_by_number number (as_meta os meta)
unfolding index_from as_meta
index_from-as_meta number idx [] outputs acc meta rest e = e
index_from-as_meta number idx (o ∷ os) outputs acc meta rest e =
    index_from-as_meta number (suc idx) os outputs
      (if not (o.number == 0) then (o.number, idx) ∷ acc else acc)
      (field o.name o.number o.shape meta) (IsRestAt-tail idx o os outputs rest)
      (index_step number idx o os outputs acc meta rest e)

get_output-at_index :
    (number : ℕ) (g : BuiltMethod)
    → get_output number g
      ≡ at_index g.output_fields (get_index number g.output_field_index_by_number)
unfolding get_output
get_output-at_index number g =
    elim (Option-cases (get_index number g.output_field_index_by_number)) [
      | inl nothing ↦ rw (nothing, get_output) refl
      | inr (i, found) ↦ rw (found, get_output) refl
    ]

get_output-as_meta :
    (number : ℕ) (g : BuiltMethod)
    → g.output_field_index_by_number ≡ index_from 0 g.output_fields []
    → name_and_shape (get_output number g)
      ≡ get_by_number number (as_meta g.output_fields no_fields)
unfolding get_by_number get_index
get_output-as_meta number g e =
    ap name_and_shape (get_output-at_index number g)
    ∙ ap
        (λ (index : List (ℕ × ℕ)).
          name_and_shape (at_index g.output_fields (get_index number index)))
        e
    ∙ index_from-as_meta number 0 g.output_fields g.output_fields [] no_fields
        (λ i. ap (get_elem? g.output_fields) (omega arith)) refl

-- In a method that the schema gives, the decoder's lookup of a number, through the index of the
-- output fields, finds the name and the shape that the tree of the output message has for that
-- number: those of its last field with it, and none for the number 0.
pub method_by_name-get_output :
    (pool : DescriptorPool) (is_pool : IsPool pool) (full : Bytes) (number : ℕ) (g : BuiltMethod)
    → method_by_name pool full ≡ ok g
    → (m : MethodDescriptor) × (output : GrpcMessageMeta) × IsNamed pool is_pool full m
      × IsMetaOf pool m.output output
      × (name_and_shape (get_output number g) ≡ get_by_number number output)
method_by_name-get_output pool is_pool full number g e =
    let (m, named, (input_of, output_of, indexed)) =
      method_by_name-IsMethodOf pool is_pool full g e in
    (m, as_meta g.output_fields no_fields, named, output_of, get_output-as_meta number g indexed)

-- No field of the message has this name, or this number.
abbrev pub NoName : Bytes → GrpcMessageMeta → Type 0
NoName name no_fields = Unit
NoName name (field n number shape rest) = (n ≢ name) × NoName name rest

abbrev pub NoNumber : ℕ → GrpcMessageMeta → Type 0
NoNumber number no_fields = Unit
NoNumber number (field name n shape rest) = (n ≢ number) × NoNumber number rest

-- protoc's rule for a message: every number is at least 1, no two fields share a name or a number.
abbrev pub IsProto : GrpcMessageMeta → Type 0
IsProto no_fields = Unit
IsProto (field name number shape rest) =
    (0 < number) × NoName name rest × NoNumber number rest × IsProto rest

get_by_number-NoNumber :
    (number : ℕ) (name : Bytes) (n : ℕ) (shape : GrpcFieldShape) (m : GrpcMessageMeta)
    → NoNumber number m
    → get_by_name name m ≡ some (n, shape)
    → number ≢ n
unfolding get_by_name
get_by_number-NoNumber number name n shape no_fields absent e same = cc
get_by_number-NoNumber number name n shape (field k j s rest) absent e same =
    elim (Bool-cases (bytes_eq k name)) [
      | inl here ↦
          let found : ◌≡◌ {A = Option (ℕ × GrpcFieldShape)} (some (j, s)) (some (n, shape)) =
            rw here at e in
          absent.0 (number_of j n s shape found ∙ sym same)
      | inr other ↦ get_by_number-NoNumber number name n shape rest absent.1 (rw other at e) same
    ]
  where
    number_of :
        (j n : ℕ) (s t : GrpcFieldShape)
        → ◌≡◌ {A = Option (ℕ × GrpcFieldShape)} (some (j, s)) (some (n, t))
        → j ≡ n
    number_of j n s t found = cc

-- In a message that keeps protoc's rule, the table by name and the table by number agree: the field
-- that a name finds is the field that its number finds.
pub get_by_number-get_by_name :
    (name : Bytes) (n : ℕ) (shape : GrpcFieldShape) (m : GrpcMessageMeta)
    → IsProto m
    → get_by_name name m ≡ some (n, shape)
    → get_by_number n m ≡ some (name, shape)
unfolding get_by_name get_by_number
get_by_number-get_by_name name n shape no_fields is e = cc
get_by_number-get_by_name name n shape (field k j s rest) is e =
    elim (Bool-cases (bytes_eq k name)) [
      | inl here ↦ let named = (bytes_eq_iff k name).0 here in ground (arith, here, is.0)
      | inr other ↦
          let later : get_by_name name rest ≡ some (n, shape) = rw other at e in
          let apart = get_by_number-NoNumber j name n shape rest is.2 later in
          let found = get_by_number-get_by_name name n shape rest is.3 later in
          ground (arith, ==_iff j n)
    ]
