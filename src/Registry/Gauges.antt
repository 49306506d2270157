-- ===== src/Registry/Gauges.antt =====
-- Gauges: the wrapping arithmetic of `AtomicI64`, and what increments and decrements leave.
use wrkr.Prelude.{
  ℕ, ◌+◌, ◌-◌, ◌%◌, ◌^◌, ◌<◌, ◌≡◌, refl, sym, ap, ◌∙◌, arith, some, ltb, List, [], ◌∷◌, Bool-cases,
  inl, inr, true, Option-cases, get_elem?,
}
use wrkr.Prelude.Int.{ℤ, pos, negsuc, ◌+ℤ◌, ◌-ℤ◌}
use wrkr.Wire.{as_u64, as_i64}
use wrkr.Wire.Zigzag.{IsI64}
use wrkr.Messages.ScalarTrip.{as_i64-as_u64}
use wrkr.Registry.HdrHistogram.{Histograms}
use wrkr.Registry.{MetricKind, MetricStorage, gauge, MetricHandle, Registry}
use wrkr.Registry.Cells.{load-write}
use wrkr.Registry.Writes.{
  Write, increment_gauge, decrement_gauge, target, kind_eq, on_gauge, load, find_cell, stored,
  perform, wrapping_add_i64, wrapping_sub_i64,
}

as_u64-as_i64 : (n : ℕ) → n < 2 ^ 64 → as_u64 (as_i64 n) ≡ n
as_u64-as_i64 n h = ground arith

-- On bit patterns every addition and subtraction is that of the integers, whatever overflows.
as_u64-add : (a b : ℤ) → as_u64 (a +ℤ b) ≡ (as_u64 a + as_u64 b) % 2 ^ 64
unfolding ◌+ℤ◌
as_u64-add (pos a) (pos b) = ground arith
as_u64-add (pos a) (negsuc b) = ground arith
as_u64-add (negsuc a) (pos b) = ground arith
as_u64-add (negsuc a) (negsuc b) = ground arith

as_u64-sub : (a b : ℤ) → as_u64 (a -ℤ b) ≡ (as_u64 a + 2 ^ 64 - as_u64 b) % 2 ^ 64
unfolding ◌-ℤ◌
as_u64-sub (pos a) (pos b) = ground arith
as_u64-sub (pos a) (negsuc b) = ground arith
as_u64-sub (negsuc a) (pos b) = ground arith
as_u64-sub (negsuc a) (negsuc b) = ground arith

as_i64-IsI64 : (n : ℕ) → n < 2 ^ 64 → IsI64 (as_i64 n)
as_i64-IsI64 n h = elim (Bool-cases (ltb n (2 ^ 63))) [
  | inl below ↦ rw below (ground (arith, below))
  | inr above ↦ rw above (ground (arith, above))
]

-- A change of a gauge by some thread.
pub data Change : Type 0 where
  up : ℤ → Change
  down : ℤ → Change

abbrev pub as_write : Change → Write
as_write (up v) = increment_gauge v
as_write (down v) = decrement_gauge v

-- What the changes make of a number, over the integers.
abbrev pub changed : ℤ → List Change → ℤ
changed z [] = z
changed z (up v ∷ changes) = changed (z +ℤ v) changes
changed z (down v ∷ changes) = changed (z -ℤ v) changes

module _ (lib : Histograms) where
  -- The changes, one after the other through one handle.
  abbrev pub perform_all : List Change → MetricHandle → Registry lib.Hist → Registry lib.Hist
  perform_all [] h r = r
  perform_all (c ∷ changes) h r = perform_all changes h (perform lib (as_write c) h r)

  load-perform :
      (w : Write) (h : MetricHandle) (x : MetricStorage lib.Hist) (r : Registry lib.Hist)
      → kind_eq h.kind (target w) ≡ true
      → load h r ≡ some x
      → load h (perform lib w h r) ≡ some (stored lib w x)
  unfolding perform load
  load-perform w h x r takes e = elim (Option-cases (get_elem? r.storage h.metric)) [
    | inl missing ↦ absurd (ground (arith, missing))
    | inr (series, hs) ↦
        let cell : find_cell h.tags h.cell series ≡ some x = rw (hs, load) at e in
        rw takes (load-write (stored lib w) h x series r hs cell)
  ]

  follows :
      (changes : List Change) (v s : ℤ) (h : MetricHandle) (r : Registry lib.Hist)
      → h.kind ≡ MetricKind.gauge
      → load h r ≡ some (gauge v)
      → IsI64 v
      → as_u64 v ≡ as_u64 s
      → IsI64 (changed s changes)
      → load h (perform_all changes h r) ≡ some (gauge (changed s changes))
  unfolding stored on_gauge wrapping_add_i64 wrapping_sub_i64
  follows [] v s h r kind e hv same fits =
      let equal : v ≡ s = sym (as_i64-as_u64 v hv) ∙ ap as_i64 same ∙ as_i64-as_u64 s fits in
      e ∙ ap (λ (z : ℤ). some (gauge z)) equal
  follows (up d ∷ changes) v s h r kind e hv same fits =
      let n = (as_u64 v + as_u64 d) % 2 ^ 64 in
      let small : n < 2 ^ 64 = omega arith in
      follows changes (as_i64 n) (s +ℤ d) h (perform lib (increment_gauge d) h r) kind
        (load-perform (increment_gauge d) h (gauge v) r (rw kind refl) e) (as_i64-IsI64 n small)
        (as_u64-as_i64 n small ∙ rw same (sym (as_u64-add s d))) fits
  follows (down d ∷ changes) v s h r kind e hv same fits =
      let n = (as_u64 v + 2 ^ 64 - as_u64 d) % 2 ^ 64 in
      let small : n < 2 ^ 64 = omega arith in
      follows changes (as_i64 n) (s -ℤ d) h (perform lib (decrement_gauge d) h r) kind
        (load-perform (decrement_gauge d) h (gauge v) r (rw kind refl) e) (as_i64-IsI64 n small)
        (as_u64-as_i64 n small ∙ rw same (sym (as_u64-sub s d))) fits

  -- After any increments and decrements of a gauge through its handle, in any order, it holds what
  -- they make of its old value over the integers, if that fits an i64. What overflows in between
  -- changes nothing.
  pub load-perform_all :
      (changes : List Change) (z : ℤ) (h : MetricHandle) (r : Registry lib.Hist)
      → h.kind ≡ MetricKind.gauge
      → load h r ≡ some (gauge z)
      → IsI64 z
      → IsI64 (changed z changes)
      → load h (perform_all changes h r) ≡ some (gauge (changed z changes))
  load-perform_all changes z h r kind e range fits = follows changes z z h r kind e range refl fits
