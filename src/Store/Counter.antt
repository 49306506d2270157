-- ===== src/Store/Counter.antt =====
-- The counters of the store under any interleaving of the users.
use wrkr.Prelude.{
  ℕ, ◌+◌, ◌^◌, ◌≤◌, ◌-◌, ◌≡◌, ◌≢◌, refl, sym, ◌∙◌, some, List, [], ◌∷◌, String, if◌then◌else◌,
  str_eq, eq_refl, eq_iff, arith, ap,
}
use wrkr.Prelude.Int.{ℤ, pos, pos_part, ◌+ℤ◌}
use wrkr.Prelude.Dict.{lookup, lookup-insert, lookup-remove}
use wrkr.Value.{Value, as_i64}
use wrkr.Store.{
  Watch, SharedStore, saturating_add_i64, counter_of, get_counter, incr_update, incr, Op, set_op,
  delete_op, incr_op, wait_op, barrier_op, apply, run,
}

module _ (w : Watch) where
  -- What one step does to the counter under a key.
  abbrev pub counted : String → ℤ → Op w → ℤ
  counted k c (set_op j v) = if str_eq j k then counter_of (some v) else c
  counted k c (delete_op j) = if str_eq j k then pos 0 else c
  counted k c (incr_op j delta) = if str_eq j k then saturating_add_i64 c delta else c
  counted k c (wait_op j) = c
  counted k c (barrier_op name parties) = c

  abbrev pub count_all : String → ℤ → List (Op w) → ℤ
  count_all k c [] = c
  count_all k c (op ∷ ops) = count_all k (counted k c op) ops

  get_counter-apply :
      (k : String) (s : SharedStore w.Sender) (op : Op w)
      → get_counter w k (apply w s op) ≡ counted k (get_counter w k s) op
  unfolding get_counter apply as_i64
  get_counter-apply k s (set_op j v) = ground (arith, lookup-insert j k v s.values)
  get_counter-apply k s (delete_op j) = ground (arith, lookup-remove j k s.values)
  get_counter-apply k s (incr_op j d) =
      let next = saturating_add_i64 (counter_of (lookup j s.values)) d in
      ground (arith, eq_iff j k, lookup-insert j k (Value.i64 next) s.values)
  get_counter-apply k s (wait_op j) = ground arith
  get_counter-apply k s (barrier_op j p) = ground arith

  -- Under any interleaving of the users' steps a counter is what the steps on its own key make of
  -- it, one after the other, from its value at the start: no update is lost, every addition is the
  -- saturating one to the latest value, and no step on another key counts. A value that is not an
  -- i64, and no value, count as 0.
  pub get_counter-run :
      (k : String) (s : SharedStore w.Sender) (ops : List (Op w))
      → get_counter w k (run w s ops) ≡ count_all k (get_counter w k s) ops
  unfolding run
  get_counter-run k s [] = refl
  get_counter-run k s (op ∷ ops) =
      get_counter-run k (apply w s op) ops
      ∙ ap (λ (c : ℤ). count_all k c ops) (get_counter-apply k s op)

  get_counter-incr_update :
      (k : String) (d : ℤ) (s : SharedStore w.Sender)
      → get_counter w k (incr_update w k d s) ≡ saturating_add_i64 (get_counter w k s) d
  get_counter-incr_update k d s =
      unfold apply in get_counter-apply k s (incr_op k d) ∙ rw (eq_refl k)

  saturating_add_i64-pos :
      (x y : ℕ) → x + y ≤ 2 ^ 63 - 1 → saturating_add_i64 (pos x) (pos y) ≡ pos (x + y)
  unfolding saturating_add_i64 ◌+ℤ◌
  saturating_add_i64-pos x y fits = ground arith

  -- `incr` reads the counter again after its update. If another user adds `b` ≠ 0 to the same
  -- counter in between, what it returns is not the value that its own update wrote. The counter and
  -- both additions are not negative and their sum fits an i64.
  pub incr_returns_other :
      (k : String) (s : SharedStore w.Sender) (c a b : ℕ)
      → get_counter w k s ≡ pos c
      → c + a + b ≤ 2 ^ 63 - 1
      → b ≢ 0
      → get_counter w k (run w (incr_update w k (pos a) s) (incr_op k (pos b) ∷ []))
        ≢ (incr w k (pos a) s).1
  unfolding run apply incr
  incr_returns_other k s c a b start fits h e =
      let own : get_counter w k (incr_update w k (pos a) s) ≡ pos (c + a) =
        get_counter-incr_update k (pos a) s
        ∙ ap (λ (z : ℤ). saturating_add_i64 z (pos a)) start
        ∙ saturating_add_i64-pos c a (omega arith) in
      let both : get_counter w k (incr_update w k (pos b) (incr_update w k (pos a) s))
          ≡ pos (c + a + b) =
        get_counter-incr_update k (pos b) (incr_update w k (pos a) s)
        ∙ ap (λ (z : ℤ). saturating_add_i64 z (pos b)) own
        ∙ saturating_add_i64-pos (c + a) b fits in
      let same : c + a + b ≡ c + a = ap pos_part (sym both ∙ e ∙ own) in h (omega arith)
