-- ===== src/Store/Barriers.antt =====
-- The barriers of the store under any interleaving of the users.
use wrkr.Prelude.{
  ℕ, ◌≡◌, ◌≢◌, ◌∙◌, none, some, List, [], ◌∷◌, String, if◌then◌else◌, ◌==◌, eq_refl, eq_iff, arith,
}
use wrkr.Prelude.Dict.{lookup, insert, lookup-insert}
use wrkr.Store.{
  Watch, SharedStore, ok, err, invalid_parties, parties_mismatch, barrier_enter, set, delete,
  incr_update, wait_register, Op, set_op, delete_op, incr_op, wait_op, barrier_op, apply, run,
}

module _ (w : Watch) where
  -- A barrier keeps the parties of its first call.
  barriers-apply :
      (name : String) (p : ℕ) (s : SharedStore w.Sender) (op : Op w)
      → lookup name s.barriers ≡ some p
      → lookup name (apply w s op).barriers ≡ some p
  unfolding apply set delete incr_update wait_register barrier_enter
  barriers-apply name p s (set_op j v) h = h
  barriers-apply name p s (delete_op j) h = h
  barriers-apply name p s (incr_op j d) h = h
  barriers-apply name p s (wait_op j) h = ground arith
  barriers-apply name p s (barrier_op j q) h =
      ground (arith, eq_iff j name, lookup-insert j name q s.barriers)

  barriers-run :
      (name : String) (p : ℕ) (s : SharedStore w.Sender) (ops : List (Op w))
      → lookup name s.barriers ≡ some p
      → lookup name (run w s ops).barriers ≡ some p
  unfolding run
  barriers-run name p s [] h = h
  barriers-run name p s (op ∷ ops) h =
      barriers-run name p (apply w s op) ops (barriers-apply name p s op h)

  -- The first call of `barrier_wait` under a name that is not in use, with some number of parties,
  -- is let in and fixes that number: after any interleaving of the users' steps a call under the
  -- same name is refused as invalid when it names no parties, let in when it names that number,
  -- and refused with both numbers when it names another.
  pub barrier_enter-run :
      (name : String) (p q : ℕ) (s : SharedStore w.Sender) (ops : List (Op w))
      → lookup name s.barriers ≡ none
      → p ≢ 0
      → ((barrier_enter w name p s).1 ≡ ok)
        × ((barrier_enter w name q (run w (barrier_enter w name p s).0 ops)).1 ≡ (
            if q == 0
            then err invalid_parties
            else if q == p
            then ok
            else err (parties_mismatch p q)))
  unfolding barrier_enter
  barrier_enter-run name p q s ops free h =
      let entered = record s { barriers = insert name p s.barriers } in
      let kept =
        barriers-run name p entered ops
          (lookup-insert name name p s.barriers ∙ rw (eq_refl name)) in
      ground arith
