-- ===== src/Store/Runs.antt =====
-- A concrete store over a watch channel that is its last number, and the theorems at concrete
-- inputs.
use wrkr.Prelude.{ℕ, ◌≡◌, ◌≢◌, refl, none, some, List, [], ◌∷◌, arith}
use wrkr.Prelude.Int.{pos, negsuc}
use wrkr.Prelude.Dict.{insert, lookup, remove}
use wrkr.Value.{Value, as_i64}
use wrkr.Store.{
  saturating_add_i64, Watch, default, set, incr, get_counter, incr_update, wait_register,
  barrier_enter, Op, set_op, incr_op, wait_op, barrier_op, run, apply, bump, get,
}
use wrkr.Store.Counter.{count_all, get_counter-run, incr_returns_other}

abbrev latest : Watch
latest = record { Sender = ℕ; channel = 0; borrow = λ n. n; send = λ n _. n }

abbrev traffic : List (Op latest)
traffic =
    wait_op "jobs"
    ∷ set_op "jobs" (Value.i64 (pos 5))
    ∷ incr_op "jobs" (negsuc 1)
    ∷ incr_op "other" (pos 9)
    ∷ barrier_op "ready" 2
    ∷ incr_op "jobs" (pos 1)
    ∷ []

traffic_counts : get_counter latest "jobs" (run latest (default latest) traffic) ≡ pos 4
unfolding run apply set incr_update wait_register barrier_enter get_counter get bump lookup insert
    remove as_i64 saturating_add_i64
traffic_counts = refl

traffic_notifies : lookup "jobs" (run latest (default latest) traffic).notifies ≡ some 3
unfolding run apply set incr_update wait_register barrier_enter bump lookup insert remove
traffic_notifies = refl

get_counter-run_example :
    get_counter latest "jobs" (run latest (default latest) traffic)
    ≡ count_all latest "jobs" (get_counter latest "jobs" (default latest)) traffic
get_counter-run_example = get_counter-run latest "jobs" (default latest) traffic

nothing_yet : get_counter latest "jobs" (default latest) ≡ pos 0
unfolding get_counter get lookup
nothing_yet = refl

incr_returns_other_example :
    get_counter latest "jobs" (
      run latest (incr_update latest "jobs" (pos 1) (default latest)) (incr_op "jobs" (pos 2) ∷ []))
    ≢ (incr latest "jobs" (pos 1) (default latest)).1
incr_returns_other_example =
    incr_returns_other latest "jobs" (default latest) 0 1 2 nothing_yet (omega arith) (omega arith)

unused : lookup "ready" (default latest).barriers ≡ none
unfolding lookup
unused = refl
