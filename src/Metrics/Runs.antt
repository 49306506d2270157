-- ===== src/Metrics/Runs.antt =====
-- A concrete interner, and the theorems at concrete inputs.
use wrkr.Prelude.{
  ◌+◌, ◌^◌, ◌<◌, ◌≡◌, ◌↔◌, refl, true, false, some, String, List, [], ◌∷◌, map, length, arith,
}
use wrkr.Prelude.Dict.{insert, lookup, remove}
use wrkr.Metrics.{
  Interner, new, get_or_intern, resolve, get, project, sort, insert_sorted, partition_point,
  resolve_keys, resolve_pairs, resolve_tags, name_of, new_selector, tags_eq, matches,
}
use wrkr.Metrics.Interning.{
  IsInterner, new-IsInterner, get_or_intern_keeps-IsInterner, get_or_intern-IsInterner,
}
use wrkr.Metrics.Tags.{IsAscending, IsStrict}
use wrkr.Metrics.Selection.{IsSelected, matches-IsAscending, matches_iff}

-- The scenario tag is interned first, as by a run that has recorded a request.
abbrev used : Interner
used = (get_or_intern "A" (get_or_intern "scenario" new).0).0

used-IsInterner : IsInterner used
unfolding get_or_intern lookup insert remove
used-IsInterner =
    get_or_intern_keeps-IsInterner "A" (get_or_intern "scenario" new).0
      (get_or_intern_keeps-IsInterner "scenario" new new-IsInterner (omega arith)) (omega arith)

abbrev by_group : List (String × String)
by_group = ("group", "login") ∷ ("scenario", "A") ∷ []

abbrev by_scenario : List (String × String)
by_scenario = ("scenario", "A") ∷ ("verb", "GET") ∷ []

-- A series with exactly the tags of the selector, which the selector does not take.
own_series_missed : matches (new_selector by_group used).1 (resolve_tags by_group used).1 ≡ false
unfolding matches new_selector resolve_tags resolve_keys resolve_pairs sort insert_sorted
    get_or_intern project get partition_point tags_eq lookup insert remove
own_series_missed = refl

own_series_taken :
    matches (new_selector by_scenario used).1 (resolve_tags by_scenario used).1 ≡ true
unfolding matches new_selector resolve_tags resolve_keys resolve_pairs sort insert_sorted
    get_or_intern project get partition_point tags_eq lookup insert remove
own_series_taken = refl

used_room : length used.names + 6 < 2 ^ 32
unfolding get_or_intern lookup insert remove
used_room = omega arith

scenario-IsStrict : IsStrict (resolve_keys (map name_of by_scenario) used).1
unfolding resolve_keys get_or_intern lookup insert remove IsStrict
scenario-IsStrict = (omega arith, tt)

matches_iff_example :
    (matches (new_selector by_scenario used).1 ((0, 1) ∷ []) ≡ true)
    ↔ IsSelected
        (resolve_pairs by_scenario (resolve_keys (map name_of by_scenario) used).0).1
        ((0, 1) ∷ [])
matches_iff_example =
    matches_iff ("scenario", "A") (("verb", "GET") ∷ []) ((0, 1) ∷ []) used used-IsInterner
      used_room scenario-IsStrict

two-IsStrict : IsStrict (0 ∷ 2 ∷ [])
unfolding IsStrict
two-IsStrict = (omega arith, tt)

scenario_known : resolve 0 used ≡ some "scenario"
unfolding resolve get_or_intern lookup insert remove
scenario_known = refl

used_more : length used.names + 1 < 2 ^ 32
unfolding get_or_intern lookup insert remove
used_more = omega arith

get_or_intern-IsInterner_example :
    IsInterner (get_or_intern "group" used).0
    × (resolve (get_or_intern "group" used).1 (get_or_intern "group" used).0 ≡ some "group")
    × (resolve 0 (get_or_intern "group" used).0 ≡ some "scenario")
get_or_intern-IsInterner_example =
    get_or_intern-IsInterner "group" "scenario" 0 used used-IsInterner (omega (arith, used_more))
      scenario_known

matches-IsAscending_example : IsAscending (resolve_keys (map name_of by_scenario) used).1
matches-IsAscending_example =
    matches-IsAscending by_scenario (resolve_tags by_scenario used).1 used used-IsInterner used_room
      own_series_taken
