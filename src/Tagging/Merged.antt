-- ===== src/Tagging/Merged.antt =====
-- What a key has after the tags of the scenario are merged.
use wrkr.Prelude.{
  ◌≡◌, refl, none, some, List, [], ◌∷◌, ◌++◌, String, if◌then◌else◌, str_eq, eq_iff, arith,
}
use wrkr.Prelude.Dict.{lookup}
use wrkr.Config.{MetricsContext, or, is_some}
use wrkr.Tagging.{
  TagList, contains, has_key, push_if_missing, merge_loop, merge_scenario_tags_if_missing,
  merge_base_tags_if_missing, refs_loop, scenario_tag_refs,
}

has_key-lookup : (k : String) (tags : TagList) → has_key k tags ≡ is_some (lookup k tags)
unfolding has_key lookup
has_key-lookup k [] = refl
has_key-lookup k ((j, v) ∷ tags) = ground (arith, has_key-lookup k tags)

lookup-push :
    (k v j : String) (tags : TagList)
    → lookup j (tags ++ ((k, v) ∷ [])) ≡ or (lookup j tags) (if str_eq k j then some v else none)
unfolding lookup
lookup-push k v j [] = refl
lookup-push k v j ((i, w) ∷ tags) = ground (arith, lookup-push k v j tags)

-- What a push that is refused for a key that is there or reserved makes of any key.
lookup-push_if_missing :
    (k v j : String) (reserved : List String) (tags : TagList)
    → lookup j (push_if_missing k v reserved tags)
      ≡ or
          (lookup j tags)
          (if contains j reserved then none else if str_eq k j then some v else none)
unfolding push_if_missing
lookup-push_if_missing k v j reserved tags =
    ground (arith, eq_iff k j, has_key-lookup k tags, lookup-push k v j tags)

lookup-merge_loop :
    (j : String) (rest : TagList) (reserved : List String) (tags : TagList)
    → lookup j (merge_loop rest reserved tags)
      ≡ or (lookup j tags) (if contains j reserved then none else lookup j rest)
unfolding merge_loop lookup
lookup-merge_loop j [] reserved tags = ground arith
lookup-merge_loop j ((k, v) ∷ rest) reserved tags = ground (
  arith,
  lookup-merge_loop j rest reserved (push_if_missing k v reserved tags),
  lookup-push_if_missing k v j reserved tags,
)

-- After `merge_base_tags_if_missing` a key that the metric brought has the value it brought, and
-- any other key that is not reserved has the scenario's name if it is `scenario`, and else what the
-- tags of the scenario say of it. A reserved key is never added.
pub lookup-merge_base_tags_if_missing :
    (ctx : MetricsContext) (reserved : List String) (tags : TagList) (j : String)
    → lookup j (merge_base_tags_if_missing ctx reserved tags)
      ≡ or (lookup j tags) (
          if contains j reserved
          then none
          else if str_eq "scenario" j
          then some ctx.scenario
          else lookup j ctx.scenario_tags)
unfolding merge_base_tags_if_missing merge_scenario_tags_if_missing
lookup-merge_base_tags_if_missing ctx reserved tags j = ground (
  arith,
  lookup-merge_loop j ctx.scenario_tags reserved
      (push_if_missing "scenario" ctx.scenario reserved tags),
  lookup-push_if_missing "scenario" ctx.scenario j reserved tags,
)

lookup-refs_loop :
    (j : String) (tags : TagList) (reserved : List String)
    → lookup j (refs_loop tags reserved) ≡ (if contains j reserved then none else lookup j tags)
unfolding refs_loop lookup
lookup-refs_loop j [] reserved = ground arith
lookup-refs_loop j ((k, v) ∷ tags) reserved =
    ground (arith, eq_iff k j, lookup-refs_loop j tags reserved)

-- The tags that `scenario_tag_refs` gives hold the scenario's value for each key that is not
-- reserved, and nothing for a reserved one.
pub lookup-scenario_tag_refs :
    (ctx : MetricsContext) (reserved : List String) (j : String)
    → lookup j (scenario_tag_refs ctx reserved)
      ≡ (if contains j reserved then none else lookup j ctx.scenario_tags)
unfolding scenario_tag_refs
lookup-scenario_tag_refs ctx reserved j = lookup-refs_loop j ctx.scenario_tags reserved
