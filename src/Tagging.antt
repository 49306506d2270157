-- ===== src/Tagging.antt =====
-- The merging of tags of wrkr-core/src/metrics_context.rs: the tags of the scenario join those that a
-- metric brings, unless they are there or reserved.
pub mod Merged
mod Runs
use wrkr.Prelude.{Bool, true, false, ◌||◌, List, [], ◌∷◌, ◌++◌, String, if◌then◌else◌, str_eq}
use wrkr.Config.{MetricsContext}

abbrev pub TagList : Type 0
TagList = List (String × String)

-- `reserved_keys.contains(&k)`
pub contains : String → List String → Bool
contains k [] = false
contains k (r ∷ reserved) = str_eq r k || contains k reserved

-- `tags.iter().any(|(ek, _)| ek == k)`
pub has_key : String → TagList → Bool
has_key k [] = false
has_key k ((j, v) ∷ tags) = str_eq j k || has_key k tags

-- A turn of the loop: the two `continue`s, or the push.
pub push_if_missing : String → String → List String → TagList → TagList
unfolding contains has_key
push_if_missing k v reserved tags =
    if contains k reserved then tags else if has_key k tags then tags else tags ++ ((k, v) ∷ [])

pub merge_loop : TagList → List String → TagList → TagList
unfolding push_if_missing
merge_loop [] reserved tags = tags
merge_loop ((k, v) ∷ rest) reserved tags =
    merge_loop rest reserved (push_if_missing k v reserved tags)

pub merge_scenario_tags_if_missing : MetricsContext → List String → TagList → TagList
unfolding merge_loop
merge_scenario_tags_if_missing ctx reserved tags = merge_loop ctx.scenario_tags reserved tags

pub merge_base_tags_if_missing : MetricsContext → List String → TagList → TagList
unfolding merge_scenario_tags_if_missing
merge_base_tags_if_missing ctx reserved tags =
    merge_scenario_tags_if_missing ctx reserved
      (push_if_missing "scenario" ctx.scenario reserved tags)

-- The loop of `scenario_tag_refs`, which pushes at the end.
pub refs_loop : TagList → List String → TagList
unfolding contains
refs_loop [] reserved = []
refs_loop ((k, v) ∷ rest) reserved =
    let out = refs_loop rest reserved in if contains k reserved then out else (k, v) ∷ out

pub scenario_tag_refs : MetricsContext → List String → TagList
unfolding refs_loop
scenario_tag_refs ctx reserved = refs_loop ctx.scenario_tags reserved
