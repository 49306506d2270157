-- ===== src/Tagging/Runs.antt =====
-- A concrete context, and the theorems at concrete inputs.
use wrkr.Prelude.{◌≡◌, refl, none, some, [], ◌∷◌, if◌then◌else◌, str_eq}
use wrkr.Prelude.Dict.{lookup}
use wrkr.Config.{MetricsContext, or}
use wrkr.Tagging.{
  TagList, contains, has_key, push_if_missing, merge_loop, merge_scenario_tags_if_missing,
  merge_base_tags_if_missing,
}
use wrkr.Tagging.Merged.{lookup-merge_base_tags_if_missing}

abbrev login : MetricsContext
login = record { scenario = "login"; scenario_tags = ("team", "core") ∷ ("status", "x") ∷ [] }

abbrev brought : TagList
brought = ("team", "edge") ∷ []

merged :
    merge_base_tags_if_missing login ("status" ∷ []) brought
    ≡ ("team", "edge") ∷ ("scenario", "login") ∷ []
unfolding merge_base_tags_if_missing merge_scenario_tags_if_missing merge_loop push_if_missing
    contains has_key
merged = refl

lookup-merge_base_tags_if_missing_example :
    lookup "team" (merge_base_tags_if_missing login ("status" ∷ []) brought)
    ≡ or (lookup "team" brought) (
        if contains "team" ("status" ∷ [])
        then none
        else if str_eq "scenario" "team"
        then some "login"
        else lookup "team" login.scenario_tags)
lookup-merge_base_tags_if_missing_example =
    lookup-merge_base_tags_if_missing login ("status" ∷ []) brought "team"
