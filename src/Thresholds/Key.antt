-- ===== src/Thresholds/Key.antt =====
-- `parse_threshold_metric_key` of wrkr-core/src/thresholds.rs, and `render_metric_key` of
-- wrkr/src/scenario_yaml.rs: the metric and the tags that a threshold is on, as a text.
use wrkr.Prelude.{
  ℕ, Bool, true, false, ◌&&◌, ◌||◌, not, Option, none, some, List, [], ◌∷◌, ◌++◌, map, ltb, ◌==◌,
  if◌then◌else◌,
}
use wrkr.Prelude.Results.{ResultOf, ok, err, ◌>>=◌}
use wrkr.Prelude.Text.{Text, split_once, strip_suffix, split, join}
use wrkr.Thresholds.Parse.{is_whitespace}

pub data KeyError : Type 0 where
  empty_key missing_name missing_brace empty_selector : KeyError
  not_a_pair empty_pair unsupported_characters duplicate_key : KeyError

abbrev pub Tag : Type 0
Tag = Text × Text

abbrev pub is_empty : Text → Bool
is_empty [] = true
is_empty (c ∷ s) = false

-- `char::is_whitespace`, kept folded.
unfoldable pub is_space : ℕ → Bool
is_space c = is_whitespace c

-- `str::trim`
unfoldable pub trim_start : Text → Text
trim_start [] = []
trim_start (c ∷ s) = let rest = trim_start s in if is_space c then rest else c ∷ s

unfoldable pub trim_end : Text → Text
trim_end [] = []
trim_end (c ∷ s) = let rest = trim_end s in if is_space c && is_empty rest then [] else c ∷ rest

unfoldable pub trim : Text → Text
trim s = trim_end (trim_start s)

-- The characters that the closure `is_simple` takes.
abbrev pub is_simple_char : ℕ → Bool
is_simple_char c =
    not (is_space c || ((c == b'{') || ((c == b'}') || ((c == b',') || (c == b'=')))))

unfoldable pub is_simple : Text → Bool
is_simple [] = true
is_simple (c ∷ s) = is_simple_char c && is_simple s

unfoldable pub text_eq : Text → Text → Bool
text_eq [] [] = true
text_eq [] (d ∷ t) = false
text_eq (c ∷ s) [] = false
text_eq (c ∷ s) (d ∷ t) = (c == d) && text_eq s t

-- `tags.iter().any(|(ek, _)| ek == k)`
unfoldable pub has_tag : Text → List Tag → Bool
has_tag k [] = false
has_tag k ((j, v) ∷ tags) = text_eq j k || has_tag k tags

-- The end of a turn of the loop: the checks on a key and a value, and the push.
unfoldable pub push_tag : Text → Text → List Tag → ResultOf KeyError (List Tag)
push_tag k v tags =
    if is_empty k || is_empty v
    then err empty_pair
    else if not (is_simple k) || not (is_simple v)
    then err unsupported_characters
    else if has_tag k tags
    then err duplicate_key
    else ok (tags ++ ((k, v) ∷ []))

unfoldable pub push_pair : Option (Text × Text) → List Tag → ResultOf KeyError (List Tag)
push_pair none tags = err not_a_pair
push_pair (some (k_raw, v_raw)) tags = push_tag (trim k_raw) (trim v_raw) tags

unfoldable pub push_part : Text → List Tag → ResultOf KeyError (List Tag)
push_part part tags =
    if is_empty (trim part) then ok tags else push_pair (split_once b'=' (trim part)) tags

unfoldable pub push_parts : List Text → List Tag → ResultOf KeyError (List Tag)
push_parts [] tags = ok tags
push_parts (part ∷ parts) tags = push_part part tags >>= push_parts parts

-- The order of texts, and of tags: by key, then by value.
unfoldable pub text_ltb : Text → Text → Bool
text_ltb [] [] = false
text_ltb [] (d ∷ t) = true
text_ltb (c ∷ s) [] = false
text_ltb (c ∷ s) (d ∷ t) = ltb c d || ((c == d) && text_ltb s t)

unfoldable pub tag_leb : Tag → Tag → Bool
tag_leb (k, v) (j, w) = text_ltb k j || (text_eq k j && not (text_ltb w v))

unfoldable pub insert_tag : Tag → List Tag → List Tag
insert_tag p [] = p ∷ []
insert_tag p (q ∷ tags) =
    let rest = insert_tag p tags in if tag_leb p q then p ∷ q ∷ tags else q ∷ rest

-- `sort_unstable_by`: tags that compare as equal are the same.
unfoldable pub sort_tags : List Tag → List Tag
sort_tags [] = []
sort_tags (p ∷ tags) = insert_tag p (sort_tags tags)

unfoldable pub finish_tags : Text → List Tag → ResultOf KeyError (Text × List Tag)
finish_tags name [] = err empty_selector
finish_tags name (tag ∷ tags) = ok (name, sort_tags (tag ∷ tags))

unfoldable pub parse_selector : Text → Option Text → ResultOf KeyError (Text × List Tag)
parse_selector name none = err missing_brace
parse_selector name (some selector) = push_parts (split b',' selector) [] >>= finish_tags name

unfoldable pub parse_trimmed : Text → Option (Text × Text) → ResultOf KeyError (Text × List Tag)
parse_trimmed raw none = ok (raw, [])
parse_trimmed raw (some (name_raw, selector_with_brace)) =
    if is_empty (trim name_raw)
    then err missing_name
    else parse_selector (trim name_raw) (strip_suffix b'}' selector_with_brace)

unfoldable pub parse_threshold_metric_key : Text → ResultOf KeyError (Text × List Tag)
parse_threshold_metric_key raw =
    if is_empty (trim raw)
    then err empty_key
    else parse_trimmed (trim raw) (split_once b'{' (trim raw))

-- `format!("{k}={v}")`
abbrev pub render_tag : Tag → Text
render_tag (k, v) = k ++ (b'=' ∷ v)

unfoldable pub render_metric_key : Text → List Tag → Text
render_metric_key metric [] = metric
render_metric_key metric (tag ∷ tags) =
    metric ++ (b'{' ∷ (join b',' (map render_tag (tag ∷ tags)) ++ (b'}' ∷ [])))
