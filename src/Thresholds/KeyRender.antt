-- ===== src/Thresholds/KeyRender.antt =====
-- A metric key that is rendered is parsed again.
use mathlib.Core.List.{append-nil, append_assoc}
use wrkr.Prelude.{ℕ, ◌≡◌, refl, sym, ap, ◌∙◌, subst, true, false, List, [], ◌∷◌, ◌++◌, map, arith}
use wrkr.Prelude.Results.{ok}
use wrkr.Prelude.Text.{
  Text, join, has_char, split_once-append, split_once-none, strip_suffix-append, split-join,
  AreParts,
}
use wrkr.Thresholds.Key.{
  Tag, is_empty, is_space, trim, is_simple, has_tag, push_tag, push_pair, push_part, push_parts,
  sort_tags, finish_tags, parse_selector, parse_trimmed, parse_threshold_metric_key, render_tag,
  render_metric_key,
}
use wrkr.Thresholds.KeyText.{
  has_space, has_space-append, trim_same, trim-starts, trim-append, is_simple_free,
}

-- A metric's name as a key has it: not empty, without white space around it, and without `{`.
abbrev pub IsName : Text → Type 0
IsName m = (is_empty m ≡ false) × (trim m ≡ m) × (has_char b'{' m ≡ false)

abbrev pub IsTag : Tag → Type 0
IsTag (k, v) =
    (is_empty k ≡ false) × (is_empty v ≡ false) × (is_simple k ≡ true) × (is_simple v ≡ true)

-- Simple tags, no two with one key, and none with a key of the tags before them.
abbrev pub AreTags : List Tag → List Tag → Type 0
AreTags seen [] = Unit
AreTags seen (tag ∷ tags) =
    IsTag tag × (has_tag tag.0 seen ≡ false) × AreTags (seen ++ (tag ∷ [])) tags

has_space-render_tag : (tag : Tag) → IsTag tag → has_space (render_tag tag) ≡ false
unfolding has_space is_space
has_space-render_tag (k, v) h =
    has_space-append k (b'=' ∷ v) (is_simple_free k h.2).0 (is_simple_free v h.3).0

has_char-append :
    (c : ℕ) (s t : Text) → has_char c s ≡ false → has_char c t ≡ false → has_char c (s ++ t) ≡ false
unfolding has_char
has_char-append c [] t h e = e
has_char-append c (b ∷ s) t h e = ground (arith, has_char-append c s t)

has_comma-render_tag : (tag : Tag) → IsTag tag → has_char b',' (render_tag tag) ≡ false
unfolding has_char
has_comma-render_tag (k, v) h =
    has_char-append b',' k (b'=' ∷ v) (is_simple_free k h.2).1 (is_simple_free v h.3).1

is_empty-append : (s t : Text) (c : ℕ) → is_empty (s ++ (c ∷ t)) ≡ false
is_empty-append [] t c = refl
is_empty-append (b ∷ s) t c = refl

append_append : {A : Type 0} (xs ys : List A) (y : A) → (xs ++ (y ∷ [])) ++ ys ≡ xs ++ (y ∷ ys)
append_append xs ys y = append_assoc xs (y ∷ []) ys

push_part-render_tag :
    (tag : Tag) (seen : List Tag)
    → IsTag tag
    → has_tag tag.0 seen ≡ false
    → push_part (render_tag tag) seen ≡ ok (seen ++ (tag ∷ []))
unfolding push_part push_pair push_tag
push_part-render_tag (k, v) seen h fresh =
    let whole = trim_same (k ++ (b'=' ∷ v)) (has_space-render_tag (k, v) h) in
    let (k_space, k_comma, k_equals) = is_simple_free k h.2 in
    let (v_space, v_comma, v_equals) = is_simple_free v h.3 in
    rw (whole) (
      rw (is_empty-append k v b'=') (
        rw (split_once-append b'=' k v k_equals) (
          rw (trim_same k k_space, trim_same v v_space)
            (rw (h.0, h.1) (rw (h.2, h.3) (rw fresh refl))))))

push_parts-render_tag :
    (tags seen : List Tag)
    → AreTags seen tags
    → push_parts (map render_tag tags) seen ≡ ok (seen ++ tags)
unfolding push_parts
push_parts-render_tag [] seen h = ap ok (sym (append-nil seen))
push_parts-render_tag (tag ∷ tags) seen h =
    rw (push_part-render_tag tag seen h.0 h.1)
      (push_parts-render_tag tags (seen ++ (tag ∷ [])) h.2 ∙ ap ok (append_append seen tags tag))

AreParts-render_tag :
    (tags seen : List Tag) → AreTags seen tags → AreParts b',' (map render_tag tags)
AreParts-render_tag [] seen h = tt
AreParts-render_tag (tag ∷ tags) seen h =
    (has_comma-render_tag tag h.0, AreParts-render_tag tags (seen ++ (tag ∷ [])) h.2)

-- The text of a key with tags has no white space around it.
trim-rendered : (m s : Text) → IsName m → trim (m ++ (s ++ (b'}' ∷ []))) ≡ m ++ (s ++ (b'}' ∷ []))
unfolding is_space
trim-rendered [] s h = cc
trim-rendered (c ∷ m) s h =
    let starts = trim-starts c m h.1 in
    let closing : is_space b'}' ≡ false = refl in
    subst (λ (t : Text). trim t ≡ t) (append_assoc (c ∷ m) s (b'}' ∷ []))
      (trim-append c (m ++ s) b'}' starts closing)

-- A metric key that `render_metric_key` writes, for a metric's name without white space around it
-- or `{` in it and simple tags with different keys, is parsed as the same metric with the same tags,
-- in their order.
pub parse_threshold_metric_key-render_metric_key :
    (m : Text) (tags : List Tag)
    → IsName m
    → AreTags [] tags
    → parse_threshold_metric_key (render_metric_key m tags) ≡ ok (m, sort_tags tags)
unfolding parse_threshold_metric_key render_metric_key parse_trimmed parse_selector finish_tags
    sort_tags
parse_threshold_metric_key-render_metric_key m [] h tags_h =
    rw (h.1) (rw (h.0) (rw (split_once-none b'{' m h.2) refl))
parse_threshold_metric_key-render_metric_key m (tag ∷ tags) h tags_h =
    let body = join b',' (map render_tag (tag ∷ tags)) in
    let whole = trim-rendered m (b'{' ∷ body) h in
    let parts =
      split-join b',' (render_tag tag) (map render_tag tags)
        (AreParts-render_tag (tag ∷ tags) [] tags_h) in
    rw whole (
      rw (is_empty-append m (body ++ (b'}' ∷ [])) b'{') (
        rw (split_once-append b'{' m (body ++ (b'}' ∷ [])) h.2) (
          rw (h.1) (
            rw (h.0) (
              rw (strip_suffix-append b'}' body)
                (rw parts (rw (push_parts-render_tag (tag ∷ tags) [] tags_h) refl)))))))
