-- ===== src/Thresholds/Runs.antt =====
-- Expressions parsed, and a registry judged by them. The floating-point numbers are whole here.
use wrkr.Prelude.{ℕ, ◌-◌, ◌≡◌, refl, none, some, List, [], ◌∷◌, length, ltb, leb, ◌==◌, arith}
use wrkr.Prelude.Results.{ok, err}
use wrkr.Metrics.{new, get_or_intern, new_selector, matches}
use wrkr.Registry.{MetricKind, histogram, Registry, lookup_metric, visit_series}
use wrkr.Registry.HdrHistogram.{Histograms}
use wrkr.Prelude.Dict.{lookup, insert}
use wrkr.Prelude.Text.{split_once, split, cons_first, strip_suffix, has_char}
use wrkr.Thresholds.Key.{
  Tag, duplicate_key, is_space, trim, trim_start, trim_end, is_simple, text_eq, text_ltb, has_tag,
  push_tag, push_pair, push_part, push_parts, tag_leb, insert_tag, sort_tags, finish_tags,
  parse_selector, parse_trimmed, parse_threshold_metric_key, render_metric_key,
}
use wrkr.Thresholds.KeyRender.{parse_threshold_metric_key-render_metric_key}
use wrkr.Thresholds.Folds.{Doubles, fold_histogram_summary}
use wrkr.Thresholds.Parse.{
  count, p, lt, gte, percentile_out_of_range, missing_operator, parse_threshold_expr,
}
use mathlib.Core.List.{Memᴰ}
use wrkr.Thresholds.{ThresholdSet, evaluate_thresholds}
use wrkr.Thresholds.Percentiles.{Reports, evaluate_thresholds-IsUnseen}

abbrev whole : Histograms
whole = record {
  Hist = List ℕ;
  Float = ℕ;
  empty = [];
  record_value = λ v h. v ∷ h;
  add = λ g h. h;
  len = length;
  value_at_percentile = λ q h. 5;
  min_value = λ h. 0;
  max_value = λ h. 9;
  mean = λ h. 5;
  stdev = λ h. 0;
  float_of = λ n. n;
}

abbrev digits : List ℕ → ℕ
digits [] = 0
digits (c ∷ s) = c - 48

abbrev one_digit : Doubles whole
one_digit = record {
  ratio = λ a b. a;
  less = ltb;
  less_or_equal = leb;
  equal = λ a b. a == b;
  parse = λ s. some (digits s);
}

-- `p(80)<7`
abbrev p80 : List ℕ
p80 = b'p' ∷ b'(' ∷ b'8' ∷ b'0' ∷ b')' ∷ b'<' ∷ b'7' ∷ []

p80_parsed :
    parse_threshold_expr whole one_digit p80 ≡ ok (record { agg = p 80; op = lt; value = 7 })
unfolding parse_threshold_expr
p80_parsed = refl

-- ` Count >= 3`
count_parsed :
    parse_threshold_expr whole one_digit
      (b' ' ∷ b'C' ∷ b'o' ∷ b'u' ∷ b'n' ∷ b't' ∷ b' ' ∷ b'>' ∷ b'=' ∷ b' ' ∷ b'3' ∷ [])
    ≡ ok (record { agg = count; op = gte; value = 3 })
unfolding parse_threshold_expr
count_parsed = refl

p101_refused :
    parse_threshold_expr whole one_digit
      (b'p' ∷ b'(' ∷ b'1' ∷ b'0' ∷ b'1' ∷ b')' ∷ b'<' ∷ b'1' ∷ [])
    ≡ err percentile_out_of_range
unfolding parse_threshold_expr
p101_refused = refl

operator_missing :
    parse_threshold_expr whole one_digit (b'a' ∷ b'v' ∷ b'g' ∷ b'7' ∷ []) ≡ err missing_operator
unfolding parse_threshold_expr
operator_missing = refl

-- A latency histogram with a value in it.
abbrev latencies : Registry (List ℕ)
latencies = record {
  interner = (get_or_intern "latency" new).0;
  defs = record { name = 0; kind = MetricKind.histogram } ∷ [];
  storage = (record { tags = []; cell = 0; storage = histogram (5 ∷ []) } ∷ []) ∷ [];
  next_cell = 1;
}

-- `p(95)<7` on the same metric, and a metric that is missing, beside it.
abbrev p95 : List ℕ
p95 = b'p' ∷ b'(' ∷ b'9' ∷ b'5' ∷ b')' ∷ b'<' ∷ b'7' ∷ []

abbrev on_latency : ThresholdSet
on_latency = record { metric = "latency"; tags = []; expressions = p95 ∷ p80 ∷ [] }

abbrev two_sets : List ThresholdSet
two_sets = record { metric = "missing"; tags = []; expressions = p95 ∷ [] } ∷ on_latency ∷ []

evaluate_thresholds-IsUnseen_example :
    Reports whole one_digit two_sets
      (record { metric = "latency"; tags = []; expression = p80; observed = none })
      (evaluate_thresholds whole one_digit two_sets latencies).1
evaluate_thresholds-IsUnseen_example =
    evaluate_thresholds-IsUnseen whole one_digit two_sets latencies on_latency p80
      (record { agg = p 80; op = lt; value = 7 }) 80 (Memᴰ.tail (Memᴰ.head refl))
      (Memᴰ.tail (Memᴰ.head refl)) p80_parsed refl
      (omega arith, omega arith, omega arith, omega arith, omega arith)

-- The same threshold on the 95th percentile holds.
p95_holds :
    (evaluate_thresholds whole one_digit
      (record { metric = "latency"; tags = []; expressions = p95 ∷ [] } ∷ [])
      latencies).1
    ≡ ok []
unfolding evaluate_thresholds get_or_intern lookup insert lookup_metric new_selector
    parse_threshold_expr visit_series matches fold_histogram_summary
p95_holds = refl

-- `m{b=2,a=1}`, written and read: the tags are put in order.
abbrev m_tags : List Tag
m_tags = ((b'b' ∷ []), (b'2' ∷ [])) ∷ ((b'a' ∷ []), (b'1' ∷ [])) ∷ []

parse_threshold_metric_key-render_metric_key_example :
    parse_threshold_metric_key (render_metric_key (b'm' ∷ []) m_tags)
    ≡ ok (b'm' ∷ [], ((b'a' ∷ []), (b'1' ∷ [])) ∷ ((b'b' ∷ []), (b'2' ∷ [])) ∷ [])
unfolding trim trim_start trim_end is_space has_char is_simple has_tag text_eq sort_tags insert_tag
    tag_leb text_ltb
parse_threshold_metric_key-render_metric_key_example =
    parse_threshold_metric_key-render_metric_key (b'm' ∷ []) m_tags (refl, refl, refl)
      (((refl, refl, refl, refl), refl, ((refl, refl, refl, refl), refl, tt)))

-- ` m { a = 1 , a = 2 } ` is refused.
duplicate_refused :
    parse_threshold_metric_key (
      b' ' ∷ b'm' ∷ b' ' ∷ b'{' ∷ b' ' ∷ b'a' ∷ b'=' ∷ b'1' ∷ b',' ∷ b'a' ∷ b'=' ∷ b'2' ∷ b'}' ∷ [])
    ≡ err duplicate_key
unfolding parse_threshold_metric_key parse_trimmed parse_selector push_parts push_part push_pair
    push_tag finish_tags split_once split cons_first strip_suffix trim trim_start trim_end is_space
    is_simple has_tag text_eq
duplicate_refused = refl
