-- ===== src/Registry/Bounded.antt =====
-- In every registry that the program can come to, the counters hold u64.
use wrkr.Prelude.{
  ℕ, zero, suc, ◌≤◌, ◌≡◌, refl, sym, subst, ◌&&◌, some, Option-cases, Bool-cases, inl, inr, List,
  [], ◌∷◌, ◌++◌, All, All-get_elem?, String, get_elem?, arith, u64_max, ◌==◌,
}
use wrkr.Metrics.{TagSet, tags_eq, get_or_intern}
use wrkr.Registry.HdrHistogram.{Histograms}
use wrkr.Registry.{
  MetricKind, MetricStorage, MetricSeries, MetricHandle, Registry, find_def, register,
  insert_series, write_series, set_at, create_handle, write, add_counter, visit_series,
}
use wrkr.Registry.Series.{AreU64, counter_value}
use wrkr.Registry.Handles.{new_storage-value, new_series}
use wrkr.Registry.Names.{register-old, register-new}
use wrkr.Registry.Writes.{
  Write, increment, set_gauge, increment_gauge, decrement_gauge, add_rate, observe_histogram,
  kind_eq, target, stored, on_gauge, add_to_rate, on_histogram, perform,
}
use wrkr.Registry.Reached.{Reach, begin, interns, registers, creates, performs}

All-push :
    {A : Type 0} (P : A → Type 0) (xs : List A) (x : A) → All P xs → P x → All P (xs ++ (x ∷ []))
All-push P [] x h p = (p, tt)
All-push P (y ∷ ys) x h p = (h.0, All-push P ys x h.1 p)

All-set_at :
    {A : Type 0} (P : A → Type 0) (i : ℕ) (x : A) (xs : List A)
    → All P xs
    → P x
    → All P (set_at i x xs)
All-set_at P i x [] h p = tt
All-set_at P zero x (y ∷ ys) h p = (p, h.1)
All-set_at P (suc i) x (y ∷ ys) h p = (h.0, All-set_at P i x ys h.1 p)

module _ {Hist : Type 0} where
  abbrev pub HasU64 : Registry Hist → Type 0
  HasU64 r = All (AreU64 {Hist = Hist}) r.storage

  insert_series-AreU64 :
      (s : MetricSeries Hist) (series : List (MetricSeries Hist))
      → counter_value s.storage ≤ u64_max
      → AreU64 series
      → AreU64 (insert_series s series)
  unfolding insert_series
  insert_series-AreU64 s [] b h = (b, tt)
  insert_series-AreU64 s (t ∷ series) b h = elim (Bool-cases (tags_eq t.tags s.tags)) [
    | inl same ↦ rw same (b, h.1)
    | inr other ↦ rw other (h.0, insert_series-AreU64 s series b h.1)
  ]

  write_series-AreU64 :
      (f : MetricStorage Hist → MetricStorage Hist) (tags : TagSet) (cell : ℕ)
      (series : List (MetricSeries Hist))
      → ((s : MetricStorage Hist) → counter_value s ≤ u64_max → counter_value (f s) ≤ u64_max)
      → AreU64 series
      → AreU64 (write_series tags cell f series)
  unfolding write_series
  write_series-AreU64 f tags cell [] keeps h = tt
  write_series-AreU64 f tags cell (s ∷ series) keeps h =
      elim (Bool-cases (tags_eq s.tags tags && s.cell == cell)) [
        | inl here ↦ rw here (keeps s.storage h.0, h.1)
        | inr other ↦ rw other (h.0, write_series-AreU64 f tags cell series keeps h.1)
      ]

  pub visit_series-AreU64 :
      (metric : ℕ) (r : Registry Hist) → HasU64 r → AreU64 (visit_series metric r)
  unfolding visit_series
  visit_series-AreU64 metric r h = elim (Option-cases (get_elem? r.storage metric)) [
    | inl none_there ↦ rw (none_there, visit_series) tt
    | inr (series, e) ↦
        rw (e, visit_series) (All-get_elem? (AreU64 {Hist = Hist}) r.storage metric series h e)
  ]

  register-HasU64 :
      (name : String) (kind : MetricKind) (r : Registry Hist)
      → HasU64 r
      → HasU64 (register name kind r).0
  register-HasU64 name kind r h =
      let i = (get_or_intern name r.interner).0 in
      let id = (get_or_intern name r.interner).1 in
      elim (Option-cases (find_def id r.defs)) [
        | inl new ↦
            rw (register-new name kind i id r refl new)
              (All-push (AreU64 {Hist = Hist}) r.storage [] h tt)
        | inr ((idx, old), found) ↦ rw (register-old name kind old i id idx r refl found) h
      ]

module _ (lib : Histograms) where
  stored-fits :
      (w : Write) (s : MetricStorage lib.Hist)
      → counter_value s ≤ u64_max
      → counter_value (stored lib w s) ≤ u64_max
  unfolding stored on_gauge add_to_rate on_histogram add_counter
  stored-fits (increment v) s h = ground arith
  stored-fits (set_gauge v) s h = ground arith
  stored-fits (increment_gauge v) s h = ground arith
  stored-fits (decrement_gauge v) s h = ground arith
  stored-fits (add_rate hits total) s h = ground arith
  stored-fits (observe_histogram v) s h = ground arith

  create_handle-HasU64 :
      (metric : ℕ) (tags : TagSet) (q : Registry lib.Hist × MetricHandle) (r : Registry lib.Hist)
      → create_handle lib metric tags r ≡ some q
      → HasU64 r
      → HasU64 q.0
  unfolding create_handle
  create_handle-HasU64 metric tags q r e h = elim (Option-cases (get_elem? r.defs metric)) [
    | inl missing ↦ absurd (ground (arith, missing))
    | inr (d, hd) ↦ elim (Option-cases (get_elem? r.storage metric)) [
      | inl missing ↦ absurd (ground (arith, missing, hd))
      | inr (series, hs) ↦
          let s = new_series lib r.next_cell tags d.kind in
          let fits : counter_value s.storage ≤ u64_max =
            omega (arith, new_storage-value lib d.kind) in
          let old = All-get_elem? (AreU64 {Hist = lib.Hist}) r.storage metric series h hs in
          let made : All (AreU64 {Hist = lib.Hist})
              (set_at metric (insert_series s series) r.storage) =
            All-set_at (AreU64 {Hist = lib.Hist}) metric (insert_series s series) r.storage h
              (insert_series-AreU64 s series fits old) in
          let whole : q.0.storage ≡ set_at metric (insert_series s series) r.storage =
            ground (arith, hd, hs) in
          subst (All (AreU64 {Hist = lib.Hist})) (sym whole) made
    ]
  ]

  perform-HasU64 :
      (w : Write) (h : MetricHandle) (r : Registry lib.Hist) → HasU64 r → HasU64 (perform lib w h r)
  unfolding perform write
  perform-HasU64 w h r all = elim (Bool-cases (kind_eq h.kind (target w))) [
    | inr other ↦ rw other all
    | inl same ↦ elim (Option-cases (get_elem? r.storage h.metric)) [
      | inl none_there ↦ rw same (rw (none_there, write) all)
      | inr (series, e) ↦ rw same (
          rw (e, write)
            (All-set_at (AreU64 {Hist = lib.Hist}) h.metric _ r.storage all (
              write_series-AreU64 (stored lib w) h.tags h.cell series (stored-fits w)
                (All-get_elem? (AreU64 {Hist = lib.Hist}) r.storage h.metric series all e))))
    ]
  ]

  pub Reach-HasU64 : (r : Registry lib.Hist) → Reach lib r → HasU64 r
  Reach-HasU64 r begin = tt
  Reach-HasU64 r (interns name {r = s} h) = Reach-HasU64 s h
  Reach-HasU64 r (registers name kind {r = s} h) = register-HasU64 name kind s (Reach-HasU64 s h)
  Reach-HasU64 r (creates metric tags q {r = s} e h) =
      create_handle-HasU64 metric tags q s e (Reach-HasU64 s h)
  Reach-HasU64 r (performs w h {r = s} reach) = perform-HasU64 w h s (Reach-HasU64 s reach)
