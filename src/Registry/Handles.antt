-- ===== src/Registry/Handles.antt =====
-- Handles: how `get_handle` finds or makes one, and what a write through one does to the sums.
use wrkr.Prelude.{
  ℕ, ◌+◌, ◌≤◌, ◌≡◌, refl, sym, ap, ◌∙◌, subst, min, Bool, ◌&&◌, none, some, Bool-cases, inl, inr,
  List, [], ◌∷◌, get_elem?, arith, ==_iff, ◌==◌, if◌then◌else◌, u64_max,
}
use wrkr.Metrics.{TagSet, tags_eq}
use wrkr.Metrics.Tags.{tags_eq_iff}
use wrkr.Registry.HdrHistogram.{Histograms}
use wrkr.Registry.{
  MetricKind, MetricStorage, counter, gauge, rate, histogram, MetricSeries, MetricDef, Registry,
  MetricHandle, find_series, insert_series, write_series, set_at, kind_of, storage_to_handle,
  find_handle, add_counter, write, increment, new_storage, create_handle, get_handle,
  add_to_counter, visit_series, fold_counter_sum,
}
use wrkr.Registry.Series.{every, counter_value, counted, sum_counters-counted, counted-write_series}
use wrkr.Registry.Invariant.{get_elem?-set_at}

pub kind_of-counter :
    {Hist : Type 0} (s : MetricStorage Hist)
    → kind_of s ≡ MetricKind.counter
    → (n : ℕ) × (s ≡ counter n)
unfolding kind_of
kind_of-counter (counter n) h = (n, refl)
kind_of-counter (gauge z) h = cc
kind_of-counter (rate t k) h = cc
kind_of-counter (histogram k) h = cc

module _ {Hist : Type 0} where
  pub find_series-tags :
      (tags : TagSet) (s : MetricSeries Hist) (series : List (MetricSeries Hist))
      → find_series tags series ≡ some s
      → s.tags ≡ tags
  unfolding find_series
  find_series-tags tags s [] h = cc
  find_series-tags tags s (t ∷ series) h = elim (Bool-cases (tags_eq t.tags tags)) [
    | inl same ↦
        let found : t ≡ s = cc in
        sym (ap (λ (x : MetricSeries Hist). x.tags) found) ∙ (tags_eq_iff t.tags tags).0 same
    | inr other ↦
        let later : find_series tags series ≡ some s = cc in find_series-tags tags s series later
  ]

  pub fold_counter_sum-counted :
      (j : ℕ) (predicate : TagSet → Bool) (r : Registry Hist)
      → fold_counter_sum j predicate r ≡ min (counted predicate (visit_series j r)) u64_max
  unfolding fold_counter_sum
  fold_counter_sum-counted j predicate r =
      sum_counters-counted predicate (visit_series j r) 0 (omega arith) ∙ omega arith

  -- What the visit of any metric sees once the map of one metric is replaced.
  pub visit_series-set_at :
      (m j : ℕ) (r r' : Registry Hist) (old series : List (MetricSeries Hist))
      → get_elem? r.storage m ≡ some old
      → r'.storage ≡ set_at m series r.storage
      → visit_series j r' ≡ (if m == j then series else visit_series j r)
  unfolding visit_series
  visit_series-set_at m j r r' old series hs e =
      ground (arith, e, get_elem?-set_at m j series old r.storage hs)

  pub visit_series-at :
      (m j : ℕ) (series : List (MetricSeries Hist)) (r : Registry Hist)
      → get_elem? r.storage m ≡ some series
      → m ≡ j
      → visit_series j r ≡ series
  unfolding visit_series
  visit_series-at m j series r hs e = ground (arith, hs, e)

  pub storage-write :
      (f : MetricStorage Hist → MetricStorage Hist) (h : MetricHandle)
      (series : List (MetricSeries Hist)) (r : Registry Hist)
      → get_elem? r.storage h.metric ≡ some series
      → (write f h r).storage ≡ set_at h.metric (write_series h.tags h.cell f series) r.storage
  unfolding write
  storage-write f h series r hs = rw (hs, write) refl

  pub counted-write :
      (j v n : ℕ) (predicate : TagSet → Bool) (h : MetricHandle) (s : MetricSeries Hist)
      (series : List (MetricSeries Hist)) (r : Registry Hist)
      → get_elem? r.storage h.metric ≡ some series
      → find_series h.tags series ≡ some s
      → s.cell ≡ h.cell
      → s.storage ≡ counter n
      → counted every series + v ≤ u64_max
      → counted predicate (visit_series j (write (add_counter v) h r))
        ≡ counted predicate (visit_series j r)
          + (if h.metric == j && predicate h.tags then v else 0)
  counted-write j v n predicate h s series r hs found same stored fits =
      let m = h.metric in
      let after = write_series h.tags h.cell (add_counter v) series in
      let sees =
        visit_series-set_at m j r (write (add_counter v) h r) series after hs
          (storage-write (add_counter v) h series r hs) in
      elim (Bool-cases (m == j)) [
        | inl here ↦
            let old = visit_series-at m j series r hs ((==_iff m j).0 here) in
            let added = counted-write_series predicate s v n h.tags series found stored fits in
            rw (sees, here, old)
              (subst
                (λ (c : ℕ).
                  counted predicate (write_series h.tags c (add_counter v) series)
                  ≡ counted predicate series + (if predicate h.tags then v else 0))
                same added)
        | inr elsewhere ↦ rw (sees, elsewhere) (omega arith)
      ]

module _ (lib : Histograms) where
  -- A new counter stands at 0.
  pub new_storage-value : (kind : MetricKind) → counter_value (new_storage lib kind) ≡ 0
  unfolding new_storage
  new_storage-value MetricKind.counter = refl
  new_storage-value MetricKind.gauge = refl
  new_storage-value MetricKind.rate = refl
  new_storage-value MetricKind.histogram = refl

  pub new_storage-kind : (kind : MetricKind) → kind_of (new_storage lib kind) ≡ kind
  unfolding new_storage kind_of
  new_storage-kind MetricKind.counter = refl
  new_storage-kind MetricKind.gauge = refl
  new_storage-kind MetricKind.rate = refl
  new_storage-kind MetricKind.histogram = refl

  abbrev pub new_series : ℕ → TagSet → MetricKind → MetricSeries lib.Hist
  new_series cell tags kind = record { tags = tags; cell = cell; storage = new_storage lib kind }

  abbrev pub created :
      ℕ → TagSet → MetricKind → List (MetricSeries lib.Hist) → Registry lib.Hist → Registry lib.Hist
  created metric tags kind series r = record r {
    storage = set_at metric (insert_series (new_series r.next_cell tags kind) series) r.storage;
    next_cell = r.next_cell + 1;
  }

  -- `get_handle` on a metric with a map: the tags are there, or a new series is.
  pub get_handle-found :
      (metric : ℕ) (tags : TagSet) (s : MetricSeries lib.Hist)
      (series : List (MetricSeries lib.Hist)) (r : Registry lib.Hist)
      → get_elem? r.storage metric ≡ some series
      → find_series tags series ≡ some s
      → get_handle lib metric tags r ≡ some (r, storage_to_handle metric s)
  unfolding get_handle storage_to_handle
  get_handle-found metric tags s series r hs found =
      rw (hs, get_handle, find_handle) (rw (found) refl)

  pub get_handle-new :
      (metric : ℕ) (tags : TagSet) (d : MetricDef) (series : List (MetricSeries lib.Hist))
      (r : Registry lib.Hist)
      → get_elem? r.defs metric ≡ some d
      → get_elem? r.storage metric ≡ some series
      → find_series tags series ≡ none
      → get_handle lib metric tags r
        ≡ some (
          created metric tags d.kind series r,
          storage_to_handle metric (new_series r.next_cell tags d.kind),
        )
  unfolding get_handle create_handle storage_to_handle
  get_handle-new metric tags d series r hd hs found =
      rw (hs, get_handle, find_handle) (rw (found) (rw (hd, create_handle) (rw (hs) refl)))

  -- A handle of a counter writes.
  pub increment-counter :
      (v : ℕ) (h : MetricHandle) (r : Registry lib.Hist)
      → h.kind ≡ MetricKind.counter
      → increment v h r ≡ write (add_counter v) h r
  unfolding increment write
  increment-counter v h r e = rw (e, increment) refl

  pub add_to_counter-handle :
      (metric : ℕ) (tags : TagSet) (v : ℕ) (h : MetricHandle) (r r' : Registry lib.Hist)
      → get_handle lib metric tags r ≡ some (r', h)
      → h.kind ≡ MetricKind.counter
      → add_to_counter lib metric tags v r ≡ write (add_counter v) h r'
  unfolding add_to_counter
  add_to_counter-handle metric tags v h r r' e k =
      rw (e, add_to_counter) (increment-counter v h r' k)
