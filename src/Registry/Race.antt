-- ===== src/Registry/Race.antt =====
-- Two threads that look for the same new series at the same time.
use wrkr.Prelude.{
  ℕ, ◌+◌, ◌<◌, ◌≤◌, ◌≡◌, ◌≢◌, refl, ap, ◌∙◌, none, some, Option-cases, inl, inr, List, [], ◌∷◌,
  length, get_elem?, get_elem?_in_range, lt_of_get_elem?, arith, u64_max,
}
use wrkr.Metrics.{TagSet, tags_eq}
use wrkr.Metrics.Tags.{tags_eq_iff}
use wrkr.Registry.HdrHistogram.{Histograms}
use wrkr.Registry.{
  MetricKind, MetricStorage, MetricSeries, MetricDef, Registry, find_series, insert_series,
  write_series, set_at, storage_to_handle, find_handle, add_counter, write, increment,
  create_handle, both_record, fold_counter_sum,
}
use wrkr.Registry.Series.{every, counted, find-insert_series, counted-insert_series}
use wrkr.Registry.Invariant.{get_elem?-set_at, IsRegistry}
use wrkr.Registry.Handles.{
  new_storage-kind, new_storage-value, fold_counter_sum-counted, visit_series-at, storage-write,
  counted-write, kind_of-counter, increment-counter, new_series, created,
}

module _ {Hist : Type 0} where
  -- A second insertion of the same new tags takes the place of the first.
  insert_series-insert_series :
      (s t : MetricSeries Hist) (series : List (MetricSeries Hist))
      → s.tags ≡ t.tags
      → find_series s.tags series ≡ none
      → insert_series t (insert_series s series) ≡ insert_series t series
  unfolding insert_series find_series
  insert_series-insert_series s t [] same h = ground (arith, (tags_eq_iff s.tags t.tags).1 same)
  insert_series-insert_series s t (u ∷ series) same h = ground (
    arith,
    (tags_eq_iff s.tags t.tags).1 same,
    ap (λ (x : TagSet). tags_eq u.tags x) same,
    insert_series-insert_series s t series same,
  )

  write_series-none :
      (tags : TagSet) (cell : ℕ) (f : MetricStorage Hist → MetricStorage Hist)
      (series : List (MetricSeries Hist))
      → find_series tags series ≡ none
      → write_series tags cell f series ≡ series
  unfolding write_series find_series
  write_series-none tags cell f [] h = refl
  write_series-none tags cell f (u ∷ series) h =
      ground (arith, write_series-none tags cell f series)

  -- A handle whose storage was replaced writes nothing that the map still has.
  write_series-stale :
      (s : MetricSeries Hist) (cell : ℕ) (f : MetricStorage Hist → MetricStorage Hist)
      (series : List (MetricSeries Hist))
      → s.cell ≢ cell
      → find_series s.tags series ≡ none
      → write_series s.tags cell f (insert_series s series) ≡ insert_series s series
  unfolding write_series insert_series find_series
  write_series-stale s cell f [] stale h = ground arith
  write_series-stale s cell f (u ∷ series) stale h =
      ground (arith, write_series-stale s cell f series)

module _ (lib : Histograms) where
  -- `create_handle` on a registered metric makes a series with a cell of its own.
  create_handle-created :
      (metric : ℕ) (tags : TagSet) (d : MetricDef) (series : List (MetricSeries lib.Hist))
      (r : Registry lib.Hist)
      → get_elem? r.defs metric ≡ some d
      → get_elem? r.storage metric ≡ some series
      → create_handle lib metric tags r
        ≡ some (
          created lib metric tags d.kind series r,
          storage_to_handle metric (new_series lib r.next_cell tags d.kind),
        )
  unfolding create_handle
  create_handle-created metric tags d series r hd hs = rw (hd, create_handle) (rw (hs) refl)

  find_handle-none :
      (metric : ℕ) (tags : TagSet) (series : List (MetricSeries lib.Hist)) (r : Registry lib.Hist)
      → get_elem? r.storage metric ≡ some series
      → find_handle metric tags r ≡ some none
      → find_series tags series ≡ none
  unfolding find_handle
  find_handle-none metric tags series r hs h = elim (Option-cases (find_series tags series)) [
    | inl missing ↦ missing
    | inr (s, found) ↦
        let gives : find_handle metric tags r ≡ some (some (storage_to_handle metric s)) =
          rw (hs, find_handle) (rw found refl) in
        cc
  ]

  module _ (metric v w : ℕ) (tags : TagSet) (d : MetricDef) (r : Registry lib.Hist)
      (wf : IsRegistry r) (hd : get_elem? r.defs metric ≡ some d) (k : d.kind ≡ MetricKind.counter)
      (series : List (MetricSeries lib.Hist)) (hs : get_elem? r.storage metric ≡ some series)
      (missing : find_series tags series ≡ none) where
    abbrev first : MetricSeries lib.Hist
    first = new_series lib r.next_cell tags d.kind

    abbrev second : MetricSeries lib.Hist
    second = new_series lib (r.next_cell + 1) tags d.kind

    abbrev after_first : Registry lib.Hist
    after_first = created lib metric tags d.kind series r

    abbrev after_second : Registry lib.Hist
    after_second = created lib metric tags d.kind (insert_series first series) after_first

    abbrev after_write : Registry lib.Hist
    after_write = write (add_counter v) (storage_to_handle metric first) after_second

    first_at : get_elem? after_first.storage metric ≡ some (insert_series first series)
    first_at =
        get_elem?-set_at metric metric (insert_series first series) series r.storage hs
        ∙ ground arith

    second_at : get_elem? after_second.storage metric ≡ some (insert_series second series)
    second_at =
        get_elem?-set_at metric metric (insert_series second (insert_series first series))
          (insert_series first series) after_first.storage first_at
        ∙ ground (arith, insert_series-insert_series first second series refl missing)

    storage-after_write :
        after_write.storage ≡ set_at metric (insert_series second series) after_second.storage
    unfolding storage_to_handle
    storage-after_write =
        storage-write (add_counter v) (storage_to_handle metric first) (insert_series second series)
          after_second second_at
        ∙ ap (λ (l : List (MetricSeries lib.Hist)). set_at metric l after_second.storage)
            (write_series-stale second r.next_cell (add_counter v) series (omega arith) missing)

    write_at : get_elem? after_write.storage metric ≡ some (insert_series second series)
    write_at =
        ap (λ (maps : List (List (MetricSeries lib.Hist))). get_elem? maps metric)
          storage-after_write
        ∙ get_elem?-set_at metric metric (insert_series second series) (insert_series second series)
            after_second.storage second_at
        ∙ ground arith

    both_record-run :
        both_record lib metric tags v w r
        ≡ some (write (add_counter w) (storage_to_handle metric second) after_write)
    unfolding both_record storage_to_handle
    both_record-run =
        let h₁ = storage_to_handle metric first in
        let h₂ = storage_to_handle metric second in
        let kind = new_storage-kind lib d.kind ∙ k in
        let made₁ = create_handle-created metric tags d series r hd hs in
        let made₂ =
          create_handle-created metric tags d (insert_series first series) after_first hd
            first_at in
        let writes =
          increment-counter lib w h₂ (increment v h₁ after_second) kind
          ∙ ap (λ (x : Registry lib.Hist). write (add_counter w) h₂ x)
              (increment-counter lib v h₁ after_second kind) in
        rw (made₁, both_record) (rw made₂ (ap some writes))

    both_record-fold :
        fold_counter_sum metric every r + w < u64_max
        → fold_counter_sum metric every
            (write (add_counter w) (storage_to_handle metric second) after_write)
          ≡ fold_counter_sum metric every r + w
    unfolding storage_to_handle
    both_record-fold room =
        let h₂ = storage_to_handle metric second in
        let (n, stored) = kind_of-counter second.storage (new_storage-kind lib d.kind ∙ k) in
        let before = fold_counter_sum-counted metric every r in
        let after = fold_counter_sum-counted metric every (write (add_counter w) h₂ after_write) in
        let old = ap (counted every) (visit_series-at metric metric series r hs refl) in
        let now =
          ap (counted every) (
            visit_series-at metric metric (insert_series second series) after_write write_at
              refl) in
        let one_new = counted-insert_series every second series missing in
        let value = new_storage-value lib d.kind in
        let fits : counted every (insert_series second series) + w ≤ u64_max =
          omega (arith, before, old, one_new, value) in
        let added =
          counted-write metric w n every h₂ second (insert_series second series) after_write
            write_at (find-insert_series second series) refl stored fits in
        ground (arith, before, after, old, now, one_new, value, added)

  -- Two threads that look up the same tags of a counter before either has made their series: each
  -- inserts a storage, the second insertion replaces the first, and of the two additions only the
  -- second is in the sum of the metric afterwards; the other thread's addition is lost. The sum
  -- stays below the largest u64.
  pub both_record_loses :
      (metric v w : ℕ) (tags : TagSet) (d : MetricDef) (r : Registry lib.Hist)
      → IsRegistry r
      → get_elem? r.defs metric ≡ some d
      → d.kind ≡ MetricKind.counter
      → find_handle metric tags r ≡ some none
      → fold_counter_sum metric every r + w < u64_max
      → (r' : Registry lib.Hist) × (both_record lib metric tags v w r ≡ some r')
        × (fold_counter_sum metric every r' ≡ fold_counter_sum metric every r + w)
  unfolding storage_to_handle
  both_record_loses metric v w tags d r wf hd k looked room =
      let within : metric < length r.storage =
        omega (arith, wf.same_length, lt_of_get_elem? r.defs metric d hd) in
      let (series, hs) = get_elem?_in_range r.storage metric within in
      let missing = find_handle-none metric tags series r hs looked in
      let second = new_series lib (r.next_cell + 1) tags d.kind in
      (
        write (add_counter w) (storage_to_handle metric second)
            (after_write metric v w tags d r wf hd k series hs missing),
        both_record-run metric v w tags d r wf hd k series hs missing,
        both_record-fold metric v w tags d r wf hd k series hs missing room,
      )
