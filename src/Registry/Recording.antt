-- ===== src/Registry/Recording.antt =====
-- What is added to a counter is what the folds report.
use wrkr.Prelude.{
  ℕ, ◌+◌, ◌<◌, ◌≤◌, ◌≡◌, refl, sym, ap, ◌∙◌, subst, Bool, ◌&&◌, none, some, Option-cases,
  Bool-cases, inl, inr, List, length, get_elem?, get_elem?_in_range, lt_of_get_elem?, arith, ==_iff,
  ◌==◌, if◌then◌else◌, u64_max,
}
use wrkr.Metrics.{TagSet}
use wrkr.Registry.HdrHistogram.{Histograms}
use wrkr.Registry.{
  MetricKind, MetricSeries, MetricDef, Registry, find_series, insert_series, storage_to_handle,
  add_counter, write, add_to_counter, visit_series, fold_counter_sum,
}
use wrkr.Registry.Series.{every, counted, counted-le, find-insert_series, counted-insert_series}
use wrkr.Registry.Invariant.{get_elem?-set_at, IsRegistry, find_series-kind}
use wrkr.Registry.Handles.{
  new_storage-kind, new_storage-value, kind_of-counter, find_series-tags, fold_counter_sum-counted,
  visit_series-set_at, visit_series-at, counted-write, new_series, created, get_handle-found,
  get_handle-new, add_to_counter-handle,
}

module _ (lib : Histograms) where
  -- A new series adds nothing to any sum.
  counted-created :
      (metric j : ℕ) (predicate : TagSet → Bool) (tags : TagSet) (kind : MetricKind)
      (series : List (MetricSeries lib.Hist)) (r : Registry lib.Hist)
      → get_elem? r.storage metric ≡ some series
      → find_series tags series ≡ none
      → counted predicate (visit_series j (created lib metric tags kind series r))
        ≡ counted predicate (visit_series j r)
  counted-created metric j predicate tags kind series r hs found =
      let s = new_series lib r.next_cell tags kind in
      let sees =
        visit_series-set_at metric j r (created lib metric tags kind series r) series
          (insert_series s series) hs refl in
      let added = counted-insert_series predicate s series found in
      elim (Bool-cases (metric == j)) [
        | inl here ↦
            let old = visit_series-at metric j series r hs ((==_iff metric j).0 here) in
            rw (sees, here, old) (ground (arith, added, new_storage-value lib kind))
        | inr elsewhere ↦ rw (sees, elsewhere) refl
      ]

  module _ (metric j v : ℕ) (predicate : TagSet → Bool) (tags : TagSet) (d : MetricDef)
      (series : List (MetricSeries lib.Hist)) (r : Registry lib.Hist) (wf : IsRegistry r)
      (hd : get_elem? r.defs metric ≡ some d) (hs : get_elem? r.storage metric ≡ some series)
      (k : d.kind ≡ MetricKind.counter) (room : counted every series + v ≤ u64_max) where
    abbrev Adds : Registry lib.Hist → TagSet → Type 0
    Adds r' t =
        counted predicate (visit_series j r')
        ≡ counted predicate (visit_series j r) + (if metric == j && predicate t then v else 0)

    Adds-found :
        (s : MetricSeries lib.Hist)
        → find_series tags series ≡ some s
        → Adds (add_to_counter lib metric tags v r) tags
    unfolding storage_to_handle
    Adds-found s found =
        let h = storage_to_handle metric s in
        let kind =
          find_series-kind d.kind tags s series (wf.typed metric d series hd hs) found ∙ k in
        let (n, stored) = kind_of-counter s.storage kind in
        let named = find_series-tags tags s series found in
        let live = subst (λ (t : TagSet). find_series t series ≡ some s) (sym named) found in
        let gives = get_handle-found lib metric tags s series r hs found in
        let writes = add_to_counter-handle lib metric tags v h r r gives kind in
        let sum = counted-write j v n predicate h s series r hs live refl stored room in
        subst (λ (x : Registry lib.Hist). Adds x tags) (sym writes)
          (subst (Adds (write (add_counter v) h r)) named sum)

    Adds-new : find_series tags series ≡ none → Adds (add_to_counter lib metric tags v r) tags
    unfolding storage_to_handle
    Adds-new missing =
        let s = new_series lib r.next_cell tags d.kind in
        let r' = created lib metric tags d.kind series r in
        let h = storage_to_handle metric s in
        let kind = new_storage-kind lib d.kind ∙ k in
        let (n, stored) = kind_of-counter s.storage kind in
        let live = find-insert_series s series in
        let hs' : get_elem? r'.storage metric ≡ some (insert_series s series) =
          get_elem?-set_at metric metric (insert_series s series) series r.storage hs
          ∙ ground arith in
        let same = counted-created metric j predicate tags d.kind series r hs missing in
        let none_yet = counted-insert_series every s series missing in
        let room' : counted every (insert_series s series) + v ≤ u64_max =
          omega (arith, none_yet, new_storage-value lib d.kind) in
        let gives = get_handle-new lib metric tags d series r hd hs missing in
        let writes = add_to_counter-handle lib metric tags v h r r' gives kind in
        let sum =
          counted-write j v n predicate h s (insert_series s series) r' hs' live refl stored
            room' in
        subst (λ (x : Registry lib.Hist). Adds x tags) (sym writes) (sum ∙ omega (arith, same))

  pub add_to_counter-counted :
      (metric j v : ℕ) (predicate : TagSet → Bool) (tags : TagSet) (d : MetricDef)
      (r : Registry lib.Hist)
      → IsRegistry r
      → get_elem? r.defs metric ≡ some d
      → d.kind ≡ MetricKind.counter
      → counted every (visit_series metric r) + v ≤ u64_max
      → counted predicate (visit_series j (add_to_counter lib metric tags v r))
        ≡ counted predicate (visit_series j r) + (if metric == j && predicate tags then v else 0)
  add_to_counter-counted metric j v predicate tags d r wf hd k fits =
      let within : metric < length r.storage =
        omega (arith, wf.same_length, lt_of_get_elem? r.defs metric d hd) in
      let (series, hs) = get_elem?_in_range r.storage metric within in
      let room =
        subst (λ (l : List (MetricSeries lib.Hist)). counted every l + v ≤ u64_max)
          (visit_series-at metric metric series r hs refl) fits in
      elim (Option-cases (find_series tags series)) [
        | inl missing ↦ Adds-new metric j v predicate tags d series r wf hd hs k room missing
        | inr (s, found) ↦ Adds-found metric j v predicate tags d series r wf hd hs k room s found
      ]

  -- Recording `v` on a counter under some tags, by `get_handle` and an atomic addition with no other
  -- thread in between, raises the sum that `fold_counter_sum` reports of that metric by `v` for each
  -- predicate that takes the tags, and changes no other sum of it or of another metric. The metric
  -- is registered as a counter, and the sum over all its series stays below the largest u64.
  pub fold_counter_sum-add_to_counter :
      (metric j v : ℕ) (predicate : TagSet → Bool) (tags : TagSet) (d : MetricDef)
      (r : Registry lib.Hist)
      → IsRegistry r
      → get_elem? r.defs metric ≡ some d
      → d.kind ≡ MetricKind.counter
      → fold_counter_sum metric every r + v < u64_max
      → fold_counter_sum j predicate (add_to_counter lib metric tags v r)
        ≡ fold_counter_sum j predicate r + (if metric == j && predicate tags then v else 0)
  fold_counter_sum-add_to_counter metric j v predicate tags d r wf hd k room =
      let r' = add_to_counter lib metric tags v r in
      let before = fold_counter_sum-counted j predicate r in
      let after = fold_counter_sum-counted j predicate r' in
      let whole = fold_counter_sum-counted metric every r in
      let added =
        add_to_counter-counted metric j v predicate tags d r wf hd k (omega (arith, whole)) in
      elim (Bool-cases (metric == j)) [
        | inl here ↦
            let place =
              ap (λ (x : ℕ). counted every (visit_series x r)) ((==_iff metric j).0 here) in
            ground (arith, before, after, added, place, counted-le predicate (visit_series j r))
        | inr elsewhere ↦ ground (arith, before, after, added, elsewhere)
      ]
