-- ===== src/Registry/Working.antt =====
-- What a handle of a registered metric does in every registry that the program can come to.
use wrkr.Prelude.{
  ℕ, ◌<◌, true, ◌≡◌, sym, ◌∙◌, subst, some, Option-cases, inl, inr, List, String, length, get_elem?,
  get_elem?_in_range, lt_of_get_elem?, arith,
}
use wrkr.Metrics.{get_or_intern, TagSet}
use wrkr.Registry.HdrHistogram.{Histograms}
use wrkr.Registry.{
  MetricKind, MetricStorage, MetricSeries, MetricHandle, Registry, lookup_metric, find_series,
  insert_series, kind_of, storage_to_handle, get_handle,
}
use wrkr.Registry.Series.{find-insert_series}
use wrkr.Registry.Invariant.{get_elem?-set_at, find_series-kind}
use wrkr.Registry.Handles.{
  find_series-tags, new_storage-kind, new_series, created, get_handle-found, get_handle-new,
}
use wrkr.Registry.Writes.{Write, target, kind_eq, load, stored, perform}
use wrkr.Registry.Cells.{find_def-get, kind_eq_refl, find_cell-found, load-write}
use wrkr.Registry.Reached.{Reach, Reach-IsRegistry}

module _ (lib : Histograms) where
  -- What a handle of a metric has to do: it is of the metric's kind, and what it writes is what it
  -- reads next.
  abbrev pub Works : MetricKind → Registry lib.Hist × MetricHandle → Type 0
  Works kind q =
      (q.1.kind ≡ kind)
      × ((w : Write)
          → target w ≡ kind
          → (x : MetricStorage lib.Hist) × (kind_of x ≡ kind)
            × (load q.1 q.0 ≡ some x)
            × (load q.1 (perform lib w q.1 q.0) ≡ some (stored lib w x)))

  live-Works :
      (kind : MetricKind) (metric : ℕ) (s : MetricSeries lib.Hist)
      (series : List (MetricSeries lib.Hist)) (r : Registry lib.Hist)
      → get_elem? r.storage metric ≡ some series
      → find_series s.tags series ≡ some s
      → kind_of s.storage ≡ kind
      → Works kind (r, storage_to_handle metric s)
  unfolding storage_to_handle load perform
  live-Works kind metric s series r hs found of = (
    of,
    λ w for.
        let h = storage_to_handle metric s in
        let cell = find_cell-found s.tags s series found in
        let takes : kind_eq (kind_of s.storage) (target w) ≡ true =
          rw of (rw for (kind_eq_refl kind)) in
        (
          s.storage,
          of,
          rw (hs, load) cell,
          rw takes (load-write (stored lib w) h s.storage series r hs cell),
        ),
  )

  -- In every registry that the operations of any threads lead to, `get_handle` gives a handle for
  -- every metric that `lookup_metric` finds, for any tags. The handle is of the kind of the metric,
  -- its storage is of that kind too, and each write that the kind has changes that storage.
  pub get_handle-Works :
      (name : String) (tags : TagSet) (id : ℕ) (kind : MetricKind) (r : Registry lib.Hist)
      → Reach lib r
      → (lookup_metric name r).1 ≡ some (id, kind)
      → (q : Registry lib.Hist × MetricHandle) × (get_handle lib id tags r ≡ some q) × Works kind q
  unfolding lookup_metric
  get_handle-Works name tags id kind r reach e =
      let wf = Reach-IsRegistry lib r reach in
      let (d, hd, of, named) = find_def-get (get_or_intern name r.interner).1 id kind r.defs e in
      let within : id < length r.storage =
        omega (arith, wf.same_length, lt_of_get_elem? r.defs id d hd) in
      let (series, hs) = get_elem?_in_range r.storage id within in
      elim (Option-cases (find_series tags series)) [
        | inr (s, found) ↦
            let under = find_series-tags tags s series found in
            let live = subst (λ (t : TagSet). find_series t series ≡ some s) (sym under) found in
            let kinds = find_series-kind d.kind tags s series (wf.typed id d series hd hs) found in
            (
              (r, storage_to_handle id s),
              get_handle-found lib id tags s series r hs found,
              live-Works kind id s series r hs live (kinds ∙ of),
            )
        | inl missing ↦
            let s = new_series lib r.next_cell tags d.kind in
            let r' = created lib id tags d.kind series r in
            let hs' : get_elem? r'.storage id ≡ some (insert_series s series) =
              get_elem?-set_at id id (insert_series s series) series r.storage hs ∙ ground arith in
            (
              (r', storage_to_handle id s),
              get_handle-new lib id tags d series r hd hs missing,
              live-Works kind id s (insert_series s series) r' hs' (find-insert_series s series)
                  (new_storage-kind lib d.kind ∙ of),
            )
      ]
