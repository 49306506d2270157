-- ===== src/Registry/Cells.antt =====
-- The storage that a handle shares: finding it, and what a write makes of it.
use wrkr.Prelude.{
  ℕ, suc, true, ◌≡◌, refl, ap, ◌∙◌, subst, ◌&&◌, Option, some, Option-cases, Bool-cases, inl, inr,
  List, [], ◌∷◌, get_elem?, arith, ◌==◌, ==_iff,
}
use wrkr.Metrics.{TagSet, tags_eq}
use wrkr.Registry.{
  MetricKind, MetricStorage, MetricSeries, MetricDef, MetricHandle, Registry, find_def, find_series,
  write_series, write,
}
use wrkr.Registry.Invariant.{get_elem?-set_at}
use wrkr.Registry.Handles.{storage-write}
use wrkr.Registry.Writes.{kind_eq, find_cell, load}

pub find_def-get :
    (name idx : ℕ) (kind : MetricKind) (defs : List MetricDef)
    → find_def name defs ≡ some (idx, kind)
    → (d : MetricDef) × (get_elem? defs idx ≡ some d) × (d.kind ≡ kind) × (d.name ≡ name)
unfolding find_def
find_def-get name idx kind [] e = cc
find_def-get name idx kind (d ∷ defs) e = elim (Bool-cases (d.name == name)) [
  | inl here ↦
      let found : ◌≡◌ {A = Option (ℕ × MetricKind)} (some (0, d.kind)) (some (idx, kind)) =
        rw here at e in
      let place : 0 ≡ idx = cc in
      let same : d.kind ≡ kind = cc in
      subst
        (λ (i : ℕ).
          (x : MetricDef) × (get_elem? (d ∷ defs) i ≡ some x) × (x.kind ≡ kind) × (x.name ≡ name))
        place (d, refl, same, (==_iff d.name name).0 here)
  | inr other ↦ elim (Option-cases (find_def name defs)) [
    | inl missing ↦ ground (arith, other, missing)
    | inr ((i, k), found) ↦
        let next : ◌≡◌ {A = Option (ℕ × MetricKind)} (some (suc i, k)) (some (idx, kind)) =
          ground (arith, other, found) in
        let place : suc i ≡ idx = cc in
        let same : k ≡ kind = cc in
        let (x, at, of, named) = find_def-get name i k defs found in
        subst
          (λ (j : ℕ).
            (x : MetricDef) × (get_elem? (d ∷ defs) j ≡ some x) × (x.kind ≡ kind) × (x.name ≡ name))
          place (x, at, of ∙ same, named)
  ]
]

pub kind_eq_refl : (k : MetricKind) → kind_eq k k ≡ true
kind_eq_refl MetricKind.counter = refl
kind_eq_refl MetricKind.gauge = refl
kind_eq_refl MetricKind.rate = refl
kind_eq_refl MetricKind.histogram = refl

module _ {Hist : Type 0} where
  pub find_cell-found :
      (tags : TagSet) (s : MetricSeries Hist) (series : List (MetricSeries Hist))
      → find_series tags series ≡ some s
      → find_cell tags s.cell series ≡ some s.storage
  unfolding find_series find_cell
  find_cell-found tags s [] e = cc
  find_cell-found tags s (t ∷ series) e = elim (Bool-cases (tags_eq t.tags tags)) [
    | inl same ↦
        let here : t ≡ s = cc in
        let cells : t.cell ≡ s.cell = ap (λ (x : MetricSeries Hist). x.cell) here in
        let kept : t.storage ≡ s.storage = ap (λ (x : MetricSeries Hist). x.storage) here in
        ground (arith, same, cells, kept)
    | inr other ↦ rw other (find_cell-found tags s series (rw other at e))
  ]

  find_cell-write_series :
      (tags : TagSet) (cell : ℕ) (f : MetricStorage Hist → MetricStorage Hist)
      (x : MetricStorage Hist) (series : List (MetricSeries Hist))
      → find_cell tags cell series ≡ some x
      → find_cell tags cell (write_series tags cell f series) ≡ some (f x)
  unfolding find_cell write_series
  find_cell-write_series tags cell f x [] e = cc
  find_cell-write_series tags cell f x (s ∷ series) e =
      elim (Bool-cases (tags_eq s.tags tags && s.cell == cell)) [
        | inl here ↦
            let this : s.storage ≡ x = cc in
            rw here (rw here (ap (λ (y : MetricStorage Hist). some (f y)) this))
        | inr other ↦
            rw other (rw other (find_cell-write_series tags cell f x series (rw other at e)))
      ]

  -- A write through a live handle is what the handle reads next.
  pub load-write :
      (f : MetricStorage Hist → MetricStorage Hist) (h : MetricHandle) (x : MetricStorage Hist)
      (series : List (MetricSeries Hist)) (r : Registry Hist)
      → get_elem? r.storage h.metric ≡ some series
      → find_cell h.tags h.cell series ≡ some x
      → load h (write f h r) ≡ some (f x)
  unfolding load
  load-write f h x series r hs e =
      let after : get_elem? (write f h r).storage h.metric
          ≡ some (write_series h.tags h.cell f series) =
        ap (λ (maps : List (List (MetricSeries Hist))). get_elem? maps h.metric)
          (storage-write f h series r hs)
        ∙ get_elem?-set_at h.metric h.metric (write_series h.tags h.cell f series) series r.storage
            hs
        ∙ ground arith in
      rw (after, load) (find_cell-write_series h.tags h.cell f x series e)
