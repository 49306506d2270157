-- ===== src/Registry/Preserved.antt =====
-- Every operation on the registry keeps it well-formed.
use wrkr.Prelude.{
  ℕ, zero, suc, ◌<◌, ◌≡◌, ◌≢◌, refl, sym, ap, ◌∙◌, ◌⊎◌, subst, Option, none, some, Option-cases,
  inl, inr, List, [], ◌∷◌, ◌++◌, length, get_elem?, get_elem?_in_range, lt_of_get_elem?,
  length-append, arith, String,
}
use wrkr.Metrics.{TagSet, get_or_intern}
use wrkr.Registry.HdrHistogram.{Histograms}
use wrkr.Registry.{
  MetricKind, MetricStorage, MetricSeries, MetricDef, MetricHandle, Registry, register, find_def,
  find_series, find_handle, insert_series, write_series, kind_of, storage_to_handle, write,
  get_handle, visit_series,
}
use wrkr.Registry.Invariant.{
  IsRegistry, OfKind, set_at-IsRegistry, insert_series-OfKind, write_series-OfKind,
}
use wrkr.Registry.Handles.{
  new_storage-kind, new_series, created, get_handle-found, get_handle-new, visit_series-set_at,
}

-- An element of a list with one more at its end.
pub get_elem?-push :
    {A : Type 0} (xs : List A) (i : ℕ) (a b : A)
    → get_elem? (xs ++ (a ∷ [])) i ≡ some b
    → (get_elem? xs i ≡ some b) ⊎ ((i ≡ length xs) × (a ≡ b))
get_elem?-push [] zero a b e = inr (refl, cc)
get_elem?-push [] (suc i) a b e = cc
get_elem?-push (x ∷ xs) zero a b e = inl e
get_elem?-push (x ∷ xs) (suc i) a b e = elim (get_elem?-push xs i a b e) [
  | inl found ↦ inl found
  | inr (last, same) ↦ inr (omega (arith, last), same)
]

module _ {Hist : Type 0} where
  pub interner-IsRegistry :
      (r r' : Registry Hist)
      → r'.defs ≡ r.defs
      → r'.storage ≡ r.storage
      → IsRegistry r
      → IsRegistry r'
  interner-IsRegistry r r' same_defs same_storage wf = record {
    same_length = ap length same_storage ∙ wf.same_length ∙ sym (ap length same_defs);
    typed = λ m d series hd hs.
        wf.typed m d series (ap (λ (ds : List MetricDef). get_elem? ds m) (sym same_defs) ∙ hd) (
          ap (λ (maps : List (List (MetricSeries Hist))). get_elem? maps m) (sym same_storage)
          ∙ hs);
  }

  pushed-IsRegistry :
      (r r' : Registry Hist) (e : MetricDef)
      → r'.defs ≡ r.defs ++ (e ∷ [])
      → r'.storage ≡ r.storage ++ ([] ∷ [])
      → IsRegistry r
      → IsRegistry r'
  pushed-IsRegistry r r' e pushed pushed' wf = record { same_length = same; typed = typed }
    where
      same : length r'.storage ≡ length r'.defs
      same = omega (
        arith,
        ap length pushed,
        ap length pushed',
        length-append r.defs (e ∷ []),
        length-append r.storage ([] ∷ []),
        wf.same_length,
      )

      typed :
          (m : ℕ) (d : MetricDef) (series : List (MetricSeries Hist))
          → get_elem? r'.defs m ≡ some d
          → get_elem? r'.storage m ≡ some series
          → OfKind d.kind series
      typed m d series hd hs =
          let at_def = ap (λ (ds : List MetricDef). get_elem? ds m) (sym pushed) ∙ hd in
          let at_map =
            ap (λ (maps : List (List (MetricSeries Hist))). get_elem? maps m) (sym pushed') ∙ hs in
          elim (get_elem?-push r.storage m [] series at_map) [
            | inr (last, empty) ↦ subst (OfKind d.kind) empty tt
            | inl old ↦ elim (get_elem?-push r.defs m e d at_def) [
              | inl old_def ↦ wf.typed m d series old_def old
              | inr (last, new_def) ↦
                  absurd
                    (omega (arith, lt_of_get_elem? r.storage m series old, wf.same_length, last))
            ]
          ]

  -- `register` keeps the registry well-formed: every metric has a map, and every series stores the
  -- kind that its metric was registered with.
  pub register-IsRegistry :
      (name : String) (kind : MetricKind) (r : Registry Hist)
      → IsRegistry r
      → IsRegistry (register name kind r).0
  unfolding register
  register-IsRegistry name kind r wf =
      let interned = get_or_intern name r.interner in
      elim (Option-cases (find_def interned.1 r.defs)) [
        | inl new ↦
            rw (new, register)
              (pushed-IsRegistry r _ (record { name = interned.1; kind = kind }) refl refl wf)
        | inr (found, e) ↦ rw (e, register) (interner-IsRegistry r _ refl refl wf)
      ]

  -- A write that keeps the kind of what it writes.
  pub write-IsRegistry :
      (f : MetricStorage Hist → MetricStorage Hist) (h : MetricHandle) (r : Registry Hist)
      → ((s : MetricStorage Hist) → kind_of (f s) ≡ kind_of s)
      → IsRegistry r
      → IsRegistry (write f h r)
  unfolding write
  write-IsRegistry f h r keeps wf = elim (Option-cases (get_elem? r.storage h.metric)) [
    | inl missing ↦ rw (missing, write) wf
    | inr (series, hs) ↦
        let within : h.metric < length r.defs =
          omega (arith, wf.same_length, lt_of_get_elem? r.storage h.metric series hs) in
        let (d, hd) = get_elem?_in_range r.defs h.metric within in
        rw (hs, write)
          (set_at-IsRegistry r _ h.metric d series (write_series h.tags h.cell f series) wf hd hs
            (write_series-OfKind d.kind f h.tags h.cell series keeps
              (wf.typed h.metric d series hd hs))
            refl refl)
  ]

module _ (lib : Histograms) where
  get_handle-missing :
      (metric : ℕ) (tags : TagSet) (r : Registry lib.Hist)
      → get_elem? r.storage metric ≡ none
      → get_handle lib metric tags r ≡ none
  unfolding get_handle
  get_handle-missing metric tags r e = rw (e, get_handle, find_handle) refl

  -- What `get_handle` leaves: a well-formed registry with the same metrics, the series of the other
  -- metrics, and a handle of its metric.
  abbrev pub IsHandled : ℕ → Registry lib.Hist → Registry lib.Hist × MetricHandle → Type 0
  IsHandled metric r (r', h) =
      IsRegistry r'
      × (r'.defs ≡ r.defs)
      × (h.metric ≡ metric)
      × ((j : ℕ) → metric ≢ j → visit_series j r' ≡ visit_series j r)

  same-IsHandled :
      (metric : ℕ) (r : Registry lib.Hist) (p q : Registry lib.Hist × MetricHandle)
      → ◌≡◌ {A = Option (Registry lib.Hist × MetricHandle)} (some p) (some q)
      → IsHandled metric r p
      → IsHandled metric r q
  same-IsHandled metric r p q e handled =
      let same : p ≡ q = cc in subst (IsHandled metric r) same handled

  created-IsHandled :
      (metric : ℕ) (tags : TagSet) (d : MetricDef) (series : List (MetricSeries lib.Hist))
      (r : Registry lib.Hist)
      → IsRegistry r
      → get_elem? r.defs metric ≡ some d
      → get_elem? r.storage metric ≡ some series
      → IsHandled metric r (
        created lib metric tags d.kind series r,
        storage_to_handle metric (new_series lib r.next_cell tags d.kind),
      )
  unfolding storage_to_handle
  created-IsHandled metric tags d series r wf hd hs =
      let s = new_series lib r.next_cell tags d.kind in
      (
        set_at-IsRegistry r _ metric d series (insert_series s series) wf hd hs
            (insert_series-OfKind d.kind s series (new_storage-kind lib d.kind)
              (wf.typed metric d series hd hs))
            refl refl,
        refl,
        refl,
        λ j apart.
            visit_series-set_at metric j r (created lib metric tags d.kind series r) series
              (insert_series s series) hs refl
            ∙ ground (arith, apart),
      )

  -- `get_handle` keeps the registry well-formed, its metrics, and the series of every other metric,
  -- whether it finds the series or makes it.
  pub get_handle-IsHandled :
      (metric : ℕ) (tags : TagSet) (r : Registry lib.Hist) (q : Registry lib.Hist × MetricHandle)
      → IsRegistry r
      → get_handle lib metric tags r ≡ some q
      → IsHandled metric r q
  unfolding storage_to_handle
  get_handle-IsHandled metric tags r q wf e = elim (Option-cases (get_elem? r.storage metric)) [
    | inl missing ↦ let nothing = get_handle-missing metric tags r missing in absurd cc
    | inr (series, hs) ↦
        let within : metric < length r.defs =
          omega (arith, wf.same_length, lt_of_get_elem? r.storage metric series hs) in
        let (d, hd) = get_elem?_in_range r.defs metric within in
        elim (Option-cases (find_series tags series)) [
          | inr (s, found) ↦
              same-IsHandled metric r (r, storage_to_handle metric s) q
                (sym (get_handle-found lib metric tags s series r hs found) ∙ e)
                (wf, refl, refl, λ j apart. refl)
          | inl new ↦
              same-IsHandled metric r _ q
                (sym (get_handle-new lib metric tags d series r hd hs new) ∙ e)
                (created-IsHandled metric tags d series r wf hd hs)
        ]
  ]
