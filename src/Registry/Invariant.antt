-- ===== src/Registry/Invariant.antt =====
-- The well-formed registries: every series stores the kind of its metric, every metric has a map of
-- series, and every write and every new handle keeps that.
use wrkr.Prelude.{
  ℕ, zero, suc, ◌≡◌, refl, sym, ap, ◌∙◌, subst, ◌&&◌, some, Bool-cases, inl, inr, List, [], ◌∷◌,
  All, length, get_elem?, arith, ==_iff, ◌==◌, if◌then◌else◌,
}
use wrkr.Metrics.{TagSet, tags_eq}
use wrkr.Registry.{
  MetricKind, MetricStorage, counter, gauge, rate, histogram, MetricSeries, MetricDef, Registry,
  find_series, insert_series, write_series, set_at, kind_of, add_counter,
}

pub get_elem?-set_at :
    {A : Type 0} (i j : ℕ) (a b : A) (xs : List A)
    → get_elem? xs i ≡ some b
    → get_elem? (set_at i a xs) j ≡ (if i == j then some a else get_elem? xs j)
get_elem?-set_at i j a b [] h = cc
get_elem?-set_at zero zero a b (x ∷ xs) h = refl
get_elem?-set_at zero (suc j) a b (x ∷ xs) h = ground arith
get_elem?-set_at (suc i) zero a b (x ∷ xs) h = ground arith
get_elem?-set_at (suc i) (suc j) a b (x ∷ xs) h = ground (arith, get_elem?-set_at i j a b xs h)

pub length-set_at : {A : Type 0} (i : ℕ) (a : A) (xs : List A) → length (set_at i a xs) ≡ length xs
length-set_at i a [] = refl
length-set_at zero a (x ∷ xs) = refl
length-set_at (suc i) a (x ∷ xs) = omega (arith, length-set_at i a xs)

module _ {Hist : Type 0} where
  abbrev pub OfKind : MetricKind → List (MetricSeries Hist) → Type 0
  OfKind kind series = All (λ (s : MetricSeries Hist). kind_of s.storage ≡ kind) series

  pub record IsRegistry (r : Registry Hist) : Type 0 where
    pub same_length : length r.storage ≡ length r.defs
    pub typed :
        (m : ℕ) (d : MetricDef) (series : List (MetricSeries Hist))
        → get_elem? r.defs m ≡ some d
        → get_elem? r.storage m ≡ some series
        → OfKind d.kind series

  pub find_series-kind :
      (kind : MetricKind) (tags : TagSet) (s : MetricSeries Hist)
      (series : List (MetricSeries Hist))
      → OfKind kind series
      → find_series tags series ≡ some s
      → kind_of s.storage ≡ kind
  unfolding find_series
  find_series-kind kind tags s [] ofs h = cc
  find_series-kind kind tags s (t ∷ series) ofs h = elim (Bool-cases (tags_eq t.tags tags)) [
    | inl same ↦
        let found : t ≡ s = cc in
        subst (λ (x : MetricSeries Hist). kind_of x.storage ≡ kind) found ofs.0
    | inr other ↦
        let later : find_series tags series ≡ some s = cc in
        find_series-kind kind tags s series ofs.1 later
  ]

  pub insert_series-OfKind :
      (kind : MetricKind) (s : MetricSeries Hist) (series : List (MetricSeries Hist))
      → kind_of s.storage ≡ kind
      → OfKind kind series
      → OfKind kind (insert_series s series)
  unfolding insert_series
  insert_series-OfKind kind s [] k h = (k, tt)
  insert_series-OfKind kind s (t ∷ series) k h = elim (Bool-cases (tags_eq t.tags s.tags)) [
    | inl same ↦ rw same (k, h.1)
    | inr other ↦ rw other (h.0, insert_series-OfKind kind s series k h.1)
  ]

  pub write_series-OfKind :
      (kind : MetricKind) (f : MetricStorage Hist → MetricStorage Hist) (tags : TagSet) (cell : ℕ)
      (series : List (MetricSeries Hist))
      → ((s : MetricStorage Hist) → kind_of (f s) ≡ kind_of s)
      → OfKind kind series
      → OfKind kind (write_series tags cell f series)
  unfolding write_series
  write_series-OfKind kind f tags cell [] keeps h = tt
  write_series-OfKind kind f tags cell (s ∷ series) keeps h =
      elim (Bool-cases (tags_eq s.tags tags && s.cell == cell)) [
        | inl same ↦ rw same (keeps s.storage ∙ h.0, h.1)
        | inr other ↦ rw other (h.0, write_series-OfKind kind f tags cell series keeps h.1)
      ]

  pub add_counter-kind : (v : ℕ) (s : MetricStorage Hist) → kind_of (add_counter v s) ≡ kind_of s
  unfolding add_counter kind_of
  add_counter-kind v (counter n) = refl
  add_counter-kind v (gauge z) = refl
  add_counter-kind v (rate t h) = refl
  add_counter-kind v (histogram h) = refl

  -- Putting a map of the right kind at the place of a metric.
  pub set_at-IsRegistry :
      (r r' : Registry Hist) (m : ℕ) (d : MetricDef) (old series : List (MetricSeries Hist))
      → IsRegistry r
      → get_elem? r.defs m ≡ some d
      → get_elem? r.storage m ≡ some old
      → OfKind d.kind series
      → r'.defs ≡ r.defs
      → r'.storage ≡ set_at m series r.storage
      → IsRegistry r'
  set_at-IsRegistry r r' m d old series wf hd hs ofs defs_same storage_set = record {
    same_length = same;
    typed = typed;
  }
    where
      same : length r'.storage ≡ length r'.defs
      same = omega (
        arith,
        ap length storage_set,
        ap length defs_same,
        length-set_at m series r.storage,
        wf.same_length,
      )

      typed :
          (j : ℕ) (e : MetricDef) (other : List (MetricSeries Hist))
          → get_elem? r'.defs j ≡ some e
          → get_elem? r'.storage j ≡ some other
          → OfKind e.kind other
      typed j e other he ho =
          let def_at : get_elem? r.defs j ≡ some e =
            ap (λ (ds : List MetricDef). get_elem? ds j) (sym defs_same) ∙ he in
          let at : (if m == j then some series else get_elem? r.storage j) ≡ some other =
            sym (get_elem?-set_at m j series old r.storage hs)
            ∙ ap (λ (maps : List (List (MetricSeries Hist))). get_elem? maps j) (sym storage_set)
            ∙ ho in
          elim (Bool-cases (m == j)) [
            | inl here ↦
                let place : m ≡ j = (==_iff m j).0 here in
                let kinds : d ≡ e = ground (arith, hd, def_at, place) in
                let maps : series ≡ other = ground (arith, at, here) in
                subst (λ (x : MetricDef). OfKind x.kind other) kinds
                  (subst (OfKind d.kind) maps ofs)
            | inr elsewhere ↦
                let kept : get_elem? r.storage j ≡ some other = ground (arith, at, elsewhere) in
                wf.typed j e other def_at kept
          ]
