-- ===== src/Registry/Reached.antt =====
-- The registries that the program can come to, with any threads in between.
use wrkr.Prelude.{
  ℕ, ◌≡◌, refl, subst, some, Option-cases, Bool-cases, inl, inr, [], String, get_elem?, arith,
}
use wrkr.Metrics.{new, get_or_intern, TagSet}
use wrkr.Registry.HdrHistogram.{Histograms}
use wrkr.Registry.{
  MetricKind, MetricStorage, MetricHandle, Registry, register, insert_series, kind_of,
  storage_to_handle, create_handle, add_counter,
}
use wrkr.Registry.Invariant.{IsRegistry, set_at-IsRegistry, insert_series-OfKind}
use wrkr.Registry.Handles.{new_storage-kind, new_series, created}
use wrkr.Registry.Preserved.{interner-IsRegistry, register-IsRegistry, write-IsRegistry}
use wrkr.Registry.Writes.{
  Write, increment, set_gauge, increment_gauge, decrement_gauge, add_rate, observe_histogram,
  target, kind_eq, on_gauge, add_to_rate, on_histogram, stored, perform,
}

module _ (lib : Histograms) where
  abbrev pub empty : Registry lib.Hist
  empty = record { interner = new; defs = []; storage = []; next_cell = 0 }

  -- The registries that the operations lead to, in any order and by any threads: a thread makes a
  -- series whenever it once found none, also when another has made it meanwhile.
  pub data Reach : Registry lib.Hist → Type 0 where
    begin : Reach empty
    interns :
        (name : String) {r : Registry lib.Hist}
        → Reach r
        → Reach (record r { interner = (get_or_intern name r.interner).0 })
    registers :
        (name : String) (kind : MetricKind) {r : Registry lib.Hist}
        → Reach r
        → Reach (register name kind r).0
    creates :
        (metric : ℕ) (tags : TagSet) (q : Registry lib.Hist × MetricHandle) {r : Registry lib.Hist}
        → create_handle lib metric tags r ≡ some q
        → Reach r
        → Reach q.0
    performs :
        (w : Write) (h : MetricHandle) {r : Registry lib.Hist} → Reach r → Reach (perform lib w h r)

  stored-kind : (w : Write) (s : MetricStorage lib.Hist) → kind_of (stored lib w s) ≡ kind_of s
  unfolding stored kind_of on_gauge add_to_rate on_histogram add_counter
  stored-kind (increment v) s = ground arith
  stored-kind (set_gauge v) s = ground arith
  stored-kind (increment_gauge v) s = ground arith
  stored-kind (decrement_gauge v) s = ground arith
  stored-kind (add_rate hits total) s = ground arith
  stored-kind (observe_histogram v) s = ground arith

  create_handle-IsRegistry :
      (metric : ℕ) (tags : TagSet) (q : Registry lib.Hist × MetricHandle) (r : Registry lib.Hist)
      → create_handle lib metric tags r ≡ some q
      → IsRegistry r
      → IsRegistry q.0
  unfolding create_handle storage_to_handle
  create_handle-IsRegistry metric tags q r e wf = elim (Option-cases (get_elem? r.defs metric)) [
    | inl missing ↦ absurd (ground (arith, missing))
    | inr (d, hd) ↦ elim (Option-cases (get_elem? r.storage metric)) [
      | inl missing ↦ absurd (ground (arith, missing, hd))
      | inr (series, hs) ↦
          let s = new_series lib r.next_cell tags d.kind in
          let made =
            set_at-IsRegistry r (created lib metric tags d.kind series r) metric d series
              (insert_series s series) wf hd hs
              (insert_series-OfKind d.kind s series (new_storage-kind lib d.kind)
                (wf.typed metric d series hd hs))
              refl refl in
          let whole : create_handle lib metric tags r
              ≡ some (created lib metric tags d.kind series r, storage_to_handle metric s) =
            rw (hd, create_handle) (rw (hs) refl) in
          let this : created lib metric tags d.kind series r ≡ q.0 = cc in
          subst (λ (x : Registry lib.Hist). IsRegistry x) this made
    ]
  ]

  perform-IsRegistry :
      (w : Write) (h : MetricHandle) (r : Registry lib.Hist)
      → IsRegistry r
      → IsRegistry (perform lib w h r)
  unfolding perform
  perform-IsRegistry w h r wf = elim (Bool-cases (kind_eq h.kind (target w))) [
    | inl same ↦ rw same (write-IsRegistry (stored lib w) h r (stored-kind w) wf)
    | inr other ↦ rw other wf
  ]

  pub Reach-IsRegistry : (r : Registry lib.Hist) → Reach r → IsRegistry r
  Reach-IsRegistry r begin = record { same_length = refl; typed = λ m d series hd hs. cc }
  Reach-IsRegistry r (interns name {r = s} h) =
      interner-IsRegistry s _ refl refl (Reach-IsRegistry s h)
  Reach-IsRegistry r (registers name kind {r = s} h) =
      register-IsRegistry name kind s (Reach-IsRegistry s h)
  Reach-IsRegistry r (creates metric tags q {r = s} e h) =
      create_handle-IsRegistry metric tags q s e (Reach-IsRegistry s h)
  Reach-IsRegistry r (performs w h {r = s} reach) =
      perform-IsRegistry w h s (Reach-IsRegistry s reach)
