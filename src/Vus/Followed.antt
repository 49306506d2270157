-- ===== src/Vus/Followed.antt =====
-- An operation of a user on the gauges of wrkr-core/src/vu.rs, once both have their series, is one of
-- Vus/Counted or a lookup that changes nothing.
use wrkr.Prelude.{
  ℕ, ◌+◌, ◌-◌, ◌^◌, ◌≤◌, ◌<◌, ◌≡◌, refl, sym, ap, ◌∙◌, subst, Bool, ◌&&◌, Option, Bool-cases, inl,
  inr, ltb, ◌==◌, arith,
}
use wrkr.Prelude.Int.{pos, negsuc}
use wrkr.Vus.{
  Entering, outside, making_active, counting, entered, making_peak, raising, comparing, inside,
  making_again, leaving, GaugeCells, set_value, found_or, vu_step, is_active,
}
use wrkr.Vus.Counted.{count_step}
use wrkr.Vus.Holding.{
  position, IsProper, IsHolding, IsFollowed, update_other, wrapping_add_i64-one,
  wrapping_sub_i64-one, saturating_inc_i64-pos, ltb_ℤ-pos, eq_ℤ-pos,
}
use wrkr.Vus.Start.{update_same}

module _ (lucky : Bool) (c d x y : ℕ) (g : GaugeCells) (h : IsHolding c d x y g) where
  keep_active : (n : ℕ) → IsHolding c d n y (set_value c (pos n) g)
  keep_active n = record {
    apart = h.apart;
    active_at = h.active_at;
    peak_at = h.peak_at;
    active_is = update_same g.values c (pos n);
    peak_is = update_other g.values c d (pos n) h.apart ∙ h.peak_is;
  }

  keep_peak : (n : ℕ) → IsHolding c d x n (set_value d (pos n) g)
  keep_peak n = record {
    apart = h.apart;
    active_at = h.active_at;
    peak_at = h.peak_at;
    active_is = update_other g.values d c (pos n) (λ e. h.apart (sym e)) ∙ h.active_is;
    peak_is = update_same g.values d (pos n);
  }

  -- A lookup, which changes nothing.
  looked :
      (v w : Entering)
      → IsProper c d w
      → is_active w ≡ is_active v
      → position w ≡ position v
      → IsFollowed lucky c d x y v (g, w)
  looked v w p counted same = record {
    x' = x;
    y' = y;
    holding = h;
    proper = p;
    counts = ap (λ (n : ℕ). x + n) (sym counted);
    moves = inr (refl, refl, same);
  }

  counting-IsFollowed :
      x + 1 < 2 ^ 63 → IsFollowed lucky c d x y (counting c) (vu_step lucky g (counting c))
  unfolding vu_step count_step
  counting-IsFollowed fits =
      rw (h.active_is, wrapping_add_i64-one x fits, saturating_inc_i64-pos x fits)
        (record {
          x' = x + 1;
          y' = y;
          holding = keep_active (x + 1);
          proper = tt;
          counts = omega arith;
          moves = inl refl;
        })

  leaving-IsFollowed :
      0 < x → x < 2 ^ 63 → IsFollowed lucky c d x y (leaving c) (vu_step lucky g (leaving c))
  unfolding vu_step count_step
  leaving-IsFollowed some_in fits =
      rw (h.active_is, wrapping_sub_i64-one x some_in fits)
        (record {
          x' = x - 1;
          y' = y;
          holding = keep_active (x - 1);
          proper = tt;
          counts = omega arith;
          moves = inl refl;
        })

  raising-IsFollowed :
      (m : ℕ) → IsFollowed lucky c d x y (raising (pos m) d) (vu_step lucky g (raising (pos m) d))
  unfolding vu_step count_step
  raising-IsFollowed m = rw h.peak_is (record {
    x' = x;
    y' = y;
    holding = h;
    proper = (tt, tt, refl);
    counts = refl;
    moves = inl refl;
  })

  comparing-IsFollowed :
      (m u : ℕ)
      → IsFollowed lucky c d x y
          (comparing (pos m) d (pos u))
          (vu_step lucky g (comparing (pos m) d (pos u)))
  unfolding vu_step count_step
  comparing-IsFollowed m u =
      rw (h.peak_is, ltb_ℤ-pos u m, eq_ℤ-pos y u)
        (elim (Bool-cases (ltb u m)) [
          | inr over ↦ rw over (record {
            x' = x;
            y' = y;
            holding = h;
            proper = tt;
            counts = refl;
            moves = inl (rw over refl);
          })
          | inl below ↦ elim (Bool-cases (y == u && lucky)) [
            | inl won ↦ rw below (
                rw won (record {
                  x' = x;
                  y' = m;
                  holding = keep_peak m;
                  proper = tt;
                  counts = refl;
                  moves = inl (rw below (rw won refl));
                }))
            | inr lost ↦ rw below (
                rw lost (record {
                  x' = x;
                  y' = y;
                  holding = h;
                  proper = (tt, tt, refl);
                  counts = refl;
                  moves = inl (rw below (rw lost refl));
                }))
          ]
        ])

  -- The lookups that find the two series.
  outside-IsFollowed : IsFollowed lucky c d x y outside (vu_step lucky g outside)
  unfolding vu_step
  outside-IsFollowed =
      subst (IsFollowed lucky c d x y outside)
        (ap (λ (o : Option ℕ). (g, found_or making_active counting o)) (sym h.active_at))
        (looked outside (counting c) refl refl refl)

  inside-IsFollowed : IsFollowed lucky c d x y inside (vu_step lucky g inside)
  unfolding vu_step
  inside-IsFollowed =
      subst (IsFollowed lucky c d x y inside)
        (ap (λ (o : Option ℕ). (g, found_or making_again leaving o)) (sym h.active_at))
        (looked inside (leaving c) refl refl refl)

  entered-IsFollowed :
      (m : ℕ) → IsFollowed lucky c d x y (entered (pos m)) (vu_step lucky g (entered (pos m)))
  unfolding vu_step
  entered-IsFollowed m =
      subst (IsFollowed lucky c d x y (entered (pos m)))
        (ap (λ (o : Option ℕ). (g, found_or (making_peak (pos m)) (raising (pos m)) o))
          (sym h.peak_at))
        (looked (entered (pos m)) (raising (pos m) d) (tt, refl) refl refl)

  -- Every operation of a user that is in its place, where the number of the active users leaves room
  -- for one more if the user is not among them, and counts it if it is.
  pub vu_step-IsFollowed :
      (v : Entering)
      → IsProper c d v
      → x + 1 < 2 ^ 63 + is_active v
      → is_active v ≤ x
      → IsFollowed lucky c d x y v (vu_step lucky g v)
  vu_step-IsFollowed outside p room counted = outside-IsFollowed
  vu_step-IsFollowed making_active p room counted = absurd p
  vu_step-IsFollowed (counting cell) p room counted =
      subst (λ (k : ℕ). IsFollowed lucky c d x y (counting k) (vu_step lucky g (counting k)))
        (sym p) (counting-IsFollowed (omega (arith, room)))
  vu_step-IsFollowed (entered (pos m)) p room counted = entered-IsFollowed m
  vu_step-IsFollowed (entered (negsuc m)) p room counted = absurd p
  vu_step-IsFollowed (making_peak a) p room counted = absurd p
  vu_step-IsFollowed (raising (pos m) cell) p room counted =
      subst
        (λ (k : ℕ).
          IsFollowed lucky c d x y (raising (pos m) k) (vu_step lucky g (raising (pos m) k)))
        (sym p.1) (raising-IsFollowed m)
  vu_step-IsFollowed (raising (negsuc m) cell) p room counted = absurd p.0
  vu_step-IsFollowed (comparing (pos m) cell (pos u)) p room counted =
      subst
        (λ (k : ℕ).
          IsFollowed lucky c d x y (comparing (pos m) k (pos u))
            (vu_step lucky g (comparing (pos m) k (pos u))))
        (sym p.2) (comparing-IsFollowed m u)
  vu_step-IsFollowed (comparing (pos m) cell (negsuc u)) p room counted = absurd p.1
  vu_step-IsFollowed (comparing (negsuc m) cell cur) p room counted = absurd p.0
  vu_step-IsFollowed inside p room counted = inside-IsFollowed
  vu_step-IsFollowed making_again p room counted = absurd p
  vu_step-IsFollowed (leaving cell) p room counted =
      subst (λ (k : ℕ). IsFollowed lucky c d x y (leaving k) (vu_step lucky g (leaving k))) (sym p)
        (leaving-IsFollowed (omega (arith, counted)) (omega (arith, room)))
