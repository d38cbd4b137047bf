-- ===== src/Kernel32/CriticalSection/Local.antt =====
-- crates/quantum-kernel32/src/sync.rs: what a thread knows of the words of a critical section.
use quantum.Prelude.{
  ℕ, suc, ◌+◌, ◌-◌, ◌%◌, ◌^◌, ◌<◌, ◌≡◌, ◌≢◌, refl, sym, false, ◌==◌, leb, arith, by_test, ==_iff,
  leb→le,
}
use quantum.Kernel32.CriticalSection.{
  Phase, at_rest, entering, try_entering, trying, trying_once, re_entering, acquired, releasing,
  leaving, Words, advance, hold,
}

-- What the owner word may still name: a thread that holds an entry, or is about to clear it.
abbrev pub pending : Phase → ℕ
pending (leaving d) = suc d
pending p = hold p

-- The bounds of a phase.
abbrev pub Fits : Phase → Type 0
Fits (at_rest d) = d < 2 ^ 32
Fits (re_entering d) = (0 < d) × (suc d < 2 ^ 32)
Fits (acquired d) = d ≡ 0
Fits (leaving d) = d ≡ 0
Fits (entering d) = suc d < 2 ^ 32
Fits (try_entering d) = suc d < 2 ^ 32
Fits (trying d) = suc d < 2 ^ 32
Fits (trying_once d) = suc d < 2 ^ 32
Fits (releasing d) = suc d < 2 ^ 32

pub record Local (t : ℕ) (w : Words) (p : Phase) : Type 0 where
  pub fits : Fits p
  pub counted : 0 < hold p → hold p ≡ w.lock_count
  pub owned : w.owner_thread_id ≡ t → 0 < pending p

module _ (t : ℕ) where
  abbrev LocalOf : Words × Phase → Type 0
  LocalOf r = Local t r.0 r.1

  taken-Local :
      (w : Words) (d : ℕ)
      → (0 < d → d ≡ w.lock_count)
      → (w.owner_thread_id ≡ t → 0 < d)
      → w.lock_count ≡ 0
      → Local t (record w { lock_count = 1 }) (acquired d)
  taken-Local w d c o e = record {
    fits = ground arith;
    counted = λ q. ground arith;
    owned = λ q. ground arith;
  }

  above_one : (w : Words) (d : ℕ) → leb w.lock_count 1 ≡ false → suc d ≡ w.lock_count → 0 < d
  above_one w d e q = ground arith

  -- One step of the thread itself.
  pub Local-advance : (w : Words) (p : Phase) → t ≢ 0 → Local t w p → LocalOf (advance t w p)
  unfolding advance
  Local-advance w (at_rest d) n h = h
  Local-advance w (entering d) n h =
      by_test (Local t w) (w.owner_thread_id == t) (re_entering d) (trying d)
        (λ e. record {
          fits = ground (arith, h.owned, h.fits);
          counted = h.counted;
          owned = h.owned;
        })
        (λ e. record { fits = h.fits; counted = h.counted; owned = h.owned })
  Local-advance w (try_entering d) n h =
      by_test (Local t w) (w.owner_thread_id == t) (re_entering d) (trying_once d)
        (λ e. record {
          fits = ground (arith, h.owned, h.fits);
          counted = h.counted;
          owned = h.owned;
        })
        (λ e. record { fits = h.fits; counted = h.counted; owned = h.owned })
  Local-advance w (trying d) n h =
      by_test LocalOf (w.lock_count == 0) (record w { lock_count = 1 }, acquired d) (w, entering d)
        (λ e. taken-Local w d h.counted h.owned ((==_iff w.lock_count 0).0 e))
        (λ e. record { fits = h.fits; counted = h.counted; owned = h.owned })
  Local-advance w (trying_once d) n h =
      by_test LocalOf (w.lock_count == 0) (record w { lock_count = 1 }, acquired d) (w, at_rest d)
        (λ e. taken-Local w d h.counted h.owned ((==_iff w.lock_count 0).0 e))
        (λ e. record { fits = omega (arith, h.fits); counted = h.counted; owned = h.owned })
  Local-advance w (re_entering d) n h = record {
    fits = ground arith;
    counted = λ q. ground (arith, h.counted);
    owned = λ q. ground arith;
  }
  Local-advance w (acquired d) n h = record {
    fits = ground arith;
    counted = λ q. ground (arith, h.counted);
    owned = λ q. ground arith;
  }
  Local-advance w (releasing d) n h =
      by_test (Local t (record w { lock_count = (w.lock_count + 2 ^ 32 - 1) % 2 ^ 32 }))
        (leb w.lock_count 1) (leaving d) (at_rest d)
        (λ e. record {
          fits = omega (arith, leb→le w.lock_count 1 e, h.counted (omega arith));
          counted = λ q. omega (arith, leb→le w.lock_count 1 e, h.counted (omega arith));
          owned = λ q. omega arith;
        })
        (λ e. record {
          fits = omega (arith, h.fits);
          counted = λ q. omega (arith, h.fits, h.counted (omega arith));
          owned = λ q. above_one w d e (h.counted (omega arith));
        })
  Local-advance w (leaving d) n h = record {
    fits = ground arith;
    counted = λ q. ground (arith, h.counted);
    owned = λ q. ground arith;
  }

-- The lock count changes only if the thread holds an entry, or if it is 0.
pub count_kept :
    (t : ℕ) (w : Words) (p : Phase)
    → Fits p
    → hold p ≡ 0
    → w.lock_count ≢ 0
    → (advance t w p).0.lock_count ≡ w.lock_count
unfolding advance
count_kept t w (at_rest d) f h n = refl
count_kept t w (entering d) f h n = refl
count_kept t w (try_entering d) f h n = refl
count_kept t w (trying d) f h n = ground arith
count_kept t w (trying_once d) f h n = ground arith
count_kept t w (re_entering d) f h n = absurd (omega arith)
count_kept t w (acquired d) f h n = refl
count_kept t w (releasing d) f h n = absurd (omega arith)
count_kept t w (leaving d) f h n = refl

-- The owner word is set to nothing but the thread itself, or 0.
pub owner_kept :
    (t u : ℕ) (w : Words) (p : Phase)
    → t ≢ u
    → u ≢ 0
    → (advance t w p).0.owner_thread_id ≡ u
    → w.owner_thread_id ≡ u
unfolding advance
owner_kept t u w (at_rest d) n z e = e
owner_kept t u w (entering d) n z e = e
owner_kept t u w (try_entering d) n z e = e
owner_kept t u w (trying d) n z e = ground arith
owner_kept t u w (trying_once d) n z e = ground arith
owner_kept t u w (re_entering d) n z e = e
owner_kept t u w (acquired d) n z e = absurd (n e)
owner_kept t u w (releasing d) n z e = e
owner_kept t u w (leaving d) n z e = absurd (z (sym e))

-- A thread that holds an entry behind its step held one before, or the lock count was 0.
pub hold_before :
    (t : ℕ) (w : Words) (p : Phase)
    → Fits p
    → w.lock_count ≢ 0
    → 0 < hold (advance t w p).1
    → 0 < hold p
unfolding advance
hold_before t w (at_rest d) f n h = h
hold_before t w (entering d) f n h = ground arith
hold_before t w (try_entering d) f n h = ground arith
hold_before t w (trying d) f n h = ground arith
hold_before t w (trying_once d) f n h = ground arith
hold_before t w (re_entering d) f n h = f.0
hold_before t w (acquired d) f n h = omega arith
hold_before t w (releasing d) f n h = omega arith
hold_before t w (leaving d) f n h = h
