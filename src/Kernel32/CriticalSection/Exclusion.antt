-- ===== src/Kernel32/CriticalSection/Exclusion.antt =====
-- crates/quantum-kernel32/src/sync.rs: mutual exclusion of the threads in a critical section.
use quantum.Prelude.{
  ℕ, zero, suc, ◌<◌, ◌≡◌, ◌≢◌, refl, sym, ap, false, ◌==◌, arith, by_test, ==_iff, subst, ◌∙◌, ◌⊎◌,
  inl, inr,
}
use quantum.Kernel32.CriticalSection.{
  Phase, entering, try_entering, releasing, Words, advance, System, update, move, Step, runs,
  enters, tries, leaves, Reaches, start, next, hold,
}
use quantum.Kernel32.CriticalSection.Local.{
  Local, pending, Fits, Local-advance, count_kept, owner_kept, hold_before,
}

zero_or_more : (n : ℕ) → (n ≡ 0) ⊎ (0 < n)
zero_or_more zero = inl refl
zero_or_more (suc n) = inr (omega arith)

pub eq_false : (a b : ℕ) → (a == b) ≡ false → a ≢ b
eq_false a b h = ground arith

pub record Invariant (s : System) : Type 0 where
  pub each : (t : ℕ) → t ≢ 0 → Local t s.words (s.phase t)
  pub alone : (t u : ℕ) → t ≢ 0 → u ≢ 0 → t ≢ u → 0 < hold (s.phase t) → hold (s.phase u) ≡ 0

-- A step by the thread `t` to words `w'` and a phase `p'`.
moved :
    (s : System) (t : ℕ) (r : Words × Phase)
    → Invariant s
    → Local t r.0 r.1
    → ((u : ℕ) → u ≢ 0 → t ≢ u → Local u r.0 (s.phase u))
    → ((u : ℕ) → u ≢ 0 → t ≢ u → 0 < hold r.1 → hold (s.phase u) ≡ 0)
    → Invariant (move t s r)
moved s t r v own others free = record {
  each = λ u z.
      by_test (Local u r.0) (u == t) r.1 (s.phase u)
        (λ e. subst (λ (k : ℕ). Local k r.0 r.1) (sym ((==_iff u t).0 e)) own)
        (λ e. others u z (λ q. eq_false u t e (sym q)));
  alone = λ a b za zb n.
      by_test (λ p. 0 < hold p → hold (update s.phase t r.1 b) ≡ 0) (a == t) r.1 (s.phase a)
        (λ e h.
          by_test (λ p. hold p ≡ 0) (b == t) r.1 (s.phase b)
            (λ e'. absurd (n ((==_iff a t).0 e ∙ sym ((==_iff b t).0 e'))))
            (λ e'. free b zb (λ q. eq_false b t e' (sym q)) h))
        (λ e h.
          by_test (λ p. hold p ≡ 0) (b == t) r.1 (s.phase b)
            (λ e'. elim (zero_or_more (hold r.1)) [
              | inl z ↦ z
              | inr h' ↦ absurd (omega (arith, h, free a za (λ q. eq_false a t e (sym q)) h'))
            ])
            (λ e'. v.alone a b za zb n h));
}

-- Where a call starts, the words and the entries held stay.
begun :
    (s : System) (t : ℕ) (p : Phase)
    → t ≢ 0
    → Invariant s
    → Fits p
    → hold p ≡ hold (s.phase t)
    → (s.words.owner_thread_id ≡ t → 0 < pending p)
    → Invariant (move t s (s.words, p))
begun s t p z v f h o =
    moved s t (s.words, p) v
      (record {
        fits = f;
        counted = λ q. h ∙ (v.each t z).counted (subst (λ (k : ℕ). 0 < k) h q);
        owned = o;
      })
      (λ u zu n. v.each u zu) (λ u zu n q. v.alone t u z zu n (subst (λ (k : ℕ). 0 < k) h q))

-- Threads other than the one that steps.
others-advance :
    (s : System) (t u : ℕ)
    → t ≢ 0
    → u ≢ 0
    → t ≢ u
    → Invariant s
    → Local u (advance t s.words (s.phase t)).0 (s.phase u)
others-advance s t u z zu n v = record {
  fits = h.fits;
  counted = λ q.
      h.counted q
      ∙ sym (
          count_kept t s.words (s.phase t) (v.each t z).fits (v.alone u t zu z (λ e. n (sym e)) q)
            (λ e. omega (arith, q, h.counted q, e)));
  owned = λ e. h.owned (owner_kept t u s.words (s.phase t) n zu e);
}
  where
    h : Local u s.words (s.phase u)
    h = v.each u zu

free-advance :
    (s : System) (t u : ℕ)
    → t ≢ 0
    → u ≢ 0
    → t ≢ u
    → Invariant s
    → 0 < hold (advance t s.words (s.phase t)).1
    → hold (s.phase u) ≡ 0
free-advance s t u z zu n v q = elim (zero_or_more (hold (s.phase u))) [
  | inl e ↦ e
  | inr h ↦ absurd (
      omega (
        arith,
        h,
        v.alone t u z zu n (
            hold_before t s.words (s.phase t) (v.each t z).fits
              (λ e. omega (arith, h, (v.each u zu).counted h, e)) q),
      ))
]

pub Step-Invariant : {s s' : System} → Step s s' → Invariant s → Invariant s'
Step-Invariant {s} (runs t z) v =
    moved s t (advance t s.words (s.phase t)) v (Local-advance t s.words (s.phase t) z (v.each t z))
      (λ u zu n. others-advance s t u z zu n v) (λ u zu n. free-advance s t u z zu n v)
Step-Invariant {s} (enters t d z e f) v =
    begun s t (entering d) z v f (sym (ap hold e))
      (λ o. subst (λ p. 0 < pending p) e ((v.each t z).owned o))
Step-Invariant {s} (tries t d z e f) v =
    begun s t (try_entering d) z v f (sym (ap hold e))
      (λ o. subst (λ p. 0 < pending p) e ((v.each t z).owned o))
Step-Invariant {s} (leaves t d z e) v =
    begun s t (releasing d) z v (subst Fits e (v.each t z).fits) (sym (ap hold e))
      (λ o. subst (λ p. 0 < pending p) e ((v.each t z).owned o))

pub Reaches-Invariant : {s : System} → Reaches s → Invariant s
Reaches-Invariant start = record {
  each = λ t z. record {
    fits = omega arith;
    counted = λ q. absurd (omega arith);
    owned = λ q. absurd (z (sym q));
  };
  alone = λ t u z zu n h. refl;
}
Reaches-Invariant (next r e) = Step-Invariant e (Reaches-Invariant r)

-- In every state that the threads reach by any interleaving of their atomic operations, two threads
-- never both hold an entry of the section, and the lock count is the number of entries
-- that the holder has.
pub exclusion :
    {s : System} (t u : ℕ)
    → Reaches s
    → t ≢ 0
    → u ≢ 0
    → t ≢ u
    → 0 < hold (s.phase t)
    → (hold (s.phase u) ≡ 0) × (s.words.lock_count ≡ hold (s.phase t))
exclusion t u r z zu n h =
    let v = Reaches-Invariant r in (v.alone t u z zu n h, sym ((v.each t z).counted h))
