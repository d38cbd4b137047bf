-- ===== src/Kernel32/CriticalSection/Stuck.antt =====
-- crates/quantum-kernel32/src/sync.rs: a holder whose name another thread has cleared from the owner
-- word.
use quantum.Prelude.{
  ℕ, ◌<◌, ◌≡◌, ◌≢◌, refl, sym, ap, ◌∙◌, subst, arith, by_test, Bool-cases, inl, inr, ◌==◌, ==_iff,
}
use quantum.Kernel32.CriticalSection.{
  Phase, at_rest, entering, trying, Words, advance, System, move, Step, runs, enters, tries, leaves,
  Reaches, hold,
}
use quantum.Kernel32.CriticalSection.Local.{owner_kept}
use quantum.Kernel32.CriticalSection.Exclusion.{
  Invariant, Step-Invariant, Reaches-Invariant, eq_false,
}

-- The loop of `EnterCriticalSection`.
pub data IsSpinning (d : ℕ) : Phase → Type 0 where
  loads : IsSpinning d (entering d)
  tests : IsSpinning d (trying d)

-- The thread holds an entry and spins in `EnterCriticalSection`, and the owner word does not name
-- it.
pub record Stuck (t : ℕ) (s : System) : Type 0 where
  pub depth : ℕ
  pub holds : 0 < depth
  pub spins : IsSpinning depth (s.phase t)
  pub lost : s.words.owner_thread_id ≢ t

-- Any number of steps.
pub data Steps (s : System) : System → Type 0 where
  done : Steps s s
  then : {s' s'' : System} → Steps s s' → Step s' s'' → Steps s s''

spins-hold : {d : ℕ} {p : Phase} → IsSpinning d p → hold p ≡ d
spins-hold loads = refl
spins-hold tests = refl

not_at_rest : {d k : ℕ} {p : Phase} → IsSpinning d p → p ≢ at_rest k
not_at_rest loads e = cc
not_at_rest tests e = cc

module _ (t : ℕ) where
  -- A step of another thread.
  other_moves :
      (s : System) (u : ℕ) (r : Words × Phase)
      → t ≢ u
      → Stuck t s
      → (r.0.owner_thread_id ≡ t → s.words.owner_thread_id ≡ t)
      → Stuck t (move u s r)
  other_moves s u r n k o = record {
    depth = k.depth;
    holds = k.holds;
    spins =
        by_test (IsSpinning k.depth) (t == u) r.1 (s.phase t) (λ e. absurd (n ((==_iff t u).0 e)))
          (λ e. k.spins);
    lost = λ e. k.lost (o e);
  }

  -- A step of the thread itself.
  spins-advance :
      (w : Words) {d : ℕ} {p : Phase}
      → IsSpinning d p
      → w.owner_thread_id ≢ t
      → w.lock_count ≢ 0
      → IsSpinning d (advance t w p).1 × ((advance t w p).0 ≡ w)
  unfolding advance
  spins-advance w {d = d} loads o c = (
    by_test (IsSpinning d) (w.owner_thread_id == t) _ (trying d)
        (λ e. absurd (o ((==_iff w.owner_thread_id t).0 e))) (λ e. tests),
    refl,
  )
  spins-advance w {d = d} tests o c =
      by_test (λ (r : Words × Phase). IsSpinning d r.1 × (r.0 ≡ w)) (w.lock_count == 0) _
        (w, entering d) (λ e. absurd (c ((==_iff w.lock_count 0).0 e))) (λ e. (loads, refl))

  Stuck-Step : {s s' : System} → t ≢ 0 → Invariant s → Stuck t s → Step s s' → Stuck t s'
  Stuck-Step {s = s} z v k (runs u zu) = elim (Bool-cases (t == u)) [
    | inl e ↦ subst (λ i. Stuck t (move i s (advance i s.words (s.phase i)))) ((==_iff t u).0 e) own
    | inr e ↦
        other_moves s u (advance u s.words (s.phase u)) (eq_false t u e) k
          (owner_kept u t s.words (s.phase u) (λ q. eq_false t u e (sym q)) z)
  ]
    where
      counted : hold (s.phase t) ≡ s.words.lock_count
      counted = (v.each t z).counted (omega (arith, spins-hold k.spins, k.holds))

      spun :
          IsSpinning k.depth (advance t s.words (s.phase t)).1
          × ((advance t s.words (s.phase t)).0 ≡ s.words)
      spun =
          spins-advance s.words k.spins k.lost
            (λ e. omega (arith, e, counted, spins-hold k.spins, k.holds))

      own : Stuck t (move t s (advance t s.words (s.phase t)))
      own = record {
        depth = k.depth;
        holds = k.holds;
        spins =
            by_test (IsSpinning k.depth) (t == t) (advance t s.words (s.phase t)).1 (s.phase t)
              (λ e. spun.0) (λ e. absurd (eq_false t t e refl));
        lost = λ e. k.lost (ap (λ w. w.owner_thread_id) (sym spun.1) ∙ e);
      }
  Stuck-Step {s = s} z v k (enters u d zu e f) =
      other_moves s u (s.words, entering d) (λ q. not_at_rest k.spins (ap s.phase q ∙ e)) k (λ o. o)
  Stuck-Step {s = s} z v k (tries u d zu e f) =
      other_moves s u _ (λ q. not_at_rest k.spins (ap s.phase q ∙ e)) k (λ o. o)
  Stuck-Step {s = s} z v k (leaves u d zu e) =
      other_moves s u _ (λ q. not_at_rest k.spins (ap s.phase q ∙ e)) k (λ o. o)

  Steps-Invariant : {s s' : System} → Steps s s' → Invariant s → Invariant s'
  Steps-Invariant done v = v
  Steps-Invariant (then r e) v = Step-Invariant e (Steps-Invariant r v)

  Steps-Stuck : {s s' : System} → t ≢ 0 → Invariant s → Stuck t s → Steps s s' → Stuck t s'
  Steps-Stuck z v k done = k
  Steps-Stuck z v k (then r e) = Stuck-Step z (Steps-Invariant r v) (Steps-Stuck z v k r) e

-- A thread that holds an entry of the section and enters it again while the owner word does not
-- name it, spins in `EnterCriticalSection` for ever: it is still there after any further steps of
-- any threads.
pub re_entry-Stuck :
    {s s' : System} (t : ℕ) → t ≢ 0 → Reaches s → Stuck t s → Steps s s' → Stuck t s'
re_entry-Stuck t z r k m = Steps-Stuck t z (Reaches-Invariant r) k m
