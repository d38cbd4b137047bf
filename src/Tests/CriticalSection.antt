-- ===== src/Tests/CriticalSection.antt =====
-- crates/quantum-kernel32/src/sync.rs: two threads in a critical section.
use quantum.Prelude.{ℕ, ◌≡◌, refl, arith}
use quantum.Kernel32.CriticalSection.{
  Phase, at_rest, entering, releasing, initialized, advance, System, move, runs, enters, leaves,
  Reaches, start, next, hold,
}
use quantum.Kernel32.CriticalSection.Exclusion.{exclusion, eq_false}
use quantum.Kernel32.CriticalSection.Stuck.{loads, Stuck, done, then, re_entry-Stuck}

abbrev initial : System
initial = record { words = initialized; phase = λ _. at_rest 0 }

abbrev step_by : ℕ → System → System
step_by t s = move t s (advance t s.words (s.phase t))

abbrev call_by : ℕ → Phase → System → System
call_by t p s = move t s (s.words, p)

-- Thread 1 has entered.
abbrev one_inside : System
one_inside = step_by 1 (step_by 1 (step_by 1 (call_by 1 (entering 0) initial)))

-- Between the two operations of its leaving, thread 2 has entered.
abbrev handed_over : System
handed_over = step_by 1 (
    step_by 2 (
      step_by 2
        (step_by 1 (step_by 2 (call_by 2 (entering 0) (call_by 1 (releasing 0) one_inside))))))

-- Thread 2 enters again.
abbrev entered_again : System
entered_again = call_by 2 (entering 1) handed_over

one_inside-Reaches : Reaches one_inside
unfolding advance
one_inside-Reaches =
    next
      (next
        (next (next start (enters 1 0 (eq_false 1 0 refl) refl (omega arith)))
          (runs 1 (eq_false 1 0 refl)))
        (runs 1 (eq_false 1 0 refl)))
      (runs 1 (eq_false 1 0 refl))

handed_over-Reaches : Reaches handed_over
unfolding advance
handed_over-Reaches =
    next
      (next
        (next
          (next
            (next
              (next (next one_inside-Reaches (leaves 1 0 (eq_false 1 0 refl) refl))
                (enters 2 0 (eq_false 2 0 refl) refl (omega arith)))
              (runs 2 (eq_false 2 0 refl)))
            (runs 1 (eq_false 1 0 refl)))
          (runs 2 (eq_false 2 0 refl)))
        (runs 2 (eq_false 2 0 refl)))
      (runs 1 (eq_false 1 0 refl))

entered_again-Reaches : Reaches entered_again
unfolding advance
entered_again-Reaches = next handed_over-Reaches (enters 2 1 (eq_false 2 0 refl) refl (omega arith))

one_inside_holds : hold (one_inside.phase 1) ≡ 1
unfolding advance
one_inside_holds = refl

exclusion_example :
    (hold (one_inside.phase 2) ≡ 0) × (one_inside.words.lock_count ≡ hold (one_inside.phase 1))
exclusion_example =
    exclusion 1 2 one_inside-Reaches (eq_false 1 0 refl) (eq_false 2 0 refl) (eq_false 1 2 refl)
      (omega (arith, one_inside_holds))

entered_again-Stuck : Stuck 2 entered_again
unfolding advance
entered_again-Stuck = record {
  depth = 1;
  holds = omega arith;
  spins = loads;
  lost = λ e. omega (arith, e);
}

re_entry-Stuck_example : Stuck 2 (step_by 2 entered_again)
re_entry-Stuck_example =
    re_entry-Stuck 2 (eq_false 2 0 refl) entered_again-Reaches entered_again-Stuck
      (then done (runs 2 (eq_false 2 0 refl)))
