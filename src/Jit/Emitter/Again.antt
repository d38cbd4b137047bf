-- ===== src/Jit/Emitter/Again.antt =====
-- crates/quantum-jit/src/emitter.rs: `finish` after an error.
use quantum.Prelude.{
  ℕ, ◌≡◌, refl, sym, ◌∙◌, ap, subst, List, [], ◌∷◌, Option, none, some, get_elem?,
}
use quantum.Prelude.Checked.{Checked, returns, panics}
use quantum.Jit.Emitter.State.{
  Fixup, Emitter, FinishError, Finish, ok, err, rewrite_word, resolve_word, resolve, then_loop,
  finish_loop, finish, patch_branch, delta,
}

-- The emitter behind a call has no fixups left.
abbrev Emptied : Checked (Finish (Unit {0}) × Emitter) → Type 0
Emptied (returns (r, e)) = e.fixups ≡ []
Emptied panics = Unit {0}

rewrite-Emptied :
    (e : Emitter) (f : Fixup) (r : Finish ℕ) → e.fixups ≡ [] → Emptied (rewrite_word e f r)
rewrite-Emptied e f (ok w) h = h
rewrite-Emptied e f (err x) h = h

word-Emptied :
    (e : Emitter) (f : Fixup) (bound : ℕ) (w : Option ℕ)
    → e.fixups ≡ []
    → Emptied (resolve_word e f bound w)
word-Emptied e f bound none h = tt
word-Emptied e f bound (some w) h =
    rewrite-Emptied e f (patch_branch w f.kind (delta bound f.word_index)) h

resolve-Emptied :
    (e : Emitter) (f : Fixup) (o : Option (Option ℕ)) → e.fixups ≡ [] → Emptied (resolve e f o)
resolve-Emptied e f none h = tt
resolve-Emptied e f (some none) h = h
resolve-Emptied e f (some (some bound)) h = word-Emptied e f bound (get_elem? e.code f.word_index) h

loop-Emptied : (fs : List Fixup) (e : Emitter) → e.fixups ≡ [] → Emptied (finish_loop fs e)
unfolding finish_loop
loop-Emptied [] e h = h
loop-Emptied (f ∷ fs) e h =
    go (resolve e f (get_elem? e.labels f.label)) (loop-Emptied fs)
      (resolve-Emptied e f (get_elem? e.labels f.label) h)
  where
    go :
        (r : Checked (Finish (Unit {0}) × Emitter))
        → ((e : Emitter) → e.fixups ≡ [] → Emptied (finish_loop fs e))
        → Emptied r
        → Emptied (then_loop (finish_loop fs) r)
    go (returns (ok _, e)) k p = k e p
    go (returns (err x, e)) k p = p
    go panics k p = tt

-- When `finish` fails, on a label that is not bound or on a branch out of range, the fixups are gone:
-- a second `finish` returns Ok and changes nothing, whatever branches have not been patched.
pub finish-finish :
    (e : Emitter) {e' : Emitter} {x : FinishError}
    → finish e ≡ returns (err x, e')
    → finish e' ≡ returns (ok tt, e')
unfolding finish finish_loop
finish-finish e {e' = e'} h =
    ap (λ fs. finish_loop fs (record e' { fixups = [] })) none_left
    ∙ ap (λ fs. returns (ok tt, record e' { fixups = fs })) (sym none_left)
  where
    none_left : e'.fixups ≡ []
    none_left = subst Emptied h (loop-Emptied e.fixups (record e { fixups = [] }) refl)
