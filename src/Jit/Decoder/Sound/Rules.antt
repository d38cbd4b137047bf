-- ===== src/Jit/Decoder/Sound/Rules.antt =====
-- The promise of `Sound` through return, sequencing, branching and `unwrap`.
use quantum.Prelude.{
  ℕ, ◌+◌, ◌≤◌, max, ◌≡◌, refl, List, Bool, true, false, length, arith, if◌then◌else◌, Option, none,
  some, ◌∙◌, All, IsByte, subst, sym,
}
use quantum.Jit.Decoder.State.{Error, Outcome, ok, err, panic, Decoder, Decode, ◌>>=◌, pure, unwrap}
use quantum.Jit.Decoder.Sound.{IsValid, Moves, Ends, returns, cut, Sound}

pub Moves-refl : (d : Decoder) → d.at ≤ length d.bytes → Moves 0 d d
Moves-refl d h = record {
  same_bytes = refl;
  same_rip = refl;
  same_mode = refl;
  forward = omega arith;
  short = omega arith;
  inside = h;
}

pub Moves-trans :
    {j k : ℕ} {d d' d'' : Decoder} → Moves j d d' → Moves k d' d'' → Moves (j + k) d d''
Moves-trans {j} {k} {d} {d'} {d''} h g = record {
  same_bytes = g.same_bytes ∙ h.same_bytes;
  same_rip = g.same_rip ∙ h.same_rip;
  same_mode = g.same_mode ∙ h.same_mode;
  forward = omega arith;
  short = omega arith;
  inside = subst (λ b. d''.at ≤ length b) h.same_bytes g.inside;
}

pub Moves-le : {j k : ℕ} {d d' : Decoder} → j ≤ k → Moves j d d' → Moves k d d'
Moves-le le h = record {
  same_bytes = h.same_bytes;
  same_rip = h.same_rip;
  same_mode = h.same_mode;
  forward = h.forward;
  short = omega arith;
  inside = h.inside;
}

pub Moves-IsValid : {k : ℕ} {d d' : Decoder} → Moves k d d' → IsValid d → IsValid d'
Moves-IsValid {k} {d} {d'} h v = record {
  inside = subst (λ b. d'.at ≤ length b) (sym h.same_bytes) h.inside;
  are_bytes = subst (All IsByte) (sym h.same_bytes) v.are_bytes;
}

module _ {A : Type 0} {Q : A → Type 0} where
  pub Ends-after :
      {j k : ℕ} {d d' : Decoder} (more : List ℕ) {r s : Outcome (A × Decoder)}
      → Moves j d d'
      → Ends k Q d' more r s
      → Ends (j + k) Q d more r s
  Ends-after more h (returns q g) = returns q (Moves-trans h g)
  Ends-after more h cut = cut

  pub Ends-le :
      {j k : ℕ} {d : Decoder} {more : List ℕ} {r s : Outcome (A × Decoder)}
      → j ≤ k
      → Ends j Q d more r s
      → Ends k Q d more r s
  Ends-le le (returns q g) = returns q (Moves-le le g)
  Ends-le le cut = cut

  pub Ends-weaken :
      {P : A → Type 0} {k : ℕ} {d : Decoder} {more : List ℕ} {r s : Outcome (A × Decoder)}
      → ((x : A) → Q x → P x)
      → Ends k Q d more r s
      → Ends k P d more r s
  Ends-weaken f (returns q g) = returns (f _ q) g
  Ends-weaken f cut = cut

  pub Sound-le : {j k : ℕ} {m : Decode A} → Sound j Q m → j ≤ k → Sound k Q m
  Sound-le s le = record { run = λ d v more. Ends-le le (s.run d v more) }

  pub Sound-weaken :
      {P : A → Type 0} {k : ℕ} {m : Decode A} → Sound k Q m → ((x : A) → Q x → P x) → Sound k P m
  Sound-weaken s f = record { run = λ d v more. Ends-weaken f (s.run d v more) }

  pub Sound-pure : {x : A} → Q x → Sound 0 Q (pure x)
  Sound-pure q = record { run = λ d v more. returns q (Moves-refl d v.inside) }

  pub Sound-if :
      {j k : ℕ} {m n : Decode A} (b : Bool)
      → Sound j Q m
      → Sound k Q n
      → Sound (max j k) Q (if b then m else n)
  Sound-if {j} {k} true s t = Sound-le {k = max j k} s (omega arith)
  Sound-if {j} {k} false s t = Sound-le {k = max j k} t (omega arith)

  -- The branch is checked knowing its test.
  pub Sound-if_test :
      {j k : ℕ} {m n : Decode A} (b : Bool)
      → (b ≡ true → Sound j Q m)
      → Sound k Q n
      → Sound (max j k) Q (if b then m else n)
  Sound-if_test {j} {k} true s t = Sound-le {k = max j k} (s refl) (omega arith)
  Sound-if_test {j} {k} false s t = Sound-le {k = max j k} t (omega arith)

module _ {A B : Type 0} {P : A → Type 0} {Q : B → Type 0} where
  Ends-bind :
      {j k : ℕ} {d : Decoder} (more : List ℕ) {r s : Outcome (A × Decoder)} {f : A → Decode B}
      → IsValid d
      → Ends j P d more r s
      → ((x : A) → P x → Sound k Q (f x))
      → Ends
          (j + k)
          Q
          d
          more
          (elim r [ ok (x, d') ↦ f x d' | err e ↦ err e | panic ↦ panic ])
          (elim s [ ok (x, d') ↦ f x d' | err e ↦ err e | panic ↦ panic ])
  Ends-bind more v (returns {x = x} {d' = d'} q g) t =
      Ends-after more g ((t x q).run d' (Moves-IsValid g v) more)
  Ends-bind more v cut t = cut

  pub Sound-bind :
      {j k : ℕ} {m : Decode A} {f : A → Decode B}
      → Sound j P m
      → ((x : A) → P x → Sound k Q (f x))
      → Sound (j + k) Q (m >>= f)
  Sound-bind s t = record { run = λ d v more. Ends-bind more v (s.run d v more) t }

-- One step of a sequence, once the outcome of its head is known.
module _ {A B : Type 0} (m : Decode A) (f : A → Decode B) (d : Decoder) where
  pub bind-ok : {x : A} {d' : Decoder} → m d ≡ ok (x, d') → (m >>= f) d ≡ f x d'
  bind-ok e = rw (e, ◌>>=◌)

  pub bind-err : {e : Error} → m d ≡ err e → (m >>= f) d ≡ err e
  bind-err h = rw (h, ◌>>=◌)

abbrev pub IsPresent : {A : Type 0} → Option A → Type 0
IsPresent none = ⊥
IsPresent (some _) = Unit {0}

pub Sound-unwrap :
    {A : Type 0} (Q : A → Type 0) (o : Option A)
    → IsPresent o
    → ((x : A) → o ≡ some x → Q x)
    → Sound 0 Q (unwrap o)
unfolding unwrap
Sound-unwrap Q none h q = absurd h
Sound-unwrap Q (some x) h q = Sound-pure (q x refl)
