-- ===== src/Jit/Emitter/Loads.antt =====
-- crates/quantum-jit/src/emitter.rs: what the words of `load_const64` do.
use quantum.Prelude.{
  ℕ, zero, suc, ◌+◌, ◌*◌, ◌/◌, ◌%◌, ◌^◌, ◌<◌, ◌≤◌, ◌≡◌, refl, ◌∙◌, sym, ap, subst, List, [], ◌∷◌,
  ◌++◌, some, ◌==◌, if◌then◌else◌, Bool, true, false, not, ◌&&◌, length, length-append, max, arith,
  inl, inr, Bool-cases,
}
use mathlib.Core.List.{append_assoc}
use quantum.Prelude.Checked.{Checked, returns, panics, Method, ◌>>=◌, ◌>>◌, pure}
use quantum.Jit.Emitter.State.{Reg, Emitter}
use quantum.Jit.Emitter.Integer.{movz64, movk64}
use quantum.Jit.Emitter.Machine.{write}
use quantum.Jit.Emitter.Constants.{lane_part, load_lane, load_lanes, load_rest, load_const64}
use quantum.Jit.Emitter.Moves.{
  with_words, mov_wide, movz64_lem, movk64_lem, lower, Sets, Sets-movz, Sets-movk,
}

-- How many of the lanes below `n` are not zero.
abbrev pub nonzero_lanes : ℕ → ℕ → ℕ
nonzero_lanes value zero = 0
nonzero_lanes value (suc n) = nonzero_lanes value n + (if lane_part value n == 0 then 0 else 1)

-- What the words so far have done, after the lanes below `n`.
abbrev Progress : Emitter → Reg → ℕ → ℕ → Bool → Emitter → Type 0
Progress e0 rd value n false e = (e ≡ e0) × (value % 2 ^ (n * 16) ≡ 0) × (nonzero_lanes value n ≡ 0)
Progress e0 rd value n true e =
    (ws : List ℕ) × (e ≡ with_words e0 ws)
    × Sets ws rd (value % 2 ^ (n * 16))
    × (length ws ≡ nonzero_lanes value n)

abbrev Gives : {A : Type 0} → (A → Emitter → Type 0) → Checked (A × Emitter) → Type 0
Gives P (returns (a, e)) = P a e
Gives P panics = ⊥

-- `load_lane`, with its two tests as arguments.
abbrev lane_by : Reg → ℕ → ℕ → Bool → Bool → Bool → Method Emitter Bool
lane_by rd part lane is_zero is_last emitted =
    if is_zero && emitted
    then pure emitted
    else if not emitted && is_zero && not is_last
    then pure emitted
    else if not emitted
    then movz64 rd part (lane * 16) >> pure true
    else movk64 rd part (lane * 16) >> pure emitted

module _ (e0 : Emitter) (rd value : ℕ) (in_range : rd < 31) (large : 65536 ≤ value)
    (fits : value < 2 ^ 64) where
  abbrev Step : ℕ → Emitter → Bool → Bool → Bool → Type 0
  Step n e is_zero is_last emitted =
      Gives (Progress e0 rd value (suc n))
        (lane_by rd (lane_part value n) n is_zero is_last emitted e)

  abbrev Then : ℕ → Checked (Unit {0} × Emitter) → Type 0
  Then n m = Gives (Progress e0 rd value (suc n)) (((λ (_ : Emitter). m) >> pure true) e0)

  part_lt : (n : ℕ) → lane_part value n < 65536
  part_lt n = omega arith

  no_more :
      (n : ℕ)
      → (lane_part value n == 0) ≡ true
      → nonzero_lanes value (suc n) ≡ nonzero_lanes value n
  no_more n z = ground (arith, z)

  one_more :
      (n : ℕ)
      → (lane_part value n == 0) ≡ false
      → nonzero_lanes value (suc n) ≡ nonzero_lanes value n + 1
  one_more n z = ground (arith, z)

  same :
      (n : ℕ)
      → n < 4
      → (lane_part value n == 0) ≡ true
      → value % 2 ^ (suc n * 16) ≡ value % 2 ^ (n * 16)
  same n h z =
      lower value n h
      ∙ ap (λ t. t * 2 ^ (n * 16) + value % 2 ^ (n * 16)) {x = lane_part value n} {y = 0}
          (ground (arith, z))
      ∙ omega arith

  -- A move that is emitted, and then the result true.
  moved : (n : ℕ) (m m' : Checked (Unit {0} × Emitter)) → m' ≡ m → Then n m → Then n m'
  moved n m m' q = subst (Then n) (sym q)

  lane-Step :
      (n : ℕ) (e : Emitter)
      → n < 4
      → (is_zero is_last emitted : Bool) → (lane_part value n == 0) ≡ is_zero
      → (n == 3) ≡ is_last
      → Progress e0 rd value n emitted e
      → Step n e is_zero is_last emitted
  lane-Step n e h true l true z s (ws, q, f, c) = (
    ws,
    q,
    (λ regs. f regs ∙ ap (λ v. some (write regs rd v)) (sym (same n h z))),
    c ∙ sym (no_more n z),
  )
  lane-Step n e h true false false z s (q, m, c) = (q, same n h z ∙ m, no_more n z ∙ c)
  lane-Step n e h true true false z s (q, m, c) = absurd (empty (same n h z ∙ m) (n_is s))
    where
      n_is : (n == 3) ≡ true → n ≡ 3
      n_is s = ground (arith, s)

      empty : value % 2 ^ (suc n * 16) ≡ 0 → n ≡ 3 → ⊥
      empty m p = omega (arith, large, fits, subst (λ k. value % 2 ^ (suc k * 16) ≡ 0) p m)
  lane-Step n e h false l false z s (q, m, c) =
      moved n _ _ (movz64_lem rd (lane_part value n) n e h) (
        mov_wide 2 n (lane_part value n) rd ∷ [],
        ap (λ x. with_words x (mov_wide 2 n (lane_part value n) rd ∷ [])) q,
        (λ regs.
            Sets-movz rd (lane_part value n) n h (part_lt n) in_range regs
            ∙ ap (λ v. some (write regs rd v)) (omega (arith, lower value n h, m))),
        omega (arith, one_more n z, c),
      )
  lane-Step n e h false l true z s (ws, q, f, c) =
      moved n _ _ (movk64_lem rd (lane_part value n) n e h) (
        ws ++ mov_wide 3 n (lane_part value n) rd ∷ [],
        ap (λ x. with_words x (mov_wide 3 n (lane_part value n) rd ∷ [])) q
            ∙ ap (λ c. record e0 { code = c }) (append_assoc e0.code ws _),
        (λ regs.
            Sets-movk ws rd value (lane_part value n) n h (part_lt n) in_range f regs
            ∙ ap (λ v. some (write regs rd v)) (sym (lower value n h))),
        omega (arith, length-append ws (mov_wide 3 n (lane_part value n) rd ∷ []), one_more n z, c),
      )

  -- The words set the register, and there are as many as there are lanes that are not zero, or one.
  abbrev Loaded : Unit {0} → Emitter → Type 0
  Loaded _ e =
      (ws : List ℕ) × (e ≡ with_words e0 ws)
      × Sets ws rd value
      × (length ws ≡ max 1 (nonzero_lanes value 4))

  bind-Gives :
      {A : Type 0} (P : Bool → Emitter → Type 0) (Q : A → Emitter → Type 0)
      (k : Bool → Method Emitter A) (m : Checked (Bool × Emitter))
      → Gives P m
      → ((b : Bool) (e : Emitter) → P b e → Gives Q (k b e))
      → Gives Q (((λ (_ : Emitter). m) >>= k) e0)
  bind-Gives P Q k (returns (b, e)) p f = f b e p
  bind-Gives P Q k panics p f = p

  some_lane : 1 ≤ nonzero_lanes value 4
  some_lane = ground (arith, large, fits)

  rest-Loaded :
      (emitted : Bool) (e : Emitter)
      → Progress e0 rd value 4 emitted e
      → Gives Loaded (load_rest rd emitted e)
  rest-Loaded false e (q, m, c) = absurd (omega (arith, large, fits, m))
  rest-Loaded true e (ws, q, f, c) = (
    ws,
    q,
    (λ regs. f regs ∙ ap (λ v. some (write regs rd v)) (omega (arith, fits))),
    omega (arith, c, some_lane),
  )

  next-Gives :
      (n : ℕ) {A : Type 0} (Q : A → Emitter → Type 0) (k : Bool → Method Emitter A)
      → n < 4
      → ((b : Bool) (e : Emitter) → Progress e0 rd value (suc n) b e → Gives Q (k b e))
      → (b : Bool) (e : Emitter) → Progress e0 rd value n b e
      → Gives Q ((load_lane rd (lane_part value n) n b >>= k) e)
  next-Gives n Q k h f b e p =
      bind-Gives (Progress e0 rd value (suc n)) Q k (load_lane rd (lane_part value n) n b e)
        (lane-Step n e h (lane_part value n == 0) (n == 3) b refl refl p) f

  lanes-Loaded : Gives Loaded ((load_lanes rd value (0 ∷ 1 ∷ 2 ∷ 3 ∷ []) false >>= load_rest rd) e0)
  unfolding load_lanes
  lanes-Loaded =
      bind-Gives (Progress e0 rd value 4) Loaded (load_rest rd)
        (load_lanes rd value (0 ∷ 1 ∷ 2 ∷ 3 ∷ []) false e0)
        (next-Gives 0 P4 (load_lanes rd value (1 ∷ 2 ∷ 3 ∷ [])) (omega arith)
          (next-Gives 1 P4 (load_lanes rd value (2 ∷ 3 ∷ [])) (omega arith) (
            next-Gives 2 P4 (load_lanes rd value (3 ∷ [])) (omega arith)
              (next-Gives 3 P4 (load_lanes rd value []) (omega arith) (λ b e p. p))))
          false e0 (refl, omega arith, refl))
        rest-Loaded
    where
      P4 : Bool → Emitter → Type 0
      P4 = Progress e0 rd value 4

Gives-elim :
    {A : Type 0} (P : A → Emitter → Type 0) (m : Checked (A × Emitter))
    → Gives P m
    → (a : A) × (e : Emitter) × (m ≡ returns (a, e)) × P a e
Gives-elim P (returns (a, e)) p = (a, e, refl, p)
Gives-elim P panics p = absurd p

small-Loaded :
    (e : Emitter) (rd value : ℕ) (in_range : rd < 31)
    → value < 65536
    → (ws : List ℕ) × (movz64 rd (value % 2 ^ 16) 0 e ≡ returns (tt, with_words e ws))
      × Sets ws rd value
      × (length ws ≡ max 1 (nonzero_lanes value 4))
small-Loaded e rd value in_range h = (
  mov_wide 2 0 (value % 2 ^ 16) rd ∷ [],
  movz64_lem rd (value % 2 ^ 16) 0 e (omega arith),
  (λ regs.
      Sets-movz rd (value % 2 ^ 16) 0 (omega arith) (omega arith) in_range regs
      ∙ ap (λ v. some (write regs rd v)) (omega (arith, h))),
  ground (arith, h),
)

-- `load_const64` with a register below 31 and a value below 2^64 emits words that leave the value in
-- the register and change no other one: one MOVZ or MOVK for each 16-bit lane of the value that is
-- not zero, and one word for the value zero.
pub load_const64_loads :
    (rd value : ℕ) (e : Emitter)
    → rd < 31
    → value < 2 ^ 64
    → (ws : List ℕ) × (load_const64 rd value e ≡ returns (tt, with_words e ws))
      × Sets ws rd value
      × (length ws ≡ max 1 (nonzero_lanes value 4))
unfolding load_const64
load_const64_loads rd value e in_range fits = elim (Bool-cases (value / 2 ^ 16 == 0)) [
  | inl t ↦
      let (ws, q, r, c) = small-Loaded e rd value in_range (ground (arith, t)) in
      (ws, ap (λ b. chosen b) t ∙ q, r, c)
  | inr f ↦
      let (a, e', q, w) =
        Gives-elim (Loaded e rd value in_range (ground (arith, f)) fits) (large_case e)
          (lanes-Loaded e rd value in_range (ground (arith, f)) fits) in
      let (ws, q', r, c) = w in (ws, ap (λ b. chosen b) f ∙ q ∙ ap (λ x. returns (tt, x)) q', r, c)
]
  where
    large_case : Emitter → Checked (Unit {0} × Emitter)
    large_case e = (load_lanes rd value (0 ∷ 1 ∷ 2 ∷ 3 ∷ []) false >>= load_rest rd) e

    chosen : Bool → Checked (Unit {0} × Emitter)
    chosen b =
        (if b
            then movz64 rd (value % 2 ^ 16) 0
            else load_lanes rd value (0 ∷ 1 ∷ 2 ∷ 3 ∷ []) false >>= load_rest rd)
          e
