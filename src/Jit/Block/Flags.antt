-- ===== src/Jit/Block/Flags.antt =====
-- crates/quantum-jit/src/lifter.rs: the map of conditions against what the two processors test.
use quantum.Prelude.{◌≡◌, refl, ap, Bool, true, false, not, ◌&&◌, ◌||◌, Option, some, none}
use quantum.Jit.Iform.{Cond}
use quantum.Jit.Emitter.State.{A64Cond}
use quantum.Jit.Block.{cond_x86_to_a64}

-- The flags of x86, without the auxiliary carry, and those of AArch64.
pub record X86Flags : Type 0 where
  pub cf : Bool
  pub zf : Bool
  pub sf : Bool
  pub of : Bool
  pub pf : Bool

pub record A64Flags : Type 0 where
  pub n : Bool
  pub z : Bool
  pub c : Bool
  pub v : Bool

abbrev pub xor : Bool → Bool → Bool
xor true b = not b
xor false b = b

abbrev pub x86_holds : X86Flags → Cond → Bool
x86_holds f Cond.o = f.of
x86_holds f Cond.not_o = not f.of
x86_holds f Cond.b = f.cf
x86_holds f Cond.nb = not f.cf
x86_holds f Cond.e = f.zf
x86_holds f Cond.ne = not f.zf
x86_holds f Cond.be = f.cf || f.zf
x86_holds f Cond.a = not (f.cf || f.zf)
x86_holds f Cond.s = f.sf
x86_holds f Cond.ns = not f.sf
x86_holds f Cond.p = f.pf
x86_holds f Cond.np = not f.pf
x86_holds f Cond.l = xor f.sf f.of
x86_holds f Cond.nl = not (xor f.sf f.of)
x86_holds f Cond.le = f.zf || xor f.sf f.of
x86_holds f Cond.g = not (f.zf || xor f.sf f.of)

abbrev pub a64_holds : A64Flags → A64Cond → Bool
a64_holds f A64Cond.eq = f.z
a64_holds f A64Cond.ne = not f.z
a64_holds f A64Cond.cs = f.c
a64_holds f A64Cond.lo = not f.c
a64_holds f A64Cond.mi = f.n
a64_holds f A64Cond.pl = not f.n
a64_holds f A64Cond.vs = f.v
a64_holds f A64Cond.vc = not f.v
a64_holds f A64Cond.hi = f.c && not f.z
a64_holds f A64Cond.ls = not (f.c && not f.z)
a64_holds f A64Cond.ge = not (xor f.n f.v)
a64_holds f A64Cond.lt = xor f.n f.v
a64_holds f A64Cond.gt = not f.z && not (xor f.n f.v)
a64_holds f A64Cond.le = not (not f.z && not (xor f.n f.v))
a64_holds f A64Cond.al = true
a64_holds f A64Cond.nv = true

-- The flags that a subtraction leaves on AArch64, whose carry is the negation of the borrow.
abbrev pub borrow_flags : X86Flags → A64Flags
borrow_flags f = record { n = f.sf; z = f.zf; c = not f.cf; v = f.of }

abbrev pub is_parity : Cond → Bool
is_parity Cond.p = true
is_parity Cond.np = true
is_parity _ = false

abbrev pub holds_by : A64Flags → Option A64Cond → Option Bool
holds_by f none = none
holds_by f (some c) = some (a64_holds f c)

not-not : (b : Bool) → not (not b) ≡ b
not-not true = refl
not-not false = refl

above : (c z : Bool) → (not c && not z) ≡ not (c || z)
above true z = refl
above false z = refl

below : (c z : Bool) → not (not c && not z) ≡ (c || z)
below true z = refl
below false true = refl
below false false = refl

-- Where the flags are those of a subtraction, each condition but P and NP is mapped to an AArch64
-- condition that holds exactly when the x86 condition holds.
pub cond_x86_to_a64_holds :
    (f : X86Flags) (cond : Cond)
    → is_parity cond ≡ false
    → holds_by (borrow_flags f) (cond_x86_to_a64 cond) ≡ some (x86_holds f cond)
cond_x86_to_a64_holds f Cond.o h = refl
cond_x86_to_a64_holds f Cond.not_o h = refl
cond_x86_to_a64_holds f Cond.b h = ap some (not-not f.cf)
cond_x86_to_a64_holds f Cond.nb h = refl
cond_x86_to_a64_holds f Cond.e h = refl
cond_x86_to_a64_holds f Cond.ne h = refl
cond_x86_to_a64_holds f Cond.be h = ap some (below f.cf f.zf)
cond_x86_to_a64_holds f Cond.a h = ap some (above f.cf f.zf)
cond_x86_to_a64_holds f Cond.s h = refl
cond_x86_to_a64_holds f Cond.ns h = refl
cond_x86_to_a64_holds f Cond.p h = absurd (cc)
cond_x86_to_a64_holds f Cond.np h = absurd (cc)
cond_x86_to_a64_holds f Cond.l h = refl
cond_x86_to_a64_holds f Cond.nl h = refl
cond_x86_to_a64_holds f Cond.le h = ap some (below f.zf (xor f.sf f.of))
cond_x86_to_a64_holds f Cond.g h = ap some (above f.zf (xor f.sf f.of))
