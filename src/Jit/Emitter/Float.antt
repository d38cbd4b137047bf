-- ===== src/Jit/Emitter/Float.antt =====
-- crates/quantum-jit/src/emitter.rs: scalar floating-point instructions.
use quantum.Jit.Emitter.State.{Reg, Emit, push}
use quantum.Jit.Emitter.Forms.{fp2src, fp_cvt}
use quantum.Prelude.{[], ◌∷◌}
use quantum.Jit.Emitter.Word.{word}
use Prim.Native.Nat.{bit_or}

unfoldable pub fadd_d : Reg → Reg → Reg → Emit
fadd_d vd vn vm = fp2src 0x1E602800 vd vn vm

unfoldable pub fsub_d : Reg → Reg → Reg → Emit
fsub_d vd vn vm = fp2src 0x1E603800 vd vn vm

unfoldable pub fmul_d : Reg → Reg → Reg → Emit
fmul_d vd vn vm = fp2src 0x1E600800 vd vn vm

unfoldable pub fdiv_d : Reg → Reg → Reg → Emit
fdiv_d vd vn vm = fp2src 0x1E601800 vd vn vm

unfoldable pub fadd_s : Reg → Reg → Reg → Emit
fadd_s vd vn vm = fp2src 0x1E202800 vd vn vm

unfoldable pub fsub_s : Reg → Reg → Reg → Emit
fsub_s vd vn vm = fp2src 0x1E203800 vd vn vm

unfoldable pub fmul_s : Reg → Reg → Reg → Emit
fmul_s vd vn vm = fp2src 0x1E200800 vd vn vm

unfoldable pub fdiv_s : Reg → Reg → Reg → Emit
fdiv_s vd vn vm = fp2src 0x1E201800 vd vn vm

unfoldable pub fmin_s : Reg → Reg → Reg → Emit
fmin_s vd vn vm = fp2src 0x1E205800 vd vn vm

unfoldable pub fmin_d : Reg → Reg → Reg → Emit
fmin_d vd vn vm = fp2src 0x1E605800 vd vn vm

unfoldable pub fmax_s : Reg → Reg → Reg → Emit
fmax_s vd vn vm = fp2src 0x1E204800 vd vn vm

unfoldable pub fmax_d : Reg → Reg → Reg → Emit
fmax_d vd vn vm = fp2src 0x1E604800 vd vn vm

unfoldable pub scvtf_s_w : Reg → Reg → Emit
scvtf_s_w vd rn = fp_cvt 0x1E220000 vd rn

unfoldable pub scvtf_s_x : Reg → Reg → Emit
scvtf_s_x vd rn = fp_cvt 0x9E220000 vd rn

unfoldable pub scvtf_d_w : Reg → Reg → Emit
scvtf_d_w vd rn = fp_cvt 0x1E620000 vd rn

unfoldable pub scvtf_d_x : Reg → Reg → Emit
scvtf_d_x vd rn = fp_cvt 0x9E620000 vd rn

unfoldable pub fcvtzs_w_s : Reg → Reg → Emit
fcvtzs_w_s rd vn = fp_cvt 0x1E380000 rd vn

unfoldable pub fcvtzs_x_s : Reg → Reg → Emit
fcvtzs_x_s rd vn = fp_cvt 0x9E380000 rd vn

unfoldable pub fcvtzs_w_d : Reg → Reg → Emit
fcvtzs_w_d rd vn = fp_cvt 0x1E780000 rd vn

unfoldable pub fcvtzs_x_d : Reg → Reg → Emit
fcvtzs_x_d rd vn = fp_cvt 0x9E780000 rd vn

unfoldable pub fcvtns_w_s : Reg → Reg → Emit
fcvtns_w_s rd vn = fp_cvt 0x1E200000 rd vn

unfoldable pub fcvtns_x_s : Reg → Reg → Emit
fcvtns_x_s rd vn = fp_cvt 0x9E200000 rd vn

unfoldable pub fcvtns_w_d : Reg → Reg → Emit
fcvtns_w_d rd vn = fp_cvt 0x1E600000 rd vn

unfoldable pub fcvtns_x_d : Reg → Reg → Emit
fcvtns_x_d rd vn = fp_cvt 0x9E600000 rd vn

unfoldable pub fcvt_d_s : Reg → Reg → Emit
fcvt_d_s vd vn = fp_cvt 0x1E22C000 vd vn

unfoldable pub fcvt_s_d : Reg → Reg → Emit
fcvt_s_d vd vn = fp_cvt 0x1E624000 vd vn

unfoldable pub fsqrt_s : Reg → Reg → Emit
fsqrt_s vd vn = fp_cvt 0x1E21C000 vd vn

unfoldable pub fsqrt_d : Reg → Reg → Emit
fsqrt_d vd vn = fp_cvt 0x1E61C000 vd vn

unfoldable pub fcmp_s : Reg → Reg → Emit
fcmp_s vn vm = push (bit_or 0x1E202000 (word ((vm, 16) ∷ (vn, 5) ∷ [])))

unfoldable pub fcmp_d : Reg → Reg → Emit
fcmp_d vn vm = push (bit_or 0x1E602000 (word ((vm, 16) ∷ (vn, 5) ∷ [])))
