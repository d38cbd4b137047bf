-- ===== src/Jit/Emitter/Vector.antt =====
-- crates/quantum-jit/src/emitter.rs: vector instructions on two registers.
use quantum.Jit.Emitter.State.{Reg, Emit}
use quantum.Jit.Emitter.Forms.{register_form, zip_form}

unfoldable pub eor_v16b : Reg → Reg → Reg → Emit
eor_v16b vd vn vm = register_form 0x6E201C00 vd vn vm

unfoldable pub and_v16b : Reg → Reg → Reg → Emit
and_v16b vd vn vm = register_form 0x4E201C00 vd vn vm

unfoldable pub orr_v16b : Reg → Reg → Reg → Emit
orr_v16b vd vn vm = register_form 0x4EA01C00 vd vn vm

unfoldable pub add_v2d : Reg → Reg → Reg → Emit
add_v2d vd vn vm = register_form 0x4EE08400 vd vn vm

unfoldable pub sub_v2d : Reg → Reg → Reg → Emit
sub_v2d vd vn vm = register_form 0x6EE08400 vd vn vm

unfoldable pub add_v4s : Reg → Reg → Reg → Emit
add_v4s vd vn vm = register_form 0x4EA08400 vd vn vm

unfoldable pub sub_v4s : Reg → Reg → Reg → Emit
sub_v4s vd vn vm = register_form 0x6EA08400 vd vn vm

unfoldable pub add_v16b : Reg → Reg → Reg → Emit
add_v16b vd vn vm = register_form 0x4E208400 vd vn vm

unfoldable pub sub_v16b : Reg → Reg → Reg → Emit
sub_v16b vd vn vm = register_form 0x6E208400 vd vn vm

unfoldable pub add_v8h : Reg → Reg → Reg → Emit
add_v8h vd vn vm = register_form 0x4E608400 vd vn vm

unfoldable pub sub_v8h : Reg → Reg → Reg → Emit
sub_v8h vd vn vm = register_form 0x6E608400 vd vn vm

unfoldable pub fadd_v4s : Reg → Reg → Reg → Emit
fadd_v4s vd vn vm = register_form 0x4E20D400 vd vn vm

unfoldable pub fadd_v2d : Reg → Reg → Reg → Emit
fadd_v2d vd vn vm = register_form 0x4E60D400 vd vn vm

unfoldable pub fsub_v4s : Reg → Reg → Reg → Emit
fsub_v4s vd vn vm = register_form 0x4EA0D400 vd vn vm

unfoldable pub fsub_v2d : Reg → Reg → Reg → Emit
fsub_v2d vd vn vm = register_form 0x4EE0D400 vd vn vm

unfoldable pub fmul_v4s : Reg → Reg → Reg → Emit
fmul_v4s vd vn vm = register_form 0x6E20DC00 vd vn vm

unfoldable pub fmul_v2d : Reg → Reg → Reg → Emit
fmul_v2d vd vn vm = register_form 0x6E60DC00 vd vn vm

unfoldable pub fdiv_v4s : Reg → Reg → Reg → Emit
fdiv_v4s vd vn vm = register_form 0x6E20FC00 vd vn vm

unfoldable pub fdiv_v2d : Reg → Reg → Reg → Emit
fdiv_v2d vd vn vm = register_form 0x6E60FC00 vd vn vm

unfoldable pub cmeq_v16b : Reg → Reg → Reg → Emit
cmeq_v16b vd vn vm = register_form 0x6E208C00 vd vn vm

unfoldable pub cmeq_v8h : Reg → Reg → Reg → Emit
cmeq_v8h vd vn vm = register_form 0x6E608C00 vd vn vm

unfoldable pub cmeq_v4s : Reg → Reg → Reg → Emit
cmeq_v4s vd vn vm = register_form 0x6EA08C00 vd vn vm

unfoldable pub cmeq_v2d : Reg → Reg → Reg → Emit
cmeq_v2d vd vn vm = register_form 0x6EE08C00 vd vn vm

unfoldable pub mul_v8h : Reg → Reg → Reg → Emit
mul_v8h vd vn vm = register_form 0x4E609C00 vd vn vm

unfoldable pub zip1_v16b : Reg → Reg → Reg → Emit
zip1_v16b vd vn vm = zip_form 0x4E003800 vd vn vm

unfoldable pub zip1_v8h : Reg → Reg → Reg → Emit
zip1_v8h vd vn vm = zip_form 0x4E403800 vd vn vm

unfoldable pub zip1_v4s : Reg → Reg → Reg → Emit
zip1_v4s vd vn vm = zip_form 0x4E803800 vd vn vm

unfoldable pub zip1_v2d : Reg → Reg → Reg → Emit
zip1_v2d vd vn vm = zip_form 0x4EC03800 vd vn vm

unfoldable pub zip2_v16b : Reg → Reg → Reg → Emit
zip2_v16b vd vn vm = zip_form 0x4E007800 vd vn vm

unfoldable pub zip2_v8h : Reg → Reg → Reg → Emit
zip2_v8h vd vn vm = zip_form 0x4E407800 vd vn vm

unfoldable pub zip2_v4s : Reg → Reg → Reg → Emit
zip2_v4s vd vn vm = zip_form 0x4E807800 vd vn vm

unfoldable pub zip2_v2d : Reg → Reg → Reg → Emit
zip2_v2d vd vn vm = zip_form 0x4EC07800 vd vn vm
