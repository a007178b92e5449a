-- ===== src/OpcodeClassify.antt =====
-- riscv_opcode_classify.hpp: class `OpcodeClassifier`. Its flag `s_mode_enabled` is the argument `s`.
use rv32_complete_v.Prelude.{ℕ, bit_and, u16, Bool, true, false, not, ◌&&◌, ◌!=◌}
use rv32_complete_v.Rv32i.Types as I
use rv32_complete_v.Rv32i.Decode as IDecode
use rv32_complete_v.Rv32m as M
use rv32_complete_v.Rv32a as A
use rv32_complete_v.Rv32c.Types as C
use rv32_complete_v.Rv32c.Decode as CDecode
use rv32_complete_v.Rv32f.Types as F
use rv32_complete_v.Rv32f.Decode as FDecode
use rv32_complete_v.Rv32fc as Fc
use rv32_complete_v.Zicsr.Execute as Csr
use rv32_complete_v.Zifencei
use rv32_complete_v.Zba
use rv32_complete_v.Zbb
use rv32_complete_v.Zbs
use rv32_complete_v.Zicond
pub mod Exclusive
pub mod Opcodes

unfoldable pub is_compressed : ℕ → Bool
is_compressed opcode = bit_and opcode 0x3 != 0x3

-- `type != ILLEGAL`, for the types of each decoder.
abbrev pub is_legal_i : I.InstrType → Bool
is_legal_i I.InstrType.illegal = false
is_legal_i _ = true

abbrev pub is_legal_m : M.InstrType → Bool
is_legal_m M.InstrType.illegal = false
is_legal_m _ = true

abbrev pub is_legal_a : A.InstrType → Bool
is_legal_a A.InstrType.illegal = false
is_legal_a _ = true

abbrev pub is_legal_f : F.InstrType → Bool
is_legal_f F.InstrType.illegal = false
is_legal_f _ = true

abbrev pub is_legal_csr : Csr.CsrInstrType → Bool
is_legal_csr Csr.CsrInstrType.illegal = false
is_legal_csr _ = true

abbrev pub is_legal_fence : Zifencei.InstrType → Bool
is_legal_fence Zifencei.InstrType.illegal = false
is_legal_fence _ = true

abbrev pub is_legal_zba : Zba.InstrType → Bool
is_legal_zba Zba.InstrType.illegal = false
is_legal_zba _ = true

abbrev pub is_legal_zicond : Zicond.InstrType → Bool
is_legal_zicond Zicond.InstrType.illegal = false
is_legal_zicond _ = true

abbrev pub is_legal_c : C.InstrType → Bool
is_legal_c C.InstrType.illegal = false
is_legal_c _ = true

abbrev pub is_legal_fc : Fc.InstrType → Bool
is_legal_fc Fc.InstrType.illegal = false
is_legal_fc _ = true

unfoldable pub opcode_is_rv32i : Bool → ℕ → Bool
opcode_is_rv32i s opcode = not (is_compressed opcode) && is_legal_i (IDecode.decode s opcode).type

unfoldable pub opcode_is_rv32m : ℕ → Bool
opcode_is_rv32m opcode = not (is_compressed opcode) && is_legal_m (M.decode opcode).type

unfoldable pub opcode_is_rv32a : ℕ → Bool
opcode_is_rv32a opcode = not (is_compressed opcode) && is_legal_a (A.decode opcode).type

unfoldable pub opcode_is_rv32f : ℕ → Bool
opcode_is_rv32f opcode = not (is_compressed opcode) && is_legal_f (FDecode.decode opcode).type

unfoldable pub opcode_is_zicsr : ℕ → Bool
opcode_is_zicsr opcode = not (is_compressed opcode) && is_legal_csr (Csr.decode opcode).type

unfoldable pub opcode_is_zifencei : ℕ → Bool
opcode_is_zifencei opcode =
    not (is_compressed opcode) && is_legal_fence (Zifencei.decode opcode).type

unfoldable pub opcode_is_zba : ℕ → Bool
opcode_is_zba opcode = not (is_compressed opcode) && is_legal_zba (Zba.decode opcode).type

unfoldable pub opcode_is_zbb : ℕ → Bool
opcode_is_zbb opcode = not (is_compressed opcode) && Zbb.is_legal (Zbb.decode opcode).type

unfoldable pub opcode_is_zbs : ℕ → Bool
opcode_is_zbs opcode = not (is_compressed opcode) && Zbs.is_legal (Zbs.decode opcode).type

unfoldable pub opcode_is_zicond : ℕ → Bool
opcode_is_zicond opcode = not (is_compressed opcode) && is_legal_zicond (Zicond.decode opcode).type

unfoldable pub opcode_is_rv32c : ℕ → Bool
opcode_is_rv32c opcode = is_compressed opcode && is_legal_c (CDecode.decode (u16 opcode)).type

unfoldable pub opcode_is_rv32fc : ℕ → Bool
opcode_is_rv32fc opcode = is_compressed opcode && is_legal_fc (Fc.decode (u16 opcode)).type
