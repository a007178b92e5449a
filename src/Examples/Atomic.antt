-- ===== src/Examples/Atomic.antt =====
-- Tests of riscv_rv32a.hpp.
use rv32_complete_v.Common.RegFile
use rv32_complete_v.Common.RegFile.{RegFile, IsWords}
use rv32_complete_v.Common.Memory.{SimpleMemory, memory_bus, read32}
use rv32_complete_v.Rv32a.{DecodedInstr, ReservationSet, decode, execute, amo_value}
use rv32_complete_v.Rv32a.Precise.{IsAllOrNothing, execute-IsAllOrNothing}
use rv32_complete_v.Rv32a.Reservation.{sc-lr}
use rv32_complete_v.Rv32a.Amo.{IsAmoWord, amo-memory}
use rv32_complete_v.Rv32a.Encoding.{IsDecoded, decode-amo_instr}
use rv32_complete_v.Rv32a.{amo_instr}
use rv32_complete_v.Prelude.{◌*◌, ◌≡◌, refl, true, false, some, arith, ltb, if◌then◌else◌}

-- 64 bytes from address 0 on, each 1.
abbrev memory : SimpleMemory
memory = record { mem = λ i. 1; is_null = false; mem_size = 64; base_addr = 0; owns_memory = true }

-- Register i holds 4 * i.
abbrev regs : RegFile
regs = record { x = λ i. if ltb i 32 then 4 * i else 0 }

regs-IsWords : IsWords regs
regs-IsWords i = ground arith

abbrev free : ReservationSet
free = record { valid = false; reserved_addr = 0 }

-- `lr.w x7, (x5)`, `sc.w x8, x6, (x5)` and `amoadd.w x7, x6, (x5)`.
abbrev lr : DecodedInstr
lr = decode 0x1002a3af

abbrev sc : DecodedInstr
sc = decode 0x1862a42f

abbrev amoadd : DecodedInstr
amoadd = decode 0x0062a3af

execute-IsAllOrNothing_example :
    IsAllOrNothing memory_bus sc regs memory free (execute memory_bus sc regs memory free)
execute-IsAllOrNothing_example = execute-IsAllOrNothing memory_bus sc regs memory free

sc-lr_example :
    let after = execute memory_bus lr regs memory free in
    let stored =
      memory_bus.write32 after.bus
        (RegFile.read after.regs sc.rs1)
        (RegFile.read after.regs sc.rs2) in
    let o = execute memory_bus sc after.regs after.bus after.reservation in
    (o.result.sc_success ≡ true)
    × (o.bus ≡ stored.1)
    × (o.regs ≡ RegFile.write after.regs sc.rd 0)
    × (o.reservation.valid ≡ false)
unfolding decode execute RegFile.read memory_bus RegFile.write
sc-lr_example = sc-lr memory_bus lr sc regs memory free refl refl refl refl refl

amo-memory_example :
    let o = execute memory_bus amoadd regs memory free in
    (o.result.valid ≡ true)
    × (o.regs ≡ RegFile.write regs amoadd.rd 0x0101_0101)
    × (read32 o.bus (RegFile.read regs amoadd.rs1) ≡ some 0x0101_0119)
    × (o.reservation ≡ free)
    × IsAmoWord amoadd.type 0x0101_0101 (RegFile.read regs amoadd.rs2) 0x0101_0119
unfolding RegFile.read decode read32 amo_value
amo-memory_example =
    amo-memory amoadd regs memory free 0x0101_0101 0x0101_0119 regs-IsWords (omega arith) refl refl
      refl

decode-amo_instr_example : IsDecoded (amo_instr 0b00011 true false 6 5 8) 0b00011 true false 6 5 8
decode-amo_instr_example = decode-amo_instr 0b00011 6 5 8 true false (omega arith)
