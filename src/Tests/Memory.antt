-- ===== src/Tests/Memory.antt =====
-- benos/src/memset.c, benos/src/dump_pgtable.c and benos/src/stacktrace.c on small memories.
use risc_v_lab.Base.{◌+◌, ◌^◌, ◌%◌, ◌≡◌, refl, some, List, arith}
use risc_v_lab.Kernel.{PtRegs}
use risc_v_lab.Kernel.Fork.{zero_regs}
use risc_v_lab.Mmu.{Words}
use risc_v_lab.Memset.{Bytes, memset}
use risc_v_lab.Memset.Fill.{fill, memset-fill}
use risc_v_lab.Dump.{Call, walk_pgd}
use risc_v_lab.Dump.Tiles.{Tiles, walk_pgd-Tiles}
use risc_v_lab.Stack.{Text, Entry, walk_stackframe}
use risc_v_lab.Stack.Walk.{walk_stackframe-ends}

abbrev bytes : Bytes
bytes = λ a. 7

memset-fill_example : memset 1001 0x155 45 bytes ≡ some (fill 1001 45 (0x155 % 2 ^ 8) bytes)
memset-fill_example = memset-fill 1001 0x155 45 bytes (omega arith)

abbrev no_tables : Words
no_tables = λ a. 0

walk_pgd-Tiles_example :
    (cs : List Call) × (walk_pgd no_tables 512 0x80300000 0x80200000 0x200000 ≡ some cs)
    × Tiles 0x80200000 cs (0x80200000 + 0x200000)
walk_pgd-Tiles_example =
    walk_pgd-Tiles no_tables 512 0x80300000 0x80200000 0x200000 refl refl (omega arith)
      (omega arith) (omega arith)

abbrev text : Text
text = record { text = 0x80200000; etext = 0x80210000 }

abbrev frame_regs : PtRegs
frame_regs = record zero_regs { sp = 0x1000; s0 = 0x1040; sepc = 0x80200100 }

walk_stackframe-ends_example :
    (es : List Entry) × (walk_stackframe text no_tables (2 ^ 59 + 1) frame_regs ≡ some es)
walk_stackframe-ends_example =
    walk_stackframe-ends text no_tables frame_regs (λ a. omega arith) (omega arith) (omega arith)
