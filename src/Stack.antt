-- ===== src/Stack.antt =====
-- Stack traces: benos/src/stacktrace.c, over the memory of words of `Mmu`. What `print_symbol` prints
-- for an address is an entry of the trace. `none` is a lack of fuel.
pub mod Walk
use risc_v_lab.Base.{
  ℕ, zero, suc, ◌+◌, ◌-◌, ◌^◌, ◌==◌, if◌then◌else◌, Bool, not, ltb, leb, ◌&&◌, ◌||◌, bit_and, u64,
  sub64, Option, none, some, ◌>>=◌, List, [], ◌∷◌,
}
use risc_v_lab.Kernel.{PtRegs}
use risc_v_lab.Mmu.{Words}

-- _text and _etext
pub record Text : Type 0 where
  pub text : ℕ
  pub etext : ℕ

unfoldable pub kernel_text : Text → ℕ → Bool
kernel_text t addr = leb t.text addr && ltb addr t.etext

-- An address that is printed by its symbol, and a frame with sp, fp and pc.
pub data Entry : Type 0 where
  symbol : ℕ → Entry
  frame : ℕ → ℕ → ℕ → Entry

-- The frame pointer is below the smallest frame or not aligned to 16 bytes.
unfoldable pub is_bad_fp : ℕ → ℕ → Bool
is_bad_fp sp fp = ltb fp (u64 (sp + 16)) || not (bit_and fp 0xf == 0)

-- The loop of `walk_stackframe` with `print_trace_address`, which prints and never stops the loop.
-- The saved fp and ra stand in the 16 bytes below fp.
unfoldable pub walk_loop : Text → Words → ℕ → ℕ → ℕ → ℕ → Option (List Entry)
walk_loop t mem zero sp fp pc = none
walk_loop t mem (suc fuel) sp fp pc =
    let rest = walk_loop t mem fuel fp (mem (sub64 fp 16)) (sub64 (mem (sub64 fp 8)) 4) >>= λ es.
    some (symbol pc ∷ frame sp fp pc ∷ es) in
    if kernel_text t pc then (if is_bad_fp sp fp then some (symbol pc ∷ []) else rest) else some []

-- walk_stackframe for a trap frame; show_stack and dump_stack call it so.
unfoldable pub walk_stackframe : Text → Words → ℕ → PtRegs → Option (List Entry)
walk_stackframe t mem fuel regs = walk_loop t mem fuel regs.sp regs.s0 regs.sepc
