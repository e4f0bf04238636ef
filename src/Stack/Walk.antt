-- ===== src/Stack/Walk.antt =====
-- The walk over the frames of benos/src/stacktrace.c ends, and finds the callers.
use risc_v_lab.Base.{
  ℕ, zero, suc, ◌+◌, ◌*◌, ◌%◌, ◌^◌, ◌≤◌, ◌<◌, true, false, sub64, some, List, [], ◌∷◌, length, ◌≡◌,
  refl, arith, Bool-cases, inl, inr,
}
use risc_v_lab.Base.Bits.{bit_and_low}
use risc_v_lab.Kernel.{PtRegs}
use risc_v_lab.Mmu.{Words}
use risc_v_lab.Stack.{
  Text, kernel_text, Entry, symbol, frame, is_bad_fp, walk_loop, walk_stackframe,
}

good_fp : (sp fp : ℕ) → sp < 2 ^ 63 → is_bad_fp sp fp ≡ false → sp + 16 ≤ fp
unfolding is_bad_fp
good_fp sp fp h good = ground arith

walk_loop-ends :
    (t : Text) (mem : Words) (fuel sp fp pc : ℕ)
    → ((a : ℕ) → mem a < 2 ^ 63)
    → sp < 2 ^ 63
    → fp < 2 ^ 63
    → 2 ^ 63 < sp + fuel * 16
    → (es : List Entry) × (walk_loop t mem fuel sp fp pc ≡ some es)
unfolding walk_loop
walk_loop-ends t mem zero sp fp pc words hs hf enough = absurd (omega arith)
walk_loop-ends t mem (suc fuel) sp fp pc words hs hf enough = elim (Bool-cases (kernel_text t pc)) [
  | inr out ↦ ([], rw out refl)
  | inl in_text ↦ elim (Bool-cases (is_bad_fp sp fp)) [
    | inl bad ↦ (symbol pc ∷ [], rw (in_text, bad) refl)
    | inr good ↦
        let (es, runs) =
          walk_loop-ends t mem fuel fp (mem (sub64 fp 16)) (sub64 (mem (sub64 fp 8)) 4) words hf
            (words (sub64 fp 16)) (omega (arith, good_fp sp fp hs good)) in
        (symbol pc ∷ frame sp fp pc ∷ es, rw (in_text, good, runs) refl)
  ]
]

-- If the words of the memory are below 2 ^ 63, the walk ends for every trap frame whose stack and
-- frame pointers are, whatever the frames hold: each frame pointer that is followed lies at least
-- 16 bytes above the one before, so that 2 ^ 59 + 1 rounds are enough.
pub walk_stackframe-ends :
    (t : Text) (mem : Words) (regs : PtRegs)
    → ((a : ℕ) → mem a < 2 ^ 63)
    → regs.sp < 2 ^ 63
    → regs.s0 < 2 ^ 63
    → (es : List Entry) × (walk_stackframe t mem (2 ^ 59 + 1) regs ≡ some es)
unfolding walk_stackframe
walk_stackframe-ends t mem regs words hs hf =
    walk_loop-ends t mem (2 ^ 59 + 1) regs.sp regs.s0 regs.sepc words hs hf (omega arith)

-- A call that is under way: its stack pointer, frame pointer and the place where it stands.
pub record Activation : Type 0 where
  pub sp : ℕ
  pub fp : ℕ
  pub pc : ℕ

-- The frames of the `calls` below one another as the compiler lays them out: each in the kernel's
-- text, with the frame pointer and the return address of the next in the 16 bytes below its frame
-- pointer; the last was called from outside the text.
unfoldable pub IsStack : Text → Words → List Activation → ℕ → ℕ → ℕ → Type 0
IsStack t mem [] sp fp pc = kernel_text t pc ≡ false
IsStack t mem (a ∷ calls) sp fp pc =
    (kernel_text t pc ≡ true)
    × (a.sp ≡ sp)
    × (a.fp ≡ fp)
    × (a.pc ≡ pc)
    × (sp + 16 ≤ fp)
    × (fp < 2 ^ 64)
    × (fp % 16 ≡ 0)
    × IsStack t mem calls fp (mem (sub64 fp 16)) (sub64 (mem (sub64 fp 8)) 4)

-- Both lines of each call.
unfoldable pub trace : List Activation → List Entry
trace [] = []
trace (a ∷ calls) = symbol a.pc ∷ frame a.sp a.fp a.pc ∷ trace calls

aligned_fp : (sp fp : ℕ) → sp + 16 ≤ fp → fp < 2 ^ 64 → fp % 16 ≡ 0 → is_bad_fp sp fp ≡ false
unfolding is_bad_fp
aligned_fp sp fp above fits aligned = let low = bit_and_low 4 fp in ground arith

walk_loop-trace :
    (t : Text) (mem : Words) (calls : List Activation) (sp fp pc : ℕ)
    → IsStack t mem calls sp fp pc
    → walk_loop t mem (suc (length calls)) sp fp pc ≡ some (trace calls)
unfolding walk_loop IsStack trace
walk_loop-trace t mem [] sp fp pc h = rw h refl
walk_loop-trace t mem (a ∷ calls) sp fp pc (in_text, hsp, hfp, hpc, above, fits, aligned, rest) =
    let good = aligned_fp sp fp above fits aligned in
    let next =
      walk_loop-trace t mem calls fp (mem (sub64 fp 16)) (sub64 (mem (sub64 fp 8)) 4) rest in
    rw (in_text, good, next, hsp, hfp, hpc) refl

-- On frames that the compiler laid out, `walk_stackframe` with one round for each call and one more
-- prints all calls in order, each with its stack pointer, its frame pointer and its place, and stops
-- where the text is left.
pub walk_stackframe-trace :
    (t : Text) (mem : Words) (calls : List Activation) (regs : PtRegs)
    → IsStack t mem calls regs.sp regs.s0 regs.sepc
    → walk_stackframe t mem (suc (length calls)) regs ≡ some (trace calls)
unfolding walk_stackframe
walk_stackframe-trace t mem calls regs h = walk_loop-trace t mem calls regs.sp regs.s0 regs.sepc h
