-- ===== src/Memset/Fill.antt =====
-- `memset` of benos/src/memset.c against a fill of a range.
use mathlib.Core.Path.{fun_ext}
use risc_v_lab.Base.Tests.{checks_upto, checks_upto-at}
use risc_v_lab.Base.{
  ℕ, zero, suc, ◌+◌, ◌-◌, ◌*◌, ◌/◌, ◌%◌, ◌^◌, ◌≤◌, ◌<◌, ◌==◌, if◌then◌else◌, true, false, ltb, leb,
  ◌&&◌, bit_and, bit_or, shl64, some, ◌≡◌, ◌∙◌, ap, sym, refl, arith, Bool-cases, inl, inr, ==_iff,
}
use risc_v_lab.Base.Bits.{bit_and_low}
use risc_v_lab.Memset.{
  Bytes, store_byte, sd, blocks_loop, memset_16bytes, memset_1bytes, data_loop, head_size,
  memset_aligned, memset,
}

-- The `n` bytes from `s` on are `b`, and the others are as before.
pub fill : ℕ → ℕ → ℕ → Bytes → Bytes
fill s n b mem = λ a. if leb s a && ltb a (s + n) then b else mem a

fill-zero : (s b : ℕ) (mem : Bytes) → mem ≡ fill s 0 b mem
unfolding fill
fill-zero s b mem = fun_ext (λ a. ground arith)

fill-fill : (s n m b : ℕ) (mem : Bytes) → fill (s + n) m b (fill s n b mem) ≡ fill s (n + m) b mem
unfolding fill
fill-fill s n m b mem = fun_ext (λ a. ground arith)

store_byte-fill : (s c : ℕ) (mem : Bytes) → store_byte s c mem ≡ fill s 1 (c % 2 ^ 8) mem
unfolding store_byte fill
store_byte-fill s c mem = fun_ext (λ a. ground arith)

memset_1bytes-fill : (s c n : ℕ) (mem : Bytes) → memset_1bytes s c n mem ≡ fill s n (c % 2 ^ 8) mem
unfolding memset_1bytes
memset_1bytes-fill s c zero mem = fill-zero s (c % 2 ^ 8) mem
memset_1bytes-fill s c (suc n) mem =
    memset_1bytes-fill (s + 1) c n (store_byte s c mem)
    ∙ ap (fill (s + 1) n (c % 2 ^ 8)) (store_byte-fill s c mem)
    ∙ fill-fill s 1 n (c % 2 ^ 8) mem
    ∙ ap (λ (k : ℕ). fill s k (c % 2 ^ 8) mem) (let e : 1 + n ≡ suc n = omega arith in e)

-- Every byte of the word is the low byte of `c`.
byte_table :
    checks_upto (λ b. checks_upto (λ i. data_loop 8 0 b 0 / 2 ^ (8 * i) % 2 ^ 8 == b) 8) 256 ≡ true
unfolding checks_upto data_loop
byte_table = refl

data_loop-low : (n i c word : ℕ) → data_loop n i c word ≡ data_loop n i (c % 2 ^ 8) word
unfolding data_loop
data_loop-low zero i c word = refl
data_loop-low (suc n) i c word =
    let low : bit_and c 255 ≡ bit_and (c % 256) 255 =
      bit_and_low 8 c
      ∙ (let e : c % 256 ≡ c % 256 % 256 = omega arith in e)
      ∙ sym (bit_and_low 8 (c % 256)) in
    data_loop-low n (i + 1) c (bit_or word (shl64 (bit_and c 255) (i * 8)))
    ∙ ap (λ (m : ℕ). data_loop n (i + 1) (c % 2 ^ 8) (bit_or word (shl64 m (i * 8)))) low

byte_of_data : (c i : ℕ) → i < 8 → data_loop 8 0 c 0 / 2 ^ (8 * i) % 2 ^ 8 ≡ c % 2 ^ 8
byte_of_data c i h =
    let b = c % 2 ^ 8 in
    ap (λ (w : ℕ). w / 2 ^ (8 * i) % 2 ^ 8) (data_loop-low 8 0 c 0)
    ∙ (==_iff _ _).0 (
        checks_upto-at (λ k. data_loop 8 0 b 0 / 2 ^ (8 * k) % 2 ^ 8 == b) 8 i h
          (checks_upto-at
            (λ b'. checks_upto (λ k. data_loop 8 0 b' 0 / 2 ^ (8 * k) % 2 ^ 8 == b') 8) 256 b
            (omega arith) byte_table))

sd-fill : (p c : ℕ) (mem : Bytes) → sd p (data_loop 8 0 c 0) mem ≡ fill p 8 (c % 2 ^ 8) mem
unfolding sd fill
sd-fill p c mem = fun_ext (λ a. ground (arith, byte_of_data c (a - p)))

two_blocks :
    (p c : ℕ) (mem : Bytes)
    → sd (p + 8) (data_loop 8 0 c 0) (sd p (data_loop 8 0 c 0) mem) ≡ fill p 16 (c % 2 ^ 8) mem
two_blocks p c mem =
    sd-fill (p + 8) c (sd p (data_loop 8 0 c 0) mem)
    ∙ ap (fill (p + 8) 8 (c % 2 ^ 8)) (sd-fill p c mem)
    ∙ fill-fill p 8 8 (c % 2 ^ 8) mem

-- With `k + 1` blocks left.
blocks_loop-fill :
    (fuel p c i count k : ℕ) (mem : Bytes)
    → i + 16 * (k + 1) ≡ count
    → k < fuel
    → blocks_loop fuel p (data_loop 8 0 c 0) i count mem ≡ fill p (16 * (k + 1)) (c % 2 ^ 8) mem
unfolding blocks_loop
blocks_loop-fill zero p c i count k mem e h = absurd (omega arith)
blocks_loop-fill (suc fuel) p c i count zero mem e h =
    let last : ltb (i + 16) count ≡ false = ground arith in rw last (two_blocks p c mem)
blocks_loop-fill (suc fuel) p c i count (suc k) mem e h =
    let more : ltb (i + 16) count ≡ true = ground arith in
    let word = data_loop 8 0 c 0 in
    rw more (
      blocks_loop-fill fuel (p + 16) c (i + 16) count k (sd (p + 8) word (sd p word mem))
        (omega arith) (omega arith)
      ∙ ap (fill (p + 16) (16 * (k + 1)) (c % 2 ^ 8)) (two_blocks p c mem)
      ∙ fill-fill p 16 (16 * (k + 1)) (c % 2 ^ 8) mem
      ∙ ap (λ (n : ℕ). fill p n (c % 2 ^ 8) mem)
          (let e : 16 + 16 * (k + 1) ≡ 16 * (suc k + 1) = omega arith in e))

memset_16bytes-fill :
    (p c n : ℕ) (mem : Bytes)
    → 0 < n
    → memset_16bytes p (data_loop 8 0 c 0) (16 * n) mem ≡ fill p (16 * n) (c % 2 ^ 8) mem
unfolding memset_16bytes
memset_16bytes-fill p c zero mem h = elim h [ ]
memset_16bytes-fill p c (suc k) mem h =
    blocks_loop-fill (16 * suc k) p c 0 (16 * suc k) k mem (omega arith) (omega arith)
    ∙ ap (λ (n : ℕ). fill p n (c % 2 ^ 8) mem)
        (let e : 16 * (k + 1) ≡ 16 * suc k = omega arith in e)

memset_aligned-fill :
    (p c left : ℕ) (mem : Bytes)
    → left < 2 ^ 31
    → memset_aligned p c left mem ≡ some (fill p left (c % 2 ^ 8) mem)
unfolding memset_aligned
memset_aligned-fill p c left mem fits = elim (Bool-cases (leb 16 left)) [
  | inr short ↦ rw short (ap some (memset_1bytes-fill p c left mem))
  | inl long ↦
      let blocks = memset_16bytes-fill p c (left / 16) mem (ground arith) in
      let int : leb (2 ^ 31) (16 * (left / 16)) ≡ false = ground arith in
      elim (Bool-cases (left % 16 == 0)) [
        | inl whole ↦
            rw (long, int, whole)
              (ap some (
                blocks
                ∙ ap (λ (n : ℕ). fill p n (c % 2 ^ 8) mem)
                    (let e : 16 * (left / 16) ≡ left = ground arith in e)))
        | inr more ↦
            rw (long, int, more)
              (ap some (
                memset_1bytes-fill (p + 16 * (left / 16)) c (left % 16)
                  (memset_16bytes p (data_loop 8 0 c 0) (16 * (left / 16)) mem)
                ∙ ap (fill (p + 16 * (left / 16)) (left % 16) (c % 2 ^ 8)) blocks
                ∙ fill-fill p (16 * (left / 16)) (left % 16) (c % 2 ^ 8) mem
                ∙ ap (λ (n : ℕ). fill p n (c % 2 ^ 8) mem)
                    (let e : 16 * (left / 16) + left % 16 ≡ left = omega arith in e)))
      ]
]

head_size-le : (s count : ℕ) → head_size s count ≤ count
unfolding head_size
head_size-le s count = ground arith

-- `memset` with less than 2 ^ 31 bytes is the fill of its range with the low byte of `c`, whatever
-- the start's alignment is: the bytes in front of the first aligned address, the blocks of 16 bytes
-- and the rest cover the range and nothing else.
pub memset-fill :
    (s c count : ℕ) (mem : Bytes)
    → count < 2 ^ 31
    → memset s c count mem ≡ some (fill s count (c % 2 ^ 8) mem)
unfolding memset
memset-fill s c count mem fits =
    let size = head_size s count in
    let inside = head_size-le s count in
    memset_aligned-fill (s + size) c (count - size) (memset_1bytes s c size mem) (omega arith)
    ∙ ap (λ (m : Bytes). some (fill (s + size) (count - size) (c % 2 ^ 8) m))
        (memset_1bytes-fill s c size mem)
    ∙ ap some (fill-fill s size (count - size) (c % 2 ^ 8) mem)
    ∙ ap (λ (n : ℕ). some (fill s n (c % 2 ^ 8) mem))
        (let e : size + (count - size) ≡ count = omega arith in e)
