-- ===== src/Memset.antt =====
-- benos/src/memset.c. The memory is a function from addresses to bytes. `c` is given by its bits.
-- `none` is the overflow of the int `16 * n`, which is undefined.
pub mod Fill
use risc_v_lab.Base.{
  ℕ, zero, suc, ◌+◌, ◌-◌, ◌*◌, ◌/◌, ◌%◌, ◌^◌, ◌==◌, if◌then◌else◌, Bool, ltb, leb, bit_and, bit_or,
  shl64, Option, none, some,
}

abbrev pub Bytes : Type 0
Bytes = ℕ → ℕ

unfoldable pub store_byte : ℕ → ℕ → Bytes → Bytes
store_byte p v mem = λ a. if a == p then v % 2 ^ 8 else mem a

-- The instruction `sd`: eight bytes, the lowest first.
unfoldable pub sd : ℕ → ℕ → Bytes → Bytes
sd p val mem = λ a.
    if leb p a then (if ltb a (p + 8) then val / 2 ^ (8 * (a - p)) % 2 ^ 8 else mem a) else mem a

-- The loop of __memset_16bytes_inline_asm, whose test follows the body, with fuel for its rounds.
unfoldable pub blocks_loop : ℕ → ℕ → ℕ → ℕ → ℕ → Bytes → Bytes
blocks_loop zero p val i count mem = mem
blocks_loop (suc fuel) p val i count mem =
    let mem1 = sd (p + 8) val (sd p val mem) in
    let rest = blocks_loop fuel (p + 16) val (i + 16) count mem1 in
    if ltb (i + 16) count then rest else mem1

unfoldable pub memset_16bytes : ℕ → ℕ → ℕ → Bytes → Bytes
memset_16bytes p val count mem = blocks_loop count p val 0 count mem

-- __memset_1bytes
unfoldable pub memset_1bytes : ℕ → ℕ → ℕ → Bytes → Bytes
memset_1bytes s c zero mem = mem
memset_1bytes s c (suc count) mem = memset_1bytes (s + 1) c count (store_byte s c mem)

-- The loop that fills the word `data`, from `i` on for `n` rounds.
unfoldable pub data_loop : ℕ → ℕ → ℕ → ℕ → ℕ
data_loop zero i c word = word
data_loop (suc n) i c word = data_loop n (i + 1) c (bit_or word (shl64 (bit_and c 0xff) (i * 8)))

-- The bytes in front of the first aligned address.
unfoldable pub head_size : ℕ → ℕ → ℕ
head_size address count =
    let size = 16 - bit_and address 15 in
    if bit_and address 15 == 0 then 0 else if ltb count size then count else size

-- The part from the aligned address on.
unfoldable pub memset_aligned : ℕ → ℕ → ℕ → Bytes → Option Bytes
memset_aligned p c left mem =
    let n = left / 16 in
    let rest = left % 16 in
    if leb 16 left
    then (let mem1 = memset_16bytes p (data_loop 8 0 c 0) (16 * n) mem in
        if leb (2 ^ 31) (16 * n)
        then none
        else some (if rest == 0 then mem1 else memset_1bytes (p + 16 * n) c rest mem1))
    else some (memset_1bytes p c left mem)

-- __memset and memset; the result is `s`.
unfoldable pub memset : ℕ → ℕ → ℕ → Bytes → Option Bytes
memset s c count mem =
    let size = head_size s count in
    memset_aligned (s + size) c (count - size) (memset_1bytes s c size mem)
