-- ===== src/Uart.antt =====
-- The serial port: benos/src/uart.c. What the code writes to the device is kept in order as pairs of
-- a register and a byte; what it reads from the line status register is an argument, the list of
-- the readings to come.
pub mod Sent
use risc_v_lab.Base.{
  ℕ, ◌+◌, ◌*◌, ◌/◌, ◌%◌, ◌^◌, ◌==◌, if◌then◌else◌, Bool, true, false, ltb, bit_and, u8, Option,
  none, some, ◌>>=◌, List, [], ◌∷◌, ◌++◌,
}
use risc_v_lab.Plic.{Plic, uart0_irq, plic_enable_irq}

abbrev pub uart_dat : ℕ
uart_dat = 0x10000000

abbrev pub uart_ier : ℕ
uart_ier = 0x10000001

abbrev pub uart_fcr : ℕ
uart_fcr = 0x10000002

abbrev pub uart_lcr : ℕ
uart_lcr = 0x10000003

abbrev pub uart_dll : ℕ
uart_dll = 0x10000000

abbrev pub uart_dlm : ℕ
uart_dlm = 0x10000001

abbrev pub uart_lsr_empty : ℕ
uart_lsr_empty = 0x40

abbrev pub uart_lsr_dr : ℕ
uart_lsr_dr = 0x01

pub record Uart : Type 0 where
  pub readings : List ℕ
  pub writes : List (ℕ × ℕ)

-- The value is a byte.
unfoldable pub writeb : ℕ → ℕ → Uart → Uart
writeb v reg u = record u { writes = u.writes ++ (reg, u8 v) ∷ [] }

-- The loop that waits for the line; `none` waits for ever, as no reading to come lets it go on.
unfoldable pub wait_empty : List ℕ → Option (List ℕ)
wait_empty [] = none
wait_empty (lsr ∷ rest) =
    let again = wait_empty rest in if bit_and lsr uart_lsr_empty == 0 then again else some rest

unfoldable pub uart_send : ℕ → Uart → Option Uart
uart_send c u = do
  rest ← wait_empty u.readings
  some (writeb c uart_dat (record u { readings = rest }))

-- A `char` is a byte without sign, so that -1 is 255.
unfoldable pub uart_get : ℕ → ℕ → ℕ
uart_get lsr dat = if bit_and lsr uart_lsr_dr == 0 then 255 else u8 dat

-- The bytes of the string without the 0 at its end.
unfoldable pub uart_send_string : List ℕ → Uart → Option Uart
uart_send_string [] u = some u
uart_send_string (c ∷ str) u = do u1 ← uart_send c u; uart_send_string str u1

unfoldable pub putchar : ℕ → Uart → Option Uart
putchar c u = do u1 ← if c == 10 then uart_send 13 u else some u; uart_send c u1

-- 1843200 / (16 * 115200)
abbrev pub divisor : ℕ
divisor = 1843200 / (16 * 115200)

unfoldable pub uart_init : Uart → Uart
uart_init u =
    let u1 = writeb 0 uart_ier u in
    let u2 = writeb 0x80 uart_lcr u1 in
    let u3 = writeb divisor uart_dll u2 in
    let u4 = writeb (divisor / 2 ^ 8) uart_dlm u3 in
    let u5 = writeb 0x3 uart_lcr u4 in let u6 = writeb 0xc7 uart_fcr u5 in writeb 0x1 uart_ier u6

-- Whether the message is printed; the arguments are what the two registers read.
unfoldable pub handle_uart_irq : ℕ → ℕ → Bool
handle_uart_irq lsr dat =
    let c = uart_get lsr dat in if ltb c 0 then false else if c == 13 then true else false

-- The functions that the console calls for each byte of a message.
unfoldable pub put_text : List ℕ → Uart → Option Uart
put_text [] u = some u
put_text (c ∷ text) u = do u1 ← putchar c u; put_text text u1

unfoldable pub enable_uart_plic : Uart → Plic → Uart × Plic
enable_uart_plic u p = (uart_init u, plic_enable_irq 0 uart0_irq true p)
