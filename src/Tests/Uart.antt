-- ===== src/Tests/Uart.antt =====
-- benos/src/uart.c at concrete inputs.
use risc_v_lab.Base.{ℕ, ◌≡◌, refl, arith, some, true, false, List, [], ◌∷◌}
use risc_v_lab.Uart.{
  Uart, writeb, wait_empty, uart_send, putchar, put_text, uart_get, handle_uart_irq, uart_init,
}
use risc_v_lab.Uart.Sent.{Sent, put_text-Sent}

-- The line is busy twice before it is free.
abbrev port : Uart
port = record { readings = 0 ∷ 0x60 ∷ 0x20 ∷ 0x60 ∷ 0x60 ∷ []; writes = [] }

-- "A" and a line feed
abbrev line : List ℕ
line = 65 ∷ 10 ∷ []

put_text-Sent_example :
    (u' : Uart) × (put_text line port ≡ some u') × Sent (65 ∷ 13 ∷ 10 ∷ []) port u'
put_text-Sent_example = put_text-Sent line port (omega arith, (omega arith, tt)) (omega arith)

line_sent :
    put_text line port
    ≡ some (record {
      readings = [];
      writes = (0x10000000, 65) ∷ (0x10000000, 13) ∷ (0x10000000, 10) ∷ [];
    })
unfolding put_text putchar uart_send wait_empty writeb
line_sent = refl

-- No byte is there: the result is 255, which is not below 0.
no_byte : uart_get 0x60 65 ≡ 255
unfolding uart_get
no_byte = refl

return_key : (handle_uart_irq 0x61 13 ≡ true) × (handle_uart_irq 0x60 13 ≡ false)
unfolding handle_uart_irq uart_get
return_key = (refl, refl)

init_writes :
    (uart_init port).writes
    ≡ (0x10000001, 0)
      ∷ (0x10000003, 0x80)
      ∷ (0x10000000, 1)
      ∷ (0x10000001, 0)
      ∷ (0x10000003, 3)
      ∷ (0x10000002, 0xc7)
      ∷ (0x10000001, 1)
      ∷ []
unfolding uart_init writeb
init_writes = refl
