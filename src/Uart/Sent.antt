-- ===== src/Uart/Sent.antt =====
-- What benos/src/uart.c sends.
use risc_v_lab.Base.{
  ℕ, suc, ◌+◌, ◌%◌, ◌^◌, ◌≤◌, ◌<◌, ◌≡◌, ◌∙◌, sym, ap, refl, arith, ◌==◌, true, false, if◌then◌else◌,
  bit_and, u8, some, List, [], ◌∷◌, ◌++◌, length, length-append, All,
}
use mathlib.Core.List.{append_assoc, append-nil}
use native.Mathlib.Decide.{ℕ_discrete}
use risc_v_lab.Uart.{
  Uart, uart_dat, uart_lsr_empty, writeb, wait_empty, uart_send, uart_send_string, putchar,
  put_text,
}

-- How often the line will be seen free.
abbrev pub free_times : List ℕ → ℕ
free_times [] = 0
free_times (lsr ∷ rest) =
    if bit_and lsr uart_lsr_empty == 0 then free_times rest else suc (free_times rest)

-- The writes that send a text.
abbrev pub sends : List ℕ → List (ℕ × ℕ)
sends [] = []
sends (c ∷ text) = (uart_dat, c) ∷ sends text

pub sends-append : (xs ys : List ℕ) → sends (xs ++ ys) ≡ sends xs ++ sends ys
sends-append [] ys = refl
sends-append (x ∷ xs) ys = ap (λ l. (uart_dat, x) ∷ l) (sends-append xs ys)

-- The bytes `text` have been sent, and the line has been waited for once for each of them.
pub record Sent (text : List ℕ) (u u' : Uart) : Type 0 where
  pub sent : u'.writes ≡ u.writes ++ sends text
  pub waited : free_times u.readings ≡ length text + free_times u'.readings

free_again :
    (lsr : ℕ) (rest : List ℕ)
    → (bit_and lsr uart_lsr_empty == 0) ≡ true
    → free_times (lsr ∷ rest) ≡ free_times rest
free_again lsr rest busy = ap (λ b. if b then free_times rest else suc (free_times rest)) busy

free_now :
    (lsr : ℕ) (rest : List ℕ)
    → (bit_and lsr uart_lsr_empty == 0) ≡ false
    → free_times (lsr ∷ rest) ≡ suc (free_times rest)
free_now lsr rest go = ap (λ b. if b then free_times rest else suc (free_times rest)) go

wait_empty-frees :
    (readings : List ℕ)
    → 0 < free_times readings
    → (rest : List ℕ) × (wait_empty readings ≡ some rest)
      × (free_times readings ≡ suc (free_times rest))
unfolding wait_empty
wait_empty-frees [] h = absurd (omega arith)
wait_empty-frees (lsr ∷ rest) h = elim (ℕ_discrete (bit_and lsr uart_lsr_empty) 0) [
  | yes e ↦
      let busy : (bit_and lsr uart_lsr_empty == 0) ≡ true = ground arith in
      let (rest', runs, count) = wait_empty-frees rest (ground arith) in
      (rest', rw busy runs, free_again lsr rest busy ∙ count)
  | no ne ↦
      let go : (bit_and lsr uart_lsr_empty == 0) ≡ false = ground arith in
      (rest, rw go refl, free_now lsr rest go)
]

uart_send-Sent :
    (c : ℕ) (u : Uart)
    → c < 256
    → 0 < free_times u.readings
    → (u' : Uart) × (uart_send c u ≡ some u') × Sent (c ∷ []) u u'
unfolding uart_send writeb
uart_send-Sent c u byte h =
    let (rest, runs, count) = wait_empty-frees u.readings h in
    let same : c % 2 ^ 8 ≡ c = omega arith in
    (
      record { readings = rest; writes = u.writes ++ (uart_dat, u8 c) ∷ [] },
      rw runs refl,
      record {
        sent = ap (λ b. u.writes ++ (uart_dat, b) ∷ []) same;
        waited = omega (arith, count);
      },
    )

Sent-none : (u : Uart) → Sent [] u u
Sent-none u = record { sent = sym (append-nil u.writes); waited = omega arith }

Sent-trans : (xs ys : List ℕ) (u u1 u' : Uart) → Sent xs u u1 → Sent ys u1 u' → Sent (xs ++ ys) u u'
Sent-trans xs ys u u1 u' s t = record {
  sent =
      t.sent
      ∙ ap (λ l. l ++ sends ys) s.sent
      ∙ append_assoc u.writes (sends xs) (sends ys)
      ∙ ap (λ l. u.writes ++ l) (sym (sends-append xs ys));
  waited = omega (arith, s.waited, t.waited, length-append xs ys);
}

-- `uart_send_string` sends the bytes of its string, in their order and nothing else, and returns, if
-- the line is seen free as often as there are bytes.
pub uart_send_string-Sent :
    (str : List ℕ) (u : Uart)
    → All (λ c. c < 256) str
    → length str ≤ free_times u.readings
    → (u' : Uart) × (uart_send_string str u ≡ some u') × Sent str u u'
unfolding uart_send_string
uart_send_string-Sent [] u bytes h = (u, refl, Sent-none u)
uart_send_string-Sent (c ∷ str) u bytes h =
    let (u1, runs, s) = uart_send-Sent c u bytes.0 (omega arith) in
    let (u', runs', t) = uart_send_string-Sent str u1 bytes.1 (omega (arith, s.waited)) in
    (u', rw runs runs', Sent-trans (c ∷ []) str u u1 u' s t)

-- A text with a carriage return in front of each line feed.
abbrev pub crlf : List ℕ → List ℕ
crlf [] = []
crlf (c ∷ text) = if c == 10 then 13 ∷ 10 ∷ crlf text else c ∷ crlf text

putchar-Sent :
    (c : ℕ) (u : Uart)
    → c < 256
    → length (crlf (c ∷ [])) ≤ free_times u.readings
    → (u' : Uart) × (putchar c u ≡ some u') × Sent (crlf (c ∷ [])) u u'
unfolding putchar
putchar-Sent c u byte h = elim (ℕ_discrete c 10) [
  | yes e ↦
      let newline : (c == 10) ≡ true = ground arith in
      let two : crlf (c ∷ []) ≡ 13 ∷ c ∷ [] = rw (newline, e) refl in
      let (u1, runs, s) = uart_send-Sent 13 u (omega arith) (omega (arith, ap length two)) in
      let (u', runs', t) = uart_send-Sent c u1 byte (omega (arith, ap length two, s.waited)) in
      (u', rw (newline, runs, runs') refl, rw two (Sent-trans (13 ∷ []) (c ∷ []) u u1 u' s t))
  | no ne ↦
      let other : (c == 10) ≡ false = ground arith in
      let one : crlf (c ∷ []) ≡ c ∷ [] = rw other refl in
      let (u', runs, s) = uart_send-Sent c u byte (omega (arith, ap length one)) in
      (u', rw (other, runs) refl, rw one s)
]

crlf-cons : (c : ℕ) (text : List ℕ) → crlf (c ∷ text) ≡ crlf (c ∷ []) ++ crlf text
crlf-cons c text = elim (ℕ_discrete c 10) [
  | yes e ↦ let newline : (c == 10) ≡ true = ground arith in rw newline refl
  | no ne ↦ let other : (c == 10) ≡ false = ground arith in rw other refl
]

-- A message that the console hands to `putchar` byte by byte reaches the device with a carriage
-- return in front of each line feed and otherwise as it is, in its order and nothing else, and each
-- call returns, if the line is seen free as often as there are bytes to send.
pub put_text-Sent :
    (text : List ℕ) (u : Uart)
    → All (λ c. c < 256) text
    → length (crlf text) ≤ free_times u.readings
    → (u' : Uart) × (put_text text u ≡ some u') × Sent (crlf text) u u'
unfolding put_text
put_text-Sent [] u bytes h = (u, refl, Sent-none u)
put_text-Sent (c ∷ text) u bytes h =
    let len = ap length (crlf-cons c text) ∙ length-append (crlf (c ∷ [])) (crlf text) in
    let (u1, runs, s) = putchar-Sent c u bytes.0 (omega (arith, len)) in
    let (u', runs', t) = put_text-Sent text u1 bytes.1 (omega (arith, len, s.waited)) in
    (u', rw runs runs', rw (crlf-cons c text) (Sent-trans (crlf (c ∷ [])) (crlf text) u u1 u' s t))
