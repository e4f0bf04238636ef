-- ===== src/Plic/Claims.antt =====
-- The claims and completions of `plic_handle_irq` (benos/src/plic.c).
use risc_v_lab.Base.{
  ℕ, ◌+◌, ◌==◌, if◌then◌else◌, false, bit_and, bit_or, not64, List, [], ◌∷◌, ◌++◌, All, ◌≡◌, ◌≢◌,
  ◌∙◌, ap, sym, Bool-cases, inl, inr, arith,
}
use mathlib.Core.List.{append_assoc, append-nil}
use risc_v_lab.Plic.{Plic, uart0_irq, sie_seie, claim_loop, plic_handle_irq}

-- How often a number occurs.
abbrev pub count : ℕ → List ℕ → ℕ
count n [] = 0
count n (x ∷ xs) = (if x == n then 1 else 0) + count n xs

abbrev claimed : List ℕ → Plic → Plic
claimed cs p = record p {
  uart_calls = p.uart_calls + count uart0_irq cs;
  completed = p.completed ++ cs;
}

outputs : Plic → ℕ → List ℕ → Plic
outputs p calls done = record p { uart_calls = calls; completed = done }

same_outputs :
    (p : Plic) (a b : ℕ) (xs ys : List ℕ) → a ≡ b → xs ≡ ys → outputs p a xs ≡ outputs p b ys
same_outputs p a b xs ys e f = λ i. outputs p (e i) (f i)

claim_loop-claimed :
    (cs ds : List ℕ) (p : Plic) → All (λ n. n ≢ 0) cs → claim_loop (cs ++ 0 ∷ ds) p ≡ claimed cs p
unfolding claim_loop outputs
claim_loop-claimed [] ds p ok =
    same_outputs p p.uart_calls (p.uart_calls + 0) p.completed (p.completed ++ []) (omega arith)
      (sym (append-nil p.completed))
claim_loop-claimed (c ∷ cs) ds p ok =
    let more : (c == 0) ≡ false = ground (arith, ok.0) in
    let last = append_assoc p.completed (c ∷ []) cs in
    elim (Bool-cases (c == uart0_irq)) [
      | inl uart ↦
          rw (more, uart)
            (claim_loop-claimed cs ds (outputs p (p.uart_calls + 1) (p.completed ++ c ∷ [])) ok.1
              ∙ same_outputs p _ _ _ _ (omega arith) last)
      | inr other ↦
          rw (more, other)
            (claim_loop-claimed cs ds (outputs p p.uart_calls (p.completed ++ c ∷ [])) ok.1
              ∙ same_outputs p _ _ _ _ (omega arith) last)
    ]

-- `plic_handle_irq`, when the claim register reads the numbers `cs`, none of them 0, and then 0,
-- completes exactly these in this order, calls the serial port's handler once for each that is its
-- number, leaves the registers of the device but for the claims as they are, and reads no further.
pub plic_handle_irq-completes :
    (cs ds : List ℕ) (p : Plic)
    → All (λ n. n ≢ 0) cs
    → ((plic_handle_irq (cs ++ 0 ∷ ds) p).completed ≡ p.completed ++ cs)
      × ((plic_handle_irq (cs ++ 0 ∷ ds) p).uart_calls ≡ p.uart_calls + count uart0_irq cs)
      × ((plic_handle_irq (cs ++ 0 ∷ ds) p).device ≡ p.device)
      × ((plic_handle_irq (cs ++ 0 ∷ ds) p).sie ≡ bit_or (bit_and p.sie (not64 sie_seie)) sie_seie)
unfolding plic_handle_irq
plic_handle_irq-completes cs ds p ok =
    let runs = claim_loop-claimed cs ds (record p { sie = bit_and p.sie (not64 sie_seie) }) ok in
    (
      ap (λ (x : Plic). x.completed) runs,
      ap (λ (x : Plic). x.uart_calls) runs,
      ap (λ (x : Plic). x.device) runs,
      ap (λ (x : Plic). bit_or x.sie sie_seie) runs,
    )
