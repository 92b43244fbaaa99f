-- ===== src/Ring/Window.antt =====
-- Windows of a circular buffer: when two agree, and what a write at the end adds.
use osisp_labs.Common.{
  ℕ, zero, suc, ◌+◌, ◌≤◌, ◌<◌, ◌≡◌, refl, ap, ap₂, ◌∙◌, List, [], ◌∷◌, ◌++◌, arith, get_or, length,
}
use osisp_labs.Message.{Message}
use osisp_labs.Ring.{zero_message, advance, slot, window}

slot-advance :
    (size head k : ℕ)
    → head < size
    → k + 1 ≤ size
    → slot size (advance size head) k ≡ slot size head (suc k)
slot-advance size head k h p = ground arith

pub slot-lt : (size head k : ℕ) → head < size → k ≤ size → slot size head k < size
slot-lt size head k h p = ground arith

pub slot-zero : (size head : ℕ) → head < size → slot size head 0 ≡ head
slot-zero size head h = ground arith

-- Windows that agree slot by slot are equal, wherever they lie.
pub window-ext :
    (b c : List Message) (s t h g n : ℕ)
    → h < s
    → g < t
    → n ≤ s
    → n ≤ t
    → ((k : ℕ) → k < n → get_or b (slot s h k) zero_message ≡ get_or c (slot t g k) zero_message)
    → window b s h n ≡ window c t g n
unfolding window
window-ext b c s t h g zero hs gt ns nt e = refl
window-ext b c s t h g (suc n) hs gt ns nt e =
    ap₂ ◌∷◌
      (ap (λ i. get_or b i zero_message) (omega (arith, slot-zero s h hs))
        ∙ e 0 (omega arith)
        ∙ ap (λ i. get_or c i zero_message) (slot-zero t g gt))
      (window-ext b c s t (advance s h) (advance t g) n (ground arith) (ground arith) (omega arith)
        (omega arith)
        (λ k p.
          ap (λ i. get_or b i zero_message) (slot-advance s h k hs (omega arith))
          ∙ e (suc k) (omega arith)
          ∙ ap (λ i. get_or c i zero_message) (omega (arith, slot-advance t g k gt (omega arith)))))

pub length-window : (b : List Message) (s h n : ℕ) → length (window b s h n) ≡ n
unfolding window
length-window b s h zero = refl
length-window b s h (suc n) = ap suc (length-window b s (advance s h) n)

-- One more message at the end of a window.
pub window-suc :
    (b : List Message) (s h n : ℕ)
    → h < s
    → n < s
    → window b s h (suc n) ≡ window b s h n ++ (get_or b (slot s h n) zero_message ∷ [])
unfolding window
window-suc b s h zero hs ns =
    ap (λ i. get_or b i zero_message ∷ []) (omega (arith, slot-zero s h hs))
window-suc b s h (suc n) hs ns = ap (◌∷◌ (get_or b h zero_message)) (
    window-suc b s (advance s h) n (ground arith) (omega arith)
    ∙ ap (λ i. window b s (advance s h) n ++ (get_or b i zero_message ∷ []))
        (slot-advance s h n hs (omega arith)))

pub window-empty : (b c : List Message) (s t h g n : ℕ) → n ≡ 0 → window b s h n ≡ window c t g n
unfolding window
window-empty b c s t h g n e = rw e
