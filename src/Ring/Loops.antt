-- ===== src/Ring/Loops.antt =====
-- What the loops of the resizing functions do to each slot.
use osisp_labs.Common.{
  ℕ, zero, suc, ◌+◌, ◌-◌, ◌≤◌, ◌<◌, ◌≡◌, ◌⊎◌, inl, inr, refl, sym, ap, ◌∙◌, true, List, arith,
  Bool-cases, ltb, get_or, set, length, length-set, get_or-set_self, get_or-set_ne,
}
use native.Mathlib.Decide.{ℕ_discrete}
use osisp_labs.Message.{Message}
use osisp_labs.Ring.{zero_message, shift_up, move_down, rewind, shift_down}

abbrev at : List Message → ℕ → Message
at b i = get_or b i zero_message

pub length-shift_up : (i low : ℕ) (b : List Message) → length (shift_up i low b) ≡ length b
unfolding shift_up
length-shift_up zero low b = refl
length-shift_up (suc i) low b =
    ground (arith, length-shift_up i low (set b (suc i) (at b i)), length-set b (suc i) (at b i))

pub length-move_down : (n i h : ℕ) (b : List Message) → length (move_down n i h b) ≡ length b
unfolding move_down
length-move_down zero i h b = refl
length-move_down (suc n) i h b =
    length-move_down n (i + 1) h (set b i (at b (h + i))) ∙ length-set b i (at b (h + i))

pub length-shift_down : (n i h : ℕ) (b : List Message) → length (shift_down n i h b) ≡ length b
unfolding shift_down
length-shift_down zero i h b = refl
length-shift_down (suc n) i h b =
    length-shift_down n (i + 1) h (set b (h + i - 1) (at b (h + i)))
    ∙ length-set b (h + i - 1) (at b (h + i))

-- Slots outside `low < j ≤ i` stay.
pub shift_up_kept :
    (i low : ℕ) (b : List Message) (j : ℕ)
    → i < length b
    → (j ≤ low) ⊎ (i < j)
    → get_or (shift_up i low b) j zero_message ≡ get_or b j zero_message
unfolding shift_up
shift_up_kept zero low b j h o = refl
shift_up_kept (suc i) low b j h o = elim (Bool-cases (ltb low (suc i))) [
  | inl t ↦ rw t (
      shift_up_kept i low (set b (suc i) (at b i)) j (omega (arith, length-set b (suc i) (at b i)))
        (ground arith)
      ∙ get_or-set_ne b (suc i) j (at b i) zero_message (ground arith))
  | inr f ↦ rw f
]

-- The slots `low < j ≤ i` take what stood one below.
pub shift_up_moved :
    (i low : ℕ) (b : List Message) (j : ℕ)
    → i < length b
    → low < j
    → j ≤ i
    → get_or (shift_up i low b) j zero_message ≡ get_or b (j - 1) zero_message
unfolding shift_up
shift_up_moved zero low b j h p r = absurd (omega arith)
shift_up_moved (suc i) low b j h p r =
    let t : ltb low (suc i) ≡ true = ground arith in
    let b' = set b (suc i) (at b i) in
    let l : length b' ≡ length b = length-set b (suc i) (at b i) in
    rw t (elim (ℕ_discrete j (suc i)) [
      | yes e ↦
          shift_up_kept i low b' j (omega arith) (inr (omega arith))
          ∙ ap (λ k. at b' k) e
          ∙ get_or-set_self b (suc i) (at b i) zero_message h
          ∙ ap (λ k. at b k) (omega arith)
      | no ne ↦
          shift_up_moved i low b' j (omega arith) p (omega arith)
          ∙ get_or-set_ne b (suc i) (j - 1) (at b i) zero_message (omega arith)
    ])

pub move_down_kept :
    (n i h : ℕ) (b : List Message) (j : ℕ)
    → (j < i) ⊎ (i + n ≤ j)
    → get_or (move_down n i h b) j zero_message ≡ get_or b j zero_message
unfolding move_down
move_down_kept zero i h b j o = refl
move_down_kept (suc n) i h b j o =
    move_down_kept n (i + 1) h (set b i (at b (h + i))) j (ground arith)
    ∙ get_or-set_ne b i j (at b (h + i)) zero_message (ground arith)

-- The slots `i ≤ j < i + n` take what stood `h` above.
pub move_down_moved :
    (n i h : ℕ) (b : List Message) (j : ℕ)
    → h + i + n ≤ length b
    → i ≤ j
    → j < i + n
    → get_or (move_down n i h b) j zero_message ≡ get_or b (h + j) zero_message
unfolding move_down
move_down_moved zero i h b j l p r = absurd (omega arith)
move_down_moved (suc n) i h b j l p r =
    let b' = set b i (at b (h + i)) in
    let e' : length b' ≡ length b = length-set b i (at b (h + i)) in
    elim (ℕ_discrete i j) [
      | yes e ↦
          move_down_kept n (i + 1) h b' j (inl (omega arith))
          ∙ ap (λ k. at b' k) (sym e)
          ∙ get_or-set_self b i (at b (h + i)) zero_message (omega arith)
          ∙ ap (λ k. at b (h + k)) e
      | no ne ↦
          move_down_moved n (i + 1) h b' j (omega arith) (omega arith) (omega arith)
          ∙ get_or-set_ne b i (h + j) (at b (h + i)) zero_message (omega arith)
    ]

pub shift_down_kept :
    (n i h : ℕ) (b : List Message) (j : ℕ)
    → 0 < h
    → (j + 1 < h + i) ⊎ (h + i + n ≤ j + 1)
    → get_or (shift_down n i h b) j zero_message ≡ get_or b j zero_message
unfolding shift_down
shift_down_kept zero i h b j z o = refl
shift_down_kept (suc n) i h b j z o =
    shift_down_kept n (i + 1) h (set b (h + i - 1) (at b (h + i))) j z (ground arith)
    ∙ get_or-set_ne b (h + i - 1) j (at b (h + i)) zero_message (ground arith)

-- The slots from `h + i - 1` on take what stood one above.
pub shift_down_moved :
    (n i h : ℕ) (b : List Message) (j : ℕ)
    → 0 < h
    → h + i + n ≤ length b
    → h + i ≤ j + 1
    → j + 1 < h + i + n
    → get_or (shift_down n i h b) j zero_message ≡ get_or b (j + 1) zero_message
unfolding shift_down
shift_down_moved zero i h b j z l p r = absurd (omega arith)
shift_down_moved (suc n) i h b j z l p r =
    let b' = set b (h + i - 1) (at b (h + i)) in
    let e' : length b' ≡ length b = length-set b (h + i - 1) (at b (h + i)) in
    elim (ℕ_discrete (h + i - 1) j) [
      | yes e ↦
          shift_down_kept n (i + 1) h b' j z (inl (omega arith))
          ∙ ap (λ k. at b' k) (sym e)
          ∙ get_or-set_self b (h + i - 1) (at b (h + i)) zero_message (omega arith)
          ∙ ap (λ k. at b k) (omega arith)
      | no ne ↦
          shift_down_moved n (i + 1) h b' j z (omega arith) (omega arith) (omega arith)
          ∙ get_or-set_ne b (h + i - 1) (j + 1) (at b (h + i)) zero_message (omega arith)
    ]

-- The loop that takes both indices down ends at 0, with the distance kept.
pub rewind_lem : (h t : ℕ) → h ≤ t → ((rewind h t).0 ≡ 0) × ((rewind h t).1 ≡ t - h)
unfolding rewind
rewind_lem zero t l = (refl, omega arith)
rewind_lem (suc h) t l = let r = rewind_lem h (t - 1) (omega arith) in (r.0, omega arith)
