-- ===== src/FileServer/Strings.antt =====
-- What is used of the string functions: how they see a string that has been put before another.
use osisp_labs.Common.{
  has, has_inv, ℕ, zero, suc, ◌+◌, ◌-◌, ◌<◌, ◌≡◌, refl, ap, ◌≢◌, true, false, ◌&&◌, List, [], ◌∷◌,
  ◌++◌, ◌==◌, Bool-cases, inl, inr, replicate, some, take-append, drop-append, length-append, ltb,
  length, drop, get_or, arith,
}
use osisp_labs.FileServer.{starts_with, c_string, cut_last, copy_to, argument, stamped}
use mathlib.Core.List.{append_assoc}

-- What follows a character that is not in the word is not seen.
pub starts_with-append :
    (s r word : List ℕ) (c : ℕ)
    → has c word ≡ false
    → starts_with (s ++ (c ∷ r)) word ≡ starts_with s word
unfolding starts_with
starts_with-append s r [] c h = refl
starts_with-append [] r (w ∷ word) c h =
    let (d, rest) = has_inv c w word h in let e : (c == w) ≡ false = ground (arith, d) in rw e refl
starts_with-append (a ∷ s) r (w ∷ word) c h =
    ap (◌&&◌ (a == w)) (starts_with-append s r word c (has_inv c w word h).1)

-- A string does not start with two different characters.
pub starts_with-apart :
    (s word other : List ℕ) (a b : ℕ)
    → a ≢ b
    → starts_with s (a ∷ word) ≡ true
    → starts_with s (b ∷ other) ≡ false
unfolding starts_with
starts_with-apart [] word other a b d h = refl
starts_with-apart (c ∷ s) word other a b d h = elim (Bool-cases (c == b)) [
  | inl e ↦ absurd (grind (arith, h, e, d))
  | inr e ↦ rw e refl
]

pub c_string-zeros : (s : List ℕ) (k : ℕ) → has 0 s ≡ false → c_string (s ++ replicate k 0) ≡ s
unfolding c_string
c_string-zeros [] zero h = refl
c_string-zeros [] (suc k) h = refl
c_string-zeros (a ∷ s) k h =
    let (d, rest) = has_inv 0 a s h in
    let e : (a == 0) ≡ false = ground (arith, d) in rw e (ap (◌∷◌ a) (c_string-zeros s k rest))

drop-replicate : (n m k a : ℕ) → k ≡ m - n → drop n (replicate m a) ≡ replicate k a
drop-replicate zero m k a e = ap (λ i. replicate i a) (omega arith)
drop-replicate (suc n) zero k a e = let empty : k ≡ 0 = omega arith in rw empty refl
drop-replicate (suc n) (suc m) k a e = drop-replicate n m k a (omega arith)

-- The string of a cleared buffer behind a copy is the copy.
pub c_string-copy_to :
    (s : List ℕ) (n : ℕ) → has 0 s ≡ false → c_string (copy_to s (replicate n 0)) ≡ s
c_string-copy_to s n h =
    rw (drop-replicate (length s) n (n - length s) 0 refl) (c_string-zeros s (n - length s) h)

-- What the program takes for the argument is what stands before the time.
pub argument-stamped :
    (word now text : List ℕ) (n : ℕ)
    → n ≡ length word
    → length now ≡ 23
    → argument n (stamped now (word ++ text)) ≡ some text
unfolding argument
argument-stamped word now text n e h =
    let whole : stamped now (word ++ text) ≡ word ++ stamped now text =
      append_assoc word text (b' ' ∷ b'-' ∷ b' ' ∷ now) in
    let size : length (word ++ stamped now text) ≡ n + length text + 26 = omega (
      arith,
      e,
      h,
      length-append word (stamped now text),
      length-append text (b' ' ∷ b'-' ∷ b' ' ∷ now),
    ) in
    let enough : ltb (n + length text + 26) (n + 26) ≡ false = ground arith in
    let left : n + length text + 26 - n - 26 ≡ length text = omega arith in
    rw (whole, size, enough, left, drop-append word (stamped now text) n e)
      (ap some (take-append text (b' ' ∷ b'-' ∷ b' ' ∷ now) (length text) refl))

get_or-append_right :
    (s r : List ℕ) (j i d : ℕ) → j ≡ length s + i → get_or (s ++ r) j d ≡ get_or r i d
get_or-append_right [] r j i d e = ap (λ k. get_or r k d) (omega arith)
get_or-append_right (a ∷ s) r zero i d e = absurd (omega arith)
get_or-append_right (a ∷ s) r (suc j) i d e = get_or-append_right s r j i d (omega arith)

get_or-has : (s : List ℕ) (c i d : ℕ) → has c s ≡ false → i < length s → get_or s i d ≢ c
get_or-has [] c i d h k = absurd (omega arith)
get_or-has (a ∷ s) c zero d h k = (has_inv c a s h).0
get_or-has (a ∷ s) c (suc i) d h k = get_or-has s c i d ((has_inv c a s h).1) (omega arith)

-- The path is cut where a name without '/' was put behind it.
pub cut_last-behind :
    (dir name : List ℕ) (m n : ℕ)
    → has b'/' name ≡ false
    → m ≡ length dir + n
    → n < length name + 1
    → cut_last (suc m) (dir ++ (b'/' ∷ name)) ≡ dir
unfolding cut_last
cut_last-behind dir name m zero h e k =
    let here : get_or (dir ++ (b'/' ∷ name)) m 0 ≡ b'/' =
      get_or-append_right dir (b'/' ∷ name) m 0 0 e in
    rw here (take-append dir (b'/' ∷ name) m (omega arith))
cut_last-behind dir name zero (suc n) h e k = absurd (omega arith)
cut_last-behind dir name (suc m) (suc n) h e k =
    let here : get_or (dir ++ (b'/' ∷ name)) (suc m) 0 ≡ get_or name n 0 =
      get_or-append_right dir (b'/' ∷ name) (suc m) (suc n) 0 e in
    let plain : (get_or (dir ++ (b'/' ∷ name)) (suc m) 0 == b'/') ≡ false =
      ground (arith, here, get_or-has name b'/' n 0 h (omega arith)) in
    rw plain (cut_last-behind dir name m n h (omega arith) (omega arith))
