-- ===== src/ExternalSort/MergePhase/Turns.antt =====
-- The merges of one round of the merge phase of Lab6/main.c, by the threads in any order.
use osisp_labs.Common.{
  ℕ, ◌+◌, ◌*◌, ◌/◌, ◌%◌, ◌≤◌, ◌<◌, ◌≡◌, ◌≢◌, refl, ap, ◌∙◌, sym, subst, Bool, true, false, List, [],
  ◌∷◌, arith, length, drop, ltb, ◌==◌, if◌then◌else◌, min,
}
use native.Mathlib.Decide.{ℕ_discrete, dec_lt}
use native.Mathlib.Nat.{mod-add-div, mod-lt, mod-eq_of_lt, mod-le, add-mod_right}
use osisp_labs.ExternalSort.{Index, slice, merge, merge_pairs}
use osisp_labs.ExternalSort.MergePhase.{Merging, assign, merge_turn, merge_turns}
use osisp_labs.ExternalSort.MergePhase.Pairs.{
  blocks-ext, joined, merge_pair_effect, merge_pairs_effect,
}
use osisp_labs.ExternalSort.Threads.Progress.{turns_of}

-- Pairs of one thread lie `t` apart.
apart : (t p q : ℕ) → 0 < t → q % t ≡ p % t → p < q → p + t ≤ q
apart t p q pos e h =
    let a : q % t + t * (q / t) ≡ q = mod-add-div q t in
    let b : p % t + t * (p / t) ≡ p = mod-add-div p t in
    elim (dec_lt (p / t) (q / t)) [ yes l ↦ grind arith | no l ↦ absurd (grind arith) ]

-- What holds between two merges of a round that began with `a`.
pub record Inv {Mark : Type 0} (lt : Mark → Mark → Bool) (threads size half : ℕ)
    (a : List (Index Mark)) (s : Merging (Index Mark)) : Type 0 where
  pub len : length s.records ≡ length a
  pub column : (i : ℕ) → i < threads → s.tmp_id i % threads ≡ i
  pub merged :
      (q : ℕ)
      → q < half
      → q < s.tmp_id (q % threads)
      → slice s.records (q * (size * 2)) (size * 2)
        ≡ joined lt size (slice a (q * (size * 2)) (size * 2))
  pub fresh :
      (q : ℕ)
      → q < half
      → s.tmp_id (q % threads) ≤ q
      → slice s.records (q * (size * 2)) (size * 2) ≡ slice a (q * (size * 2)) (size * 2)
  pub end : drop (half * (size * 2)) s.records ≡ drop (half * (size * 2)) a

module _ {Mark : Type 0} (lt : Mark → Mark → Bool) (threads size half : ℕ) (a : List (Index Mark))
    (pos : 0 < threads) (fits : half * (size * 2) ≤ length a) where
  pub start-Inv : Inv lt threads size half a (record { records = a; tmp_id = λ i. i })
  start-Inv = record {
    len = refl;
    column = λ i h. mod-eq_of_lt h;
    merged = λ q h l. absurd (omega (arith, mod-le q threads));
    fresh = λ q h l. refl;
    end = refl;
  }

  module _ (s : Merging (Index Mark)) (v : Inv lt threads size half a s) (i : ℕ) (h : i < threads)
      (left : s.tmp_id i < half) where
    abbrev p : ℕ
    p = s.tmp_id i

    abbrev next : Merging (Index Mark)
    next = record {
      records = merge lt s.records (p * 2 * size) ((p * 2 + 1) * size) size;
      tmp_id = assign s.tmp_id i (p + threads);
    }

    next_own : next.tmp_id i ≡ p + threads
    next_own = ground arith

    next_other : (j : ℕ) → i ≢ j → next.tmp_id j ≡ s.tmp_id j
    next_other j ne = ground arith

    grows : (j : ℕ) → s.tmp_id j ≤ next.tmp_id j
    grows j = ground arith

    next-Inv : Inv lt threads size half a next
    next-Inv =
        let (n, own, other, end) =
          merge_pair_effect lt s.records p size half left (omega (arith, v.len, fits)) in
        let mine : p % threads ≡ i = v.column i h in
        let at_p : s.tmp_id (p % threads) ≡ p = ap s.tmp_id mine in
        record {
          len = n ∙ v.len;
          column = λ j hj. elim (ℕ_discrete i j) [
            | yes e ↦
                ap (λ k. next.tmp_id k % threads) (sym e)
                ∙ ap (λ k. k % threads) next_own
                ∙ add-mod_right p threads
                ∙ mine
                ∙ e
            | no ne ↦ ap (λ k. k % threads) (next_other j ne) ∙ v.column j hj
          ];
          merged = λ q hq l. elim (ℕ_discrete p q) [
            | yes same ↦
                subst
                  (λ k.
                    slice next.records (k * (size * 2)) (size * 2)
                    ≡ joined lt size (slice a (k * (size * 2)) (size * 2)))
                  same (own ∙ ap (joined lt size) (v.fresh p left (omega (arith, at_p))))
            | no ne ↦ other q ne ∙ v.merged q hq (before q ne l)
          ];
          fresh = λ q hq l.
              other q (λ same.
                let moved : next.tmp_id (q % threads) ≡ p + threads =
                  ap (λ k. next.tmp_id (k % threads)) (sym same) ∙ ap next.tmp_id mine ∙ next_own in
                absurd (omega (arith, moved)))
              ∙ v.fresh q hq (omega (arith, grows (q % threads)));
          end = end ∙ v.end;
        }
      where
        before : (q : ℕ) → p ≢ q → q < next.tmp_id (q % threads) → q < s.tmp_id (q % threads)
        before q ne l = elim (ℕ_discrete i (q % threads)) [
          | yes e ↦
              let moved : next.tmp_id (q % threads) ≡ p + threads =
                ap next.tmp_id (sym e) ∙ next_own in
              let here : s.tmp_id (q % threads) ≡ p = ap s.tmp_id (sym e) in
              elim (dec_lt p q) [
                | yes beyond ↦ absurd (
                    omega (arith, moved, apart threads p q pos (sym e ∙ sym (v.column i h)) beyond))
                | no not_beyond ↦ omega (arith, here)
              ]
          | no other ↦ omega (arith, next_other (q % threads) other)
        ]

  turn-Inv :
      (i : ℕ) (s : Merging (Index Mark))
      → Inv lt threads size half a s
      → Inv lt threads size half a (merge_turn lt threads size half i s)
  unfolding merge_turn
  turn-Inv i s v = elim (dec_lt i threads) [
    | no other ↦ let t : ltb i threads ≡ false = ground arith in rw (t) v
    | yes h ↦ elim (dec_lt (s.tmp_id i) half) [
      | no done ↦
          let t : ltb i threads ≡ true = ground arith in
          let u : ltb (s.tmp_id i) half ≡ false = ground arith in rw (t, u) v
      | yes left ↦
          let t : ltb i threads ≡ true = ground arith in
          let u : ltb (s.tmp_id i) half ≡ true = ground arith in rw (t, u) (next-Inv s v i h left)
    ]
  ]

  pub turns-Inv :
      (is : List ℕ) (s : Merging (Index Mark))
      → Inv lt threads size half a s
      → Inv lt threads size half a (merge_turns lt threads size half is s)
  unfolding merge_turns
  turns-Inv [] s v = v
  turns-Inv (i ∷ is) s v = turns-Inv is (merge_turn lt threads size half i s) (turn-Inv i s v)

  -- A thread with turns enough has no pair left.
  turn_progress :
      (i j : ℕ) (s : Merging (Index Mark))
      → i < threads
      → min half (s.tmp_id i + (if i == j then 1 else 0))
        ≤ (merge_turn lt threads size half j s).tmp_id i
  unfolding merge_turn
  turn_progress i j s h = ground arith

  pub turns_progress :
      (is : List ℕ) (i : ℕ) (s : Merging (Index Mark))
      → i < threads
      → min half (s.tmp_id i + turns_of i is) ≤ (merge_turns lt threads size half is s).tmp_id i
  unfolding merge_turns
  turns_progress [] i s h = omega arith
  turns_progress (j ∷ is) i s h =
      omega
        (arith, turn_progress i j s h, turns_progress is i (merge_turn lt threads size half j s) h)

  -- When nobody has a pair left the records are those of the sequential round.
  pub round_lem :
      (s : Merging (Index Mark))
      → Inv lt threads size half a s
      → ((i : ℕ) → i < threads → half ≤ s.tmp_id i)
      → s.records ≡ merge_pairs lt size a 0 half
  round_lem s v done =
      let (n, _, inside, end) = merge_pairs_effect lt half 0 size half a (omega arith) fits in
      let same : (q : ℕ)
          → q < half
          → slice s.records (q * (size * 2) + 0) (size * 2)
            ≡ slice (merge_pairs lt size a 0 half) (q * (size * 2) + 0) (size * 2) =
        λ q h.
          ap (λ k. slice s.records k (size * 2)) (omega arith)
          ∙ v.merged q h (omega (arith, done (q % threads) (mod-lt q pos)))
          ∙ sym (inside q (omega arith) (omega arith))
          ∙ ap (λ k. slice (merge_pairs lt size a 0 half) k (size * 2)) (omega arith) in
      blocks-ext (size * 2) half 0 s.records (merge_pairs lt size a 0 half) same (
        ap (λ k. drop k s.records) (omega arith)
        ∙ v.end
        ∙ sym end
        ∙ ap (λ k. drop k (merge_pairs lt size a 0 half)) (omega arith))
