-- ===== src/SharedQueue/Mutex/Sections.antt =====
-- The stores of the section of Lab4/lab4Main.c, against the section as a whole.
use mathlib.Core.Option.{some-injective}
use mathlib.Core.List.{append_assoc}
use native.Mathlib.Decide.{ℕ_discrete}
use osisp_labs.Common.{
  ℕ, ◌+◌, ◌/◌, ◌≡◌, ◌≢◌, refl, ap, sym, subst, ◌∙◌, Bool, true, false, some, List, [], ◌∷◌, ◌++◌,
  ◌==◌, if◌then◌else◌, equal_self, unequal,
}
use osisp_labs.SharedQueue.{Shared, add_message, message_bytes, max_str_len, data_bytes}
use osisp_labs.SharedQueue.Mutex.{
  Pc, outside, waiting, counting, copying, passing, storing, jumping, wrapping, posting_full,
  posting_mutex, update, work,
}

abbrev pub in_section : Pc → Bool
in_section outside = false
in_section (waiting size) = false
in_section _ = true

-- What a process in the section still does to the queue, from each of the stores on.
abbrev pub from_full : Shared → Shared
from_full s = record s { full = s.full + 1 }

abbrev pub from_wrap : Shared → Shared
from_wrap s =
    from_full
      (record s { tail = if s.tail / (max_str_len + message_bytes) == 10 then 0 else s.tail })

abbrev pub from_jump : Shared → Shared
from_jump s = from_wrap (record s { tail = s.tail + max_str_len })

abbrev pub from_store : ℕ → Shared → Shared
from_store size s = from_jump (record s { copies = s.copies ++ ((s.tail, data_bytes size) ∷ []) })

abbrev pub from_pass : ℕ → Shared → Shared
from_pass size s = from_store size (record s { tail = s.tail + message_bytes })

abbrev pub from_copy : ℕ → Shared → Shared
from_copy size s = from_pass size (record s { copies = s.copies ++ ((s.tail, message_bytes) ∷ []) })

abbrev pub finish : Pc → Shared → Shared
finish outside s = s
finish (waiting size) s = s
finish posting_mutex s = s
finish posting_full s = from_full s
finish wrapping s = from_wrap s
finish jumping s = from_jump s
finish (storing size) s = from_store size s
finish (passing size) s = from_pass size s
finish (copying size) s = from_copy size s
finish (counting size) s = from_copy size (record s { count_add = s.count_add + 1 })

pub finish-add_message : (size : ℕ) (s : Shared) → finish (counting size) s ≡ add_message size s
unfolding add_message
finish-add_message size s =
    ap (λ copies. record (add_message size s) { copies = copies })
      (append_assoc s.copies ((s.tail, message_bytes) ∷ [])
        ((s.tail + message_bytes, data_bytes size) ∷ []))

abbrev pub Goes : Pc → Shared → Pc × Shared → Type 0
Goes p s (q, t) = (in_section q ≡ true) × (finish q t ≡ finish p s)

-- A store leaves the process in the section, with the same end.
pub finish-work : (p : Pc) (s : Shared) (r : Pc × Shared) → work p s ≡ some r → Goes p s r
unfolding work
finish-work outside s r e = absurd (cc)
finish-work (waiting size) s r e = absurd (cc)
finish-work posting_mutex s r e = absurd (cc)
finish-work (counting size) s r e =
    subst (Goes (counting size) s) (some-injective _ _ e) (refl, refl)
finish-work (copying size) s r e = subst (Goes (copying size) s) (some-injective _ _ e) (refl, refl)
finish-work (passing size) s r e = subst (Goes (passing size) s) (some-injective _ _ e) (refl, refl)
finish-work (storing size) s r e = subst (Goes (storing size) s) (some-injective _ _ e) (refl, refl)
finish-work jumping s r e = subst (Goes jumping s) (some-injective _ _ e) (refl, refl)
finish-work wrapping s r e = subst (Goes wrapping s) (some-injective _ _ e) (refl, refl)
finish-work posting_full s r e = subst (Goes posting_full s) (some-injective _ _ e) (refl, refl)

-- The messages that are added to a queue, the last first.
abbrev pub fill : List ℕ → Shared → Shared
fill [] s = s
fill (size ∷ sizes) s = add_message size (fill sizes s)

pub update_self : (pc : ℕ → Pc) (i : ℕ) (p : Pc) → update pc i p i ≡ p
update_self pc i p = rw (equal_self i) refl

pub update_ne : (pc : ℕ → Pc) (i j : ℕ) (p : Pc) → i ≢ j → update pc i p j ≡ pc j
update_ne pc i j p ne = rw (unequal i j ne) refl

pub update_outside :
    (pc : ℕ → Pc) (i j : ℕ) (p : Pc)
    → in_section p ≡ false
    → (i ≢ j → in_section (pc j) ≡ false)
    → in_section (update pc i p j) ≡ false
update_outside pc i j p h k = elim (ℕ_discrete i j) [
  | yes same ↦ rw (ap (λ m. i == m) (sym same) ∙ equal_self i) h
  | no ne ↦ rw (unequal i j ne) (k ne)
]

pub work-inside : (p : Pc) (s : Shared) (r : Pc × Shared) → work p s ≡ some r → in_section p ≡ true
unfolding work
work-inside outside s r e = absurd (cc)
work-inside (waiting size) s r e = absurd (cc)
work-inside posting_mutex s r e = absurd (cc)
work-inside (counting size) s r e = refl
work-inside (copying size) s r e = refl
work-inside (passing size) s r e = refl
work-inside (storing size) s r e = refl
work-inside jumping s r e = refl
work-inside wrapping s r e = refl
work-inside posting_full s r e = refl
