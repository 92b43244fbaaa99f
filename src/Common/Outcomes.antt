-- ===== src/Common/Outcomes.antt =====
-- How a program ends that is run once, and one such program after another.
use mathlib.Core.Option.{Option, none, some}

-- How a program ends: with a file or lines, by `exit`, or undefined.
pub data Outcome {ℓ} (A : Type ℓ) : Type ℓ where
  done : A → Outcome A
  exits : Outcome A
  undefined : Outcome A

-- A program that reads the file that another has left.
unfoldable pub then_run {ℓ κ} : {A : Type ℓ} {B : Type κ} → Outcome A → (A → Outcome B) → Outcome B
then_run (done a) f = f a
then_run exits f = exits
then_run undefined f = undefined

abbrev pub from_option {ℓ} : {A : Type ℓ} → Option A → Outcome A
from_option none = exits
from_option (some a) = done a
