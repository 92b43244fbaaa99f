-- ===== src/Statistics.antt =====
-- Lab3/child.c: a child process that writes a pair of numbers over and over, and counts by a timer
-- which pair the signal handler finds. The main loop advances one store at a time, and a signal
-- may come between any two of them.
pub mod Counts
mod Tests
use osisp_labs.Common.{
  ℕ, suc, ◌+◌, Bool, true, false, ◌&&◌, List, [], ◌∷◌, ltb, ◌==◌, if◌then◌else◌,
}

-- Where the main loop stands: before the store of a field of `pair`, at the test, before
-- the output, or before one of the stores of `countTimes = countZeroAndZero = … = 0`, which run from the right.
pub data Pc : Type 0 where
  zero_first zero_second one_first one_second test printing : Pc
  reset_one_zero reset_zero_one reset_one_one reset_zero_zero reset_times : Pc

pub record Child : Type 0 where
  pub pc : Pc
  pub first : ℕ
  pub second : ℕ
  pub count_times : ℕ
  pub zero_zero : ℕ
  pub one_one : ℕ
  pub zero_one : ℕ
  pub one_zero : ℕ
  pub permission_output : Bool

unfoldable pub start : Child
start = record {
  pc = zero_first;
  first = 0;
  second = 0;
  count_times = 0;
  zero_zero = 0;
  one_one = 0;
  zero_one = 0;
  one_zero = 0;
  permission_output = true;
}

-- `pairProcessing`, the handler of SIGALRM
unfoldable pub pair_processing : Child → Child
pair_processing c =
    if c.first == 0 && c.second == 0
    then record c { zero_zero = c.zero_zero + 1; count_times = c.count_times + 1 }
    else if c.first == 1 && c.second == 1
    then record c { one_one = c.one_one + 1; count_times = c.count_times + 1 }
    else if c.first == 0 && c.second == 1
    then record c { zero_one = c.zero_one + 1; count_times = c.count_times + 1 }
    else if c.first == 1 && c.second == 0
    then record c { one_zero = c.one_zero + 1; count_times = c.count_times + 1 }
    else record c { count_times = c.count_times + 1 }

-- `allowOutput`, the handler of SIGUSR1
unfoldable pub allow_output : Child → Child
allow_output c = record c { permission_output = true }

-- `banOutput`, the handler of SIGUSR2
unfoldable pub ban_output : Child → Child
ban_output c = record c { permission_output = false }

-- What one line of `STATISTICS` shows.
pub record Line : Type 0 where
  pub shown_zero_zero : ℕ
  pub shown_one_one : ℕ
  pub shown_zero_one : ℕ
  pub shown_one_zero : ℕ

abbrev line : Child → Line
line c = record {
  shown_zero_zero = c.zero_zero;
  shown_one_one = c.one_one;
  shown_zero_one = c.zero_one;
  shown_one_zero = c.one_zero;
}

-- One store, test or `printf` of the loop of `main`, with the line that it prints. A signal may come
-- between the test and the output.
unfoldable pub advance_by : Pc → Child → Child × List Line
advance_by zero_first c = (record c { pc = zero_second; first = 0 }, [])
advance_by zero_second c = (record c { pc = one_first; second = 0 }, [])
advance_by one_first c = (record c { pc = one_second; first = 1 }, [])
advance_by one_second c = (record c { pc = test; second = 1 }, [])
advance_by test c =
    if ltb 101 c.count_times && c.permission_output
    then (record c { pc = printing }, [])
    else (record c { pc = zero_first }, [])
advance_by printing c = (record c { pc = reset_one_zero }, line c ∷ [])
advance_by reset_one_zero c = (record c { pc = reset_zero_one; one_zero = 0 }, [])
advance_by reset_zero_one c = (record c { pc = reset_one_one; zero_one = 0 }, [])
advance_by reset_one_one c = (record c { pc = reset_zero_zero; one_one = 0 }, [])
advance_by reset_zero_zero c = (record c { pc = reset_times; zero_zero = 0 }, [])
advance_by reset_times c = (record c { pc = zero_first; count_times = 0 }, [])

-- What comes next: a step of the loop or a signal.
pub data Event : Type 0 where
  main_step sigalrm sigusr1 sigusr2 : Event

unfoldable pub step : Child → Event → Child × List Line
unfolding advance_by pair_processing allow_output ban_output
step c main_step = advance_by c.pc c
step c sigalrm = (pair_processing c, [])
step c sigusr1 = (allow_output c, [])
step c sigusr2 = (ban_output c, [])
