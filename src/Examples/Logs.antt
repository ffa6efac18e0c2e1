-- ===== src/Examples/Logs.antt =====
-- Examples of the memory's log, and of the other chips.
use valida.Prelude.{[], ◌∷◌, ◌+◌, ◌≡◌, refl, arith}
use valida.Prelude.BTreeMap.{get}
use valida.Program.{ProgramChip, read_word}
use valida.Program.Counts.{Counts, read_word-Counts}
use valida.Memory.{MemoryChip, write_cell}
use valida.Memory.Log.{IsLogged, history, replay, IsHistory, write-IsLogged}
use valida.Memory.{read_cell, read_or_init}
use valida.Memory.Reads.{CellRead, CellOrZero, reads-Recorded}
use valida.Chips.Advice.{FixedAdviceProvider, get_fixed}
use valida.Chips.Tape.{remaining, take_next, get_fixed-remaining}
use valida.Chips.Range.{range_check}
use valida.Chips.Checked.{checks, occurrences, checks-range_check}
use valida.Examples.{five, seven, sum_chip}

-- A memory with one static cell.
abbrev static_memory : MemoryChip
static_memory = record { cells = (20, five) ∷ []; operations = []; static_data = (20, five) ∷ [] }

static_memory-IsLogged : IsLogged 0 static_memory
unfolding history replay IsHistory
static_memory-IsLogged = record {
  sorted = tt;
  in_time = tt;
  explained = tt;
  current = λ addr. refl;
}

reads-Recorded_example :
    CellRead 0 20 static_memory (read_cell 0 20 static_memory)
    × CellOrZero 0 20 static_memory (read_or_init 0 20 static_memory)
reads-Recorded_example = reads-Recorded 0 static_memory static_memory-IsLogged 20

write-IsLogged_example : IsLogged 0 (write_cell 0 24 seven static_memory)
write-IsLogged_example = write-IsLogged 0 static_memory static_memory-IsLogged 24 seven

abbrev counted_chip : ProgramChip
counted_chip = record sum_chip { counts = 0 ∷ 0 ∷ 1 ∷ 0 ∷ 0 ∷ [] }

read_word-Counts_example : Counts 2 sum_chip counted_chip
unfolding read_word
read_word-Counts_example = read_word-Counts 2 sum_chip counted_chip (record { each = refl }) refl

checks-range_check_example :
    checks 0 (range_check five ((0, 3) ∷ [])) ≡ checks 0 ((0, 3) ∷ []) + occurrences 0 five
unfolding checks get
checks-range_check_example = checks-range_check 0 five ((0, 3) ∷ []) (omega arith)

abbrev half_read : FixedAdviceProvider
half_read = record { advice = 1 ∷ 2 ∷ []; index = 1 }

get_fixed-remaining_example :
    ((get_fixed half_read).0, remaining (get_fixed half_read).1) ≡ take_next (remaining half_read)
get_fixed-remaining_example = get_fixed-remaining half_read
