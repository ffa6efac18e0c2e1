-- ===== src/Air/Cpu/Trace/Channels.antt =====
-- cpu/src/lib.rs: which operations of a cycle the memory channels hold.
use valida.Prelude.{
  ℕ, ◌%◌, ◌^◌, ◌≡◌, refl, sym, ap, ◌∙◌, List, [], ◌∷◌, Option, none, some, true, false,
}
use valida.Prelude.BTreeMap.{get}
use mathlib.Core.Option.{get_or}
use valida.Word.{Word}
use valida.Memory.{MemoryChip, Operation, read, write, dummy_read}
use valida.Air.{PrimeField}
use valida.Air.Cpu.{MemoryChannelCols, CpuCols}
use valida.Air.Cpu.Trace.{fill, fill_channels, set_memory_channel_values}

-- The addresses and values that are read, and those that are written.
abbrev pub reads : List Operation → List (ℕ × Word ℕ)
reads [] = []
reads (read addr value ∷ ops) = (addr, value) ∷ reads ops
reads (write addr value ∷ ops) = reads ops
reads (dummy_read addr value ∷ ops) = reads ops

abbrev pub writes : List Operation → List (ℕ × Word ℕ)
writes [] = []
writes (read addr value ∷ ops) = writes ops
writes (write addr value ∷ ops) = (addr, value) ∷ writes ops
writes (dummy_read addr value ∷ ops) = writes ops

abbrev pub first : {A : Type 0} → List A → Option A
first [] = none
first (x ∷ xs) = some x

abbrev pub rest : {A : Type 0} → List A → List A
rest [] = []
rest (x ∷ xs) = xs

abbrev pub last : {A : Type 0} → List A → Option A
last [] = none
last (x ∷ []) = some x
last (x ∷ y ∷ xs) = last (y ∷ xs)

module _ {F : Type 0} (p : PrimeField F) where
  -- A channel with the operation, if there is one.
  abbrev pub filled : Option (ℕ × Word ℕ) → MemoryChannelCols F → MemoryChannelCols F
  filled none channel = channel
  filled (some (addr, value)) channel = fill p addr value channel

  -- The last fill counts.
  filled-fill :
      (x : ℕ × Word ℕ) (xs : List (ℕ × Word ℕ)) (channel : MemoryChannelCols F)
      → filled (last xs) (fill p x.0 x.1 channel) ≡ filled (last (x ∷ xs)) channel
  filled-fill x [] channel = refl
  filled-fill x (y ∷ []) channel = refl
  filled-fill x (y ∷ z ∷ xs) channel =
      sym (filled-fill y (z ∷ xs) (fill p x.0 x.1 channel)) ∙ filled-fill y (z ∷ xs) channel

  after_first :
      (ops : List Operation) (cols : CpuCols F)
      → fill_channels p false ops cols ≡ record cols {
        mem_channel_1 = filled (last (reads ops)) cols.mem_channel_1;
        mem_channel_2 = filled (last (writes ops)) cols.mem_channel_2;
      }
  unfolding fill_channels
  after_first [] cols = refl
  after_first (read addr value ∷ ops) cols =
      after_first ops _
      ∙ ap
          (λ c. record cols {
            mem_channel_1 = c;
            mem_channel_2 = filled (last (writes ops)) cols.mem_channel_2;
          })
          (filled-fill (addr, value) (reads ops) cols.mem_channel_1)
  after_first (write addr value ∷ ops) cols =
      after_first ops _
      ∙ ap
          (λ c. record cols {
            mem_channel_1 = filled (last (reads ops)) cols.mem_channel_1;
            mem_channel_2 = c;
          })
          (filled-fill (addr, value) (writes ops) cols.mem_channel_2)
  after_first (dummy_read addr value ∷ ops) cols = after_first ops cols

  from_first :
      (ops : List Operation) (cols : CpuCols F)
      → fill_channels p true ops cols ≡ record cols {
        mem_channel_0 = filled (first (reads ops)) cols.mem_channel_0;
        mem_channel_1 = filled (last (rest (reads ops))) cols.mem_channel_1;
        mem_channel_2 = filled (last (writes ops)) cols.mem_channel_2;
      }
  unfolding fill_channels
  from_first [] cols = refl
  from_first (read addr value ∷ ops) cols = after_first ops _
  from_first (write addr value ∷ ops) cols =
      from_first ops _
      ∙ ap
          (λ c. record cols {
            mem_channel_0 = filled (first (reads ops)) cols.mem_channel_0;
            mem_channel_1 = filled (last (rest (reads ops))) cols.mem_channel_1;
            mem_channel_2 = c;
          })
          (filled-fill (addr, value) (writes ops) cols.mem_channel_2)
  from_first (dummy_read addr value ∷ ops) cols = from_first ops cols

  -- The row's first memory channel holds the first read that the memory chip logged in the cycle,
  -- the second the last of the reads after it, and the third the last write; a channel without
  -- one has the columns that the row had, but for the flag of a read, which each channel gets.
  -- The rest of the row is kept.
  pub set_memory_channel_values_lem :
      (clk : ℕ) (mem : MemoryChip) (cols : CpuCols F)
      → let ops = get_or (get (clk % 2 ^ 32) mem.operations) [] in
        set_memory_channel_values p clk mem cols ≡ record cols {
          mem_channel_0 =
              filled (first (reads ops)) (record cols.mem_channel_0 { is_read = p.field_one });
          mem_channel_1 =
              filled
                (last (rest (reads ops)))
                (record cols.mem_channel_1 { is_read = p.field_one });
          mem_channel_2 =
              filled (last (writes ops)) (record cols.mem_channel_2 { is_read = p.field_zero });
        }
  unfolding set_memory_channel_values
  set_memory_channel_values_lem clk mem cols =
      from_first (get_or (get (clk % 2 ^ 32) mem.operations) []) _
