-- ===== src/Machine/Exec/Write.antt =====
-- output/src/lib.rs: the instruction that writes a byte to the output.
use valida.Prelude.{ℕ, none, [], ◌∷◌, ◌++◌, Bool, ok, panic, assertion_failed, ◌==◌, if◌then◌else◌}
use valida.Opcode.{Opcode, code}
use valida.Program.{Operands, is_imm}
use valida.Chips.Cpu.{push_bus_op}
use valida.Machine.{BasicMachine, M, ◌>>=◌, ◌>>◌, lift, modify, get_cpu, offset, read, update_cpu}

-- `self.values.push((clk, byte))`
unfoldable pub push_output : ℕ → ℕ → BasicMachine → BasicMachine
push_output clk byte s = record s { output = s.output ++ (clk, byte) ∷ [] }

unfoldable pub assert : Bool → M (Unit {0})
assert test = lift (if test then ok tt else panic assertion_failed)

-- The last byte of the word at `fp + b`; the operands are checked at the end.
unfoldable pub write_output : Operands → M (Unit {0})
write_output ops = do
  cpu ← get_cpu
  b ← read cpu.clock (offset cpu.fp ops.b)
  modify (push_output cpu.clock b.byte_3)
  update_cpu (push_bus_op none (code Opcode.write) ops)
  assert (is_imm ops == 1)
  assert (ops.c == 0)
