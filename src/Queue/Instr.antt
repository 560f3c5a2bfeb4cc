-- ===== src/Queue/Instr.antt =====
-- crates/core/src/lib.rs: `CountingInstr`. The counters are u64 and wrap.
use mantis.Prelude.{ℕ, ◌+◌, ◌^◌, ◌%◌}

pub record CountingInstr : Type 0 where
  pub pushes : ℕ
  pub pops : ℕ
  pub push_full : ℕ
  pub pop_empty : ℕ

pub new_instr : CountingInstr
new_instr = record { pushes = 0; pops = 0; push_full = 0; pop_empty = 0 }

pub on_push : CountingInstr → CountingInstr
on_push c = record c { pushes = (c.pushes + 1) % 2 ^ 64 }

pub on_pop : CountingInstr → CountingInstr
on_pop c = record c { pops = (c.pops + 1) % 2 ^ 64 }

pub on_push_full : CountingInstr → CountingInstr
on_push_full c = record c { push_full = (c.push_full + 1) % 2 ^ 64 }

pub on_pop_empty : CountingInstr → CountingInstr
on_pop_empty c = record c { pop_empty = (c.pop_empty + 1) % 2 ^ 64 }
