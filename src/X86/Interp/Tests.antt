-- ===== src/X86/Interp/Tests.antt =====
-- The interpreter on a small machine: one page at address 0, the stack pointer at 16.
use wine_glass.Base.{
  ℕ, ◌+◌, ◌%◌, ◌^◌, ◌≢◌, ◌≡◌, refl, ◌∙◌, some, arith, [], ◌∷◌, ◌++◌, get_elem?, set, replicate,
  length-set, length-replicate, All-set, All-replicate, if◌then◌else◌,
}
use wine_glass.Base.Words.{sub64}
use wine_glass.Memory.{Region, find_region, contains, read_word, resolve, load}
use wine_glass.Memory.Valid.{IsByte}
use wine_glass.X86.State.{IsU64, state_reset, update_flags_sub, reg_rsp}
use wine_glass.X86.State.Flags.{state_reset-IsCpu}
use wine_glass.X86.State.Compare.{w16, w32, bits}
use wine_glass.X86.Decode.Types.{Instruction, blank, reg_operand, imm_operand, rel_operand}
use wine_glass.X86.Interp.Operands.{
  Machine, read_mem, done, ◌>>=◌, get_gpr, mask_for, read_operand, write_operand, push64, pop64,
}
use wine_glass.X86.Interp.Arith.{second_operand, exec_cmp}
use wine_glass.X86.Interp.Flow.{InterpResult, return_at, go_on, exec_call, exec_ret, exec_jcc}
use wine_glass.X86.Interp.{exec_block, fetch_code, exec_one}
use wine_glass.X86.Interp.Safe.{IsMachine, Outcome, Any}
use wine_glass.X86.Interp.Safe.Whole.{exec_block-IsMachine}
use wine_glass.X86.Interp.Registers.{kept_bits, write_operand-register}
use wine_glass.X86.Decode.Moves.{mov_bytes}
use wine_glass.X86.Interp.Moves.{moved, exec_one-mov}
use wine_glass.X86.Interp.Stack.{push64-pop64, exec_call-thunk, exec_call-exec_ret}
use wine_glass.X86.Interp.Blocks.{OkSteps, EndsAt, exec_block_stops}
use wine_glass.X86.Interp.Jumps.{less, holds, exec_cmp-exec_jcc}

abbrev page : Region
page = record { base = 0; size = 4096; prot = 7; bytes = replicate 4096 0 }

-- The page holds zeros: `add [rax], al` over and over.
abbrev zeros : Machine
zeros = record {
  cpu = record state_reset { gpr = set state_reset.gpr 4 16 };
  mem = record { regions = page ∷ []; total_size = 0 };
}

zeros-IsMachine : IsMachine zeros
zeros-IsMachine = record {
  cpu_valid = record {
    gprs = length-set state_reset.gpr 4 16 ∙ state_reset-IsCpu.gprs;
    gpr_fits = All-set IsU64 state_reset.gpr 4 16 state_reset-IsCpu.gpr_fits (omega arith);
    rip_fits = state_reset-IsCpu.rip_fits;
    rflags_fits = state_reset-IsCpu.rflags_fits;
    xmms = state_reset-IsCpu.xmms;
    xmm_fits = state_reset-IsCpu.xmm_fits;
  };
  mem_valid = record {
    few = omega arith;
    all_valid = (
      record {
        base_fits = omega arith;
        nonempty = omega arith;
        size_fits = omega arith;
        whole_pages = omega arith;
        buffer = length-replicate {A = ℕ} 4096 0;
        bytes_fit = All-replicate IsByte 4096 0 (omega arith);
      },
      tt,
    );
  };
}

exec_block-IsMachine_example : Outcome Any (exec_block 3 zeros)
exec_block-IsMachine_example = exec_block-IsMachine 3 zeros zeros-IsMachine

stack_pointer : get_elem? zeros.cpu.gpr reg_rsp ≡ some 16
unfolding state_reset
stack_pointer = refl

stack_found : find_region zeros.mem.regions (sub64 16 8) ≡ some (0, page)
unfolding find_region contains
stack_found = refl

push64-pop64_example :
    (t : Machine) × (push64 0xABCD zeros ≡ done tt t)
    × (pop64 t ≡ done 0xABCD (record t { cpu = zeros.cpu }))
push64-pop64_example =
    push64-pop64 zeros zeros-IsMachine 16 0 page stack_pointer stack_found (omega arith) 0xABCD
      (omega arith)

abbrev call_thunk : Instruction
call_thunk = record blank { op0 = rel_operand 0xDEAD0010; num_operands = 1; op_size = 4 }

exec_call-thunk_example :
    (t : Machine) × (exec_call call_thunk 0x105 zeros
      ≡ done (return_at 0x105 InterpResult.syscall) t)
    × (t.cpu ≡ zeros.cpu)
exec_call-thunk_example =
    exec_call-thunk zeros zeros-IsMachine 16 0 page stack_pointer stack_found (omega arith)
      call_thunk 0x105 (omega arith) refl refl

-- cmp esp, 17 and jl
abbrev cmp_esp : Instruction
cmp_esp = record blank {
  op0 = reg_operand 4 4;
  op1 = imm_operand 17 4;
  num_operands = 2;
  op_size = 4;
}

abbrev jl_back : Instruction
jl_back = record blank { op0 = rel_operand 0x80; num_operands = 1; op_size = 4; condition = 0xC }

first_value : read_operand cmp_esp.op0 zeros ≡ done 16 zeros
unfolding read_operand ◌>>=◌ get_gpr mask_for state_reset
first_value = refl

second_value : second_operand cmp_esp zeros ≡ done 17 zeros
unfolding second_operand read_operand ◌>>=◌ mask_for
second_value = refl

abbrev compared : Machine
compared = record zeros { cpu = update_flags_sub zeros.cpu 16 17 (sub64 16 17) (bits w32) }

exec_cmp-exec_jcc_example :
    (exec_cmp cmp_esp zeros ≡ done tt compared)
    × (exec_jcc jl_back 0x103 compared
        ≡ done (if holds less w32 16 17 then 0x80 else 0x103) compared)
exec_cmp-exec_jcc_example =
    exec_cmp-exec_jcc w32 zeros 16 17 (omega arith) (omega arith) cmp_esp jl_back less 0x103
      first_value second_value refl refl

-- mov sp, 0x12345: the upper 48 bits stay.
write_operand-register_example :
    (t : Machine) × (write_operand (reg_operand 4 2) 0x12345 zeros ≡ done tt t)
    × (read_operand (reg_operand 4 2) t ≡ done (0x12345 % 2 ^ bits w16) t)
    × (get_elem? t.cpu.gpr 4 ≡ some (kept_bits w16 16 + 0x12345 % 2 ^ bits w16))
    × ((r : ℕ) → 4 ≢ r → get_elem? t.cpu.gpr r ≡ get_elem? zeros.cpu.gpr r)
    × (t.mem ≡ zeros.mem)
write_operand-register_example =
    write_operand-register w16 (reg_operand 4 2) zeros 16 0x12345 zeros-IsMachine refl refl
      stack_pointer (omega arith)

abbrev call_near : Instruction
call_near = record blank { op0 = rel_operand 0x800; num_operands = 1; op_size = 4 }

abbrev ret_near : Instruction
ret_near = record blank { op_size = 4 }

exec_call-exec_ret_example :
    (t : Machine) × (exec_call call_near 0x105 zeros ≡ done (go_on 0x800) t)
    × (exec_ret ret_near t ≡ done (go_on 0x105) (record t { cpu = zeros.cpu }))
exec_call-exec_ret_example =
    exec_call-exec_ret zeros zeros-IsMachine 16 0 page stack_pointer stack_found (omega arith)
      call_near ret_near 0x105 (omega arith) (omega arith) refl refl refl

exec_block_stops_example : (k : ℕ) × (u : Machine) × OkSteps k zeros u × EndsAt 3 zeros k u
exec_block_stops_example = exec_block_stops 3 zeros

-- mov rax, rsp at address 0, and zeros behind it.
abbrev code_page : Region
code_page = record page { bytes = 0x48 ∷ 0x89 ∷ 0xE0 ∷ replicate 4093 0 }

abbrev mover : Machine
mover = record zeros { mem = record { regions = code_page ∷ []; total_size = 0 } }

mover-IsMachine : IsMachine mover
mover-IsMachine = record {
  cpu_valid = zeros-IsMachine.cpu_valid;
  mem_valid = record {
    few = omega arith;
    all_valid = (
      record {
        base_fits = omega arith;
        nonempty = omega arith;
        size_fits = omega arith;
        whole_pages = omega arith;
        buffer = omega (arith, length-replicate {A = ℕ} 4093 0);
        bytes_fit =
            (omega arith, (omega arith, (omega arith, All-replicate IsByte 4093 0 (omega arith))));
      },
      tt,
    );
  };
}

mover_rax : get_elem? mover.cpu.gpr 0 ≡ some 0
unfolding state_reset
mover_rax = refl

mover_code : fetch_code 16 mover.cpu.rip mover ≡ done (mov_bytes 0 4 ++ replicate 13 0) mover
unfolding ◌>>=◌ read_mem read_word resolve find_region contains load state_reset
mover_code = refl

exec_one-mov_example : exec_one mover ≡ done InterpResult.ok (moved mover 0 16)
exec_one-mov_example =
    exec_one-mov mover mover-IsMachine 0 4 0 16 mover_rax stack_pointer (replicate 13 0)
      (omega arith) (omega arith) mover_code
