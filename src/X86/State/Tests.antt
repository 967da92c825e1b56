-- ===== src/X86/State/Tests.antt =====
-- The flags on small operands.
use wine_glass.Base.{
  ◌+◌, ◌-◌, ◌^◌, ◌≡◌, refl, true, false, not, ◌==◌, ltb, leb, if◌then◌else◌, arith,
}
use wine_glass.Base.Words.{u64, sub64}
use wine_glass.X86.State.{
  Cpu, flag_cf, flag_of, state_reset, set_flag, get_flag, update_flags_add, update_flags_sub,
}
use wine_glass.X86.State.Flags.{get_flag-set_flag}
use wine_glass.X86.State.Compare.{
  w8, w64, bits, signed_ltb, eval_condition, eval_condition-compared,
}
use wine_glass.X86.State.Carry.{signed_add_overflows, is_w64, get_flag-added}

-- The bytes 0x80 and 0x7F: as signed numbers -128 and 127.
abbrev after_cmp : Cpu
after_cmp = update_flags_sub state_reset 0x80 0x7F (sub64 0x80 0x7F) (bits w8)

eval_condition-compared_example :
    (eval_condition after_cmp 0x2 ≡ ltb 0x80 0x7F)
    × (eval_condition after_cmp 0x3 ≡ not (ltb 0x80 0x7F))
    × (eval_condition after_cmp 0x4 ≡ (0x80 == 0x7F))
    × (eval_condition after_cmp 0x5 ≡ not (0x80 == 0x7F))
    × (eval_condition after_cmp 0x6 ≡ leb 0x80 0x7F)
    × (eval_condition after_cmp 0x7 ≡ ltb 0x7F 0x80)
    × (eval_condition after_cmp 0xC ≡ signed_ltb w8 0x80 0x7F)
    × (eval_condition after_cmp 0xD ≡ not (signed_ltb w8 0x80 0x7F))
    × (eval_condition after_cmp 0xE ≡ not (signed_ltb w8 0x7F 0x80))
    × (eval_condition after_cmp 0xF ≡ signed_ltb w8 0x7F 0x80)
eval_condition-compared_example =
    eval_condition-compared w8 state_reset 0x80 0x7F (omega arith) (omega arith)

signed_order_of_bytes : signed_ltb w8 0x80 0x7F ≡ true
signed_order_of_bytes = refl

-- The largest 64-bit number and 1: the sum wraps, and CF stays clear.
abbrev after_add : Cpu
after_add = update_flags_add state_reset (2 ^ 64 - 1) 1 (u64 (2 ^ 64 - 1 + 1)) (bits w64)

get_flag-added_example :
    (get_flag after_add flag_of ≡ signed_add_overflows w64 (2 ^ 64 - 1) 1)
    × (get_flag after_add flag_cf
        ≡ (if is_w64 w64 then false else leb (2 ^ bits w64) (2 ^ 64 - 1 + 1)))
get_flag-added_example = get_flag-added w64 state_reset (2 ^ 64 - 1) 1 (omega arith) (omega arith)

get_flag-set_flag_example :
    get_flag (set_flag state_reset (2 ^ 0) true) (2 ^ 9)
    ≡ (if 0 == 9 then true else get_flag state_reset (2 ^ 9))
get_flag-set_flag_example = get_flag-set_flag 0 9 state_reset true (omega arith) (omega arith)
