-- ===== src/DllMapper/Stubs.antt =====
-- The stubs of Sources/Win32/wg_dll_mapper.c, for the guest that the interpreter of X86 runs.
use wine_glass.Base.{ℕ, ◌-◌, ◌*◌, ◌/◌, ◌^◌, Bool, true, false, not, leb, ◌==◌, if◌then◌else◌}
use wine_glass.Base.Words.{u32, u64}
use wine_glass.X86.State.{Cpu, get_reg, set_reg, reg_rax, reg_rcx, reg_rdx}
use wine_glass.DllMapper.Types.{StubFunc}

-- The sign and the magnitude of an `int32_t`, and the `uint64_t` of a signed number.
abbrev pub negative : ℕ → Bool
negative v = leb (2 ^ 31) v

abbrev pub magnitude : ℕ → ℕ
magnitude v = if negative v then 2 ^ 32 - v else v

abbrev pub signed64 : Bool → ℕ → ℕ
signed64 neg n = if neg then u64 (2 ^ 64 - n) else n

abbrev pub differ : Bool → Bool → Bool
differ true b = not b
differ false b = b

-- `a * b / d`, cut towards zero.
unfoldable pub mul_div : ℕ → ℕ → ℕ → ℕ
mul_div a b d =
    if d == 0
    then 2 ^ 64 - 1
    else signed64 (differ (differ (negative a) (negative b)) (negative d))
        (magnitude a * magnitude b / magnitude d)

-- What a stub leaves in RAX. `block` is what `calloc` returned, `line` the address of `empty_cmdline`.
unfoldable pub stub_rax : ℕ → ℕ → StubFunc → Cpu → ℕ
stub_rax block line StubFunc.stub_default c = 0
stub_rax block line StubFunc.stub_return_1 c = 1
stub_rax block line StubFunc.stub_return_neg1 c = 2 ^ 64 - 1
stub_rax block line StubFunc.stub_exit_process c = get_reg c reg_rax
stub_rax block line StubFunc.stub_get_module_handle_a c = 0x00400000
stub_rax block line StubFunc.stub_get_module_handle_w c = 0x00400000
stub_rax block line StubFunc.stub_get_current_process c = 2 ^ 64 - 1
stub_rax block line StubFunc.stub_get_version c = 0x00000A00
stub_rax block line StubFunc.stub_get_tick_count c = 10000
stub_rax block line StubFunc.stub_get_device_caps c = 96
stub_rax block line StubFunc.stub_get_sys_color c = 0x00FFFFFF
stub_rax block line StubFunc.stub_register_class_w c = 0xC001
stub_rax block line StubFunc.stub_create_window_ex_w c = 0x00010001
stub_rax block line StubFunc.stub_message_box_indirect_w c = 1
stub_rax block line StubFunc.stub_shell_execute_w c = 33
stub_rax block line StubFunc.stub_reg_open_key_ex_w c = 2
stub_rax block line StubFunc.stub_reg_query_value_ex_w c = 2
stub_rax block line StubFunc.stub_reg_enum_value_w c = 259
stub_rax block line StubFunc.stub_reg_enum_key_w c = 259
stub_rax block line StubFunc.stub_co_create_instance c = 0x80004002
stub_rax block line StubFunc.stub_sh_get_special_folder_location c = 0x80004005
stub_rax block line StubFunc.stub_create_file_w c = 2 ^ 64 - 1
stub_rax block line StubFunc.stub_find_first_file_w c = 2 ^ 64 - 1
stub_rax block line StubFunc.stub_get_file_attributes_w c = 0xFFFFFFFF
stub_rax block line StubFunc.stub_global_alloc c = block
stub_rax block line StubFunc.stub_global_lock c = get_reg c reg_rcx
stub_rax block line StubFunc.stub_global_free c = 0
stub_rax block line StubFunc.stub_mul_div c =
    mul_div (u32 (get_reg c reg_rcx)) (u32 (get_reg c reg_rdx)) (u32 (get_reg c 8))
stub_rax block line StubFunc.stub_get_disk_free_space_w c = 1
stub_rax block line StubFunc.stub_peek_message_w c = 0
stub_rax block line StubFunc.stub_get_command_line_w c = line

unfoldable pub call_stub : ℕ → ℕ → StubFunc → Cpu → Cpu
call_stub block line StubFunc.stub_exit_process c = record c { halted = true }
call_stub block line f c = set_reg c reg_rax (stub_rax block line f c)
