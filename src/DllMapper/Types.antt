-- ===== src/DllMapper/Types.antt =====
-- The data of Sources/Win32/wg_dll_mapper.h and wg_dll_mapper.c: the table of thunks.
use wine_glass.Base.{ℕ, List, []}

-- The stubs of wg_dll_mapper.c, in their order there.
pub data StubFunc : Type 0 where
  stub_default : StubFunc
  stub_return_1 : StubFunc
  stub_return_neg1 : StubFunc
  stub_exit_process : StubFunc
  stub_get_module_handle_a : StubFunc
  stub_get_module_handle_w : StubFunc
  stub_get_current_process : StubFunc
  stub_get_version : StubFunc
  stub_get_tick_count : StubFunc
  stub_get_device_caps : StubFunc
  stub_get_sys_color : StubFunc
  stub_register_class_w : StubFunc
  stub_create_window_ex_w : StubFunc
  stub_message_box_indirect_w : StubFunc
  stub_shell_execute_w : StubFunc
  stub_reg_open_key_ex_w : StubFunc
  stub_reg_query_value_ex_w : StubFunc
  stub_reg_enum_value_w : StubFunc
  stub_reg_enum_key_w : StubFunc
  stub_co_create_instance : StubFunc
  stub_sh_get_special_folder_location : StubFunc
  stub_create_file_w : StubFunc
  stub_find_first_file_w : StubFunc
  stub_get_file_attributes_w : StubFunc
  stub_global_alloc : StubFunc
  stub_global_lock : StubFunc
  stub_global_free : StubFunc
  stub_mul_div : StubFunc
  stub_get_disk_free_space_w : StubFunc
  stub_peek_message_w : StubFunc
  stub_get_command_line_w : StubFunc

-- Names are their bytes before the terminator; `default_ret` is a pattern of 32 bits.
pub record Entry : Type 0 where
  pub dll_name : List ℕ
  pub func_name : List ℕ
  pub thunk_addr : ℕ
  pub handler : StubFunc
  pub num_args : ℕ
  pub default_ret : ℕ

-- The first `count` entries, which are all that is ever read.
pub record Mapper : Type 0 where
  pub entries : List Entry
  pub next_thunk : ℕ

abbrev pub thunk_base : ℕ
thunk_base = 0xDEAD0000

abbrev pub capacity : ℕ
capacity = 4096

-- `wg_dll_mapper_create`, where there is memory.
abbrev pub mapper_create : Mapper
mapper_create = record { entries = []; next_thunk = thunk_base }
