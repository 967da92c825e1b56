-- ===== src/DllMapper/Defaults/Shell.antt =====
-- `wg_dll_mapper_register_defaults` of Sources/Win32/wg_dll_mapper.c: the shell, the registry and COM.
use wine_glass.Base.{List, [], ◌∷◌}
use wine_glass.DllMapper.Types.{StubFunc}
use wine_glass.DllMapper.Macros.{Registration, r, r1s, rs}

abbrev pub shell_functions : List Registration
shell_functions =
    rs "SHELL32.dll" "CommandLineToArgvW" 2
    ∷ r1s "SHELL32.dll" "IsUserAnAdmin" 0
    ∷ rs "SHELL32.dll" "SHGetFolderPathW" 5
    ∷ rs "KERNEL32.dll" "SHGetFolderPathW" 5
    ∷ r "SHELL32.dll" "SHGetSpecialFolderLocation" StubFunc.stub_sh_get_special_folder_location 3
    ∷ rs "SHELL32.dll" "SHGetPathFromIDListW" 2
    ∷ rs "SHELL32.dll" "SHBrowseForFolderW" 1
    ∷ rs "SHELL32.dll" "SHGetFileInfoW" 5
    ∷ r "SHELL32.dll" "ShellExecuteW" StubFunc.stub_shell_execute_w 6
    ∷ rs "SHELL32.dll" "SHFileOperationW" 1
    ∷ rs "ADVAPI32.dll" "RegDeleteKeyW" 2
    ∷ r1s "ADVAPI32.dll" "SetFileSecurityW" 3
    ∷ r1s "ADVAPI32.dll" "OpenProcessToken" 3
    ∷ r1s "ADVAPI32.dll" "LookupPrivilegeValueW" 3
    ∷ r1s "ADVAPI32.dll" "AdjustTokenPrivileges" 6
    ∷ r "ADVAPI32.dll" "RegOpenKeyExW" StubFunc.stub_reg_open_key_ex_w 5
    ∷ r "ADVAPI32.dll" "RegEnumValueW" StubFunc.stub_reg_enum_value_w 8
    ∷ rs "ADVAPI32.dll" "RegDeleteValueW" 2
    ∷ rs "ADVAPI32.dll" "RegCloseKey" 1
    ∷ rs "ADVAPI32.dll" "RegCreateKeyExW" 9
    ∷ rs "ADVAPI32.dll" "RegSetValueExW" 6
    ∷ r "ADVAPI32.dll" "RegQueryValueExW" StubFunc.stub_reg_query_value_ex_w 6
    ∷ r "ADVAPI32.dll" "RegEnumKeyW" StubFunc.stub_reg_enum_key_w 4
    ∷ rs "COMCTL32.dll" "ImageList_AddMasked" 3
    ∷ rs "COMCTL32.dll" "Ordinal_17" 1
    ∷ r1s "COMCTL32.dll" "ImageList_Destroy" 1
    ∷ r1s "COMCTL32.dll" "ImageList_Create" 5
    ∷ rs "OLEAUT32.dll" "Ordinal_9" 1
    ∷ rs "ole32.dll" "OleUninitialize" 0
    ∷ rs "ole32.dll" "OleInitialize" 1
    ∷ rs "ole32.dll" "CoTaskMemFree" 1
    ∷ r "ole32.dll" "CoCreateInstance" StubFunc.stub_co_create_instance 5
    ∷ rs "ntdll.dll" "RtlInitializeCriticalSection" 1
    ∷ []
