-- ===== src/DllMapper/Defaults/Kernel.antt =====
-- `wg_dll_mapper_register_defaults` of Sources/Win32/wg_dll_mapper.c: files, processes and memory of KERNEL32.
use wine_glass.Base.{List, [], ◌∷◌}
use wine_glass.DllMapper.Types.{StubFunc}
use wine_glass.DllMapper.Macros.{Registration, r, r1s, rs}

abbrev pub kernel_functions : List Registration
kernel_functions =
    r1s "KERNEL32.dll" "SetCurrentDirectoryW" 1
    ∷ r1s "KERNEL32.dll" "SetCurrentDirectoryA" 1
    ∷ r "KERNEL32.dll" "GetFileAttributesW" StubFunc.stub_get_file_attributes_w 1
    ∷ rs "KERNEL32.dll" "GetFullPathNameW" 4
    ∷ rs "KERNEL32.dll" "GetFullPathNameA" 4
    ∷ rs "KERNEL32.dll" "Sleep" 1
    ∷ r "KERNEL32.dll" "GetTickCount" StubFunc.stub_get_tick_count 0
    ∷ r "KERNEL32.dll" "CreateFileW" StubFunc.stub_create_file_w 7
    ∷ rs "KERNEL32.dll" "GetFileSize" 2
    ∷ r1s "KERNEL32.dll" "MoveFileW" 2
    ∷ r1s "KERNEL32.dll" "SetFileAttributesW" 2
    ∷ rs "KERNEL32.dll" "GetModuleFileNameW" 3
    ∷ r1s "KERNEL32.dll" "CopyFileW" 3
    ∷ r "KERNEL32.dll" "ExitProcess" StubFunc.stub_exit_process 1
    ∷ r1s "KERNEL32.dll" "SetEnvironmentVariableW" 2
    ∷ rs "KERNEL32.dll" "GetWindowsDirectoryW" 2
    ∷ rs "KERNEL32.dll" "GetTempPathW" 2
    ∷ r "KERNEL32.dll" "GetCommandLineW" StubFunc.stub_get_command_line_w 0
    ∷ r "KERNEL32.dll" "GetVersion" StubFunc.stub_get_version 0
    ∷ rs "KERNEL32.dll" "SetErrorMode" 1
    ∷ rs "KERNEL32.dll" "WaitForSingleObject" 2
    ∷ r "KERNEL32.dll" "GetCurrentProcess" StubFunc.stub_get_current_process 0
    ∷ rs "KERNEL32.dll" "CompareFileTime" 2
    ∷ r1s "KERNEL32.dll" "GlobalUnlock" 1
    ∷ r "KERNEL32.dll" "GlobalLock" StubFunc.stub_global_lock 1
    ∷ r1s "KERNEL32.dll" "CreateThread" 6
    ∷ rs "KERNEL32.dll" "GetExitCodeThread" 2
    ∷ r1s "KERNEL32.dll" "ResumeThread" 1
    ∷ rs "KERNEL32.dll" "GetLastError" 0
    ∷ r1s "KERNEL32.dll" "CreateDirectoryW" 2
    ∷ rs "KERNEL32.dll" "CreateProcessW" 10
    ∷ rs "KERNEL32.dll" "CreateProcessA" 10
    ∷ rs "KERNEL32.dll" "GlobalReAlloc" 3
    ∷ rs "KERNEL32.dll" "PeekNamedPipe" 6
    ∷ rs "KERNEL32.dll" "GetStartupInfoW" 1
    ∷ rs "KERNEL32.dll" "CreatePipe" 4
    ∷ rs "KERNEL32.dll" "UnmapViewOfFile" 1
    ∷ rs "KERNEL32.dll" "MapViewOfFile" 5
    ∷ rs "KERNEL32.dll" "CreateFileMappingW" 6
    ∷ rs "KERNEL32.dll" "IsWow64Process" 2
    ∷ rs "ADVAPI32.dll" "InitializeSecurityDescriptor" 2
    ∷ rs "ADVAPI32.dll" "SetSecurityDescriptorDacl" 4
    ∷ r1s "KERNEL32.dll" "RemoveDirectoryW" 1
    ∷ rs "KERNEL32.dll" "lstrcmpiA" 2
    ∷ rs "KERNEL32.dll" "GetTempFileNameW" 4
    ∷ r1s "KERNEL32.dll" "WriteFile" 5
    ∷ rs "KERNEL32.dll" "lstrcpyA" 2
    ∷ rs "KERNEL32.dll" "lstrcpyW" 2
    ∷ r1s "KERNEL32.dll" "MoveFileExW" 3
    ∷ rs "KERNEL32.dll" "lstrcatW" 2
    ∷ rs "KERNEL32.dll" "GetSystemDirectoryW" 2
    ∷ rs "KERNEL32.dll" "GetProcAddress" 2
    ∷ r "KERNEL32.dll" "GetModuleHandleA" StubFunc.stub_get_module_handle_a 1
    ∷ r "KERNEL32.dll" "GlobalFree" StubFunc.stub_global_free 1
    ∷ r "KERNEL32.dll" "GlobalAlloc" StubFunc.stub_global_alloc 2
    ∷ rs "KERNEL32.dll" "GetShortPathNameW" 3
    ∷ rs "KERNEL32.dll" "SearchPathW" 6
    ∷ rs "KERNEL32.dll" "lstrcmpiW" 2
    ∷ r1s "KERNEL32.dll" "SetFileTime" 4
    ∷ r1s "KERNEL32.dll" "CloseHandle" 1
    ∷ rs "KERNEL32.dll" "GetOverlappedResult" 4
    ∷ rs "KERNEL32.dll" "CreateToolhelp32Snapshot" 2
    ∷ rs "KERNEL32.dll" "Process32First" 2
    ∷ rs "KERNEL32.dll" "Process32Next" 2
    ∷ rs "KERNEL32.dll" "Process32FirstW" 2
    ∷ rs "KERNEL32.dll" "Process32NextW" 2
    ∷ rs "KERNEL32.dll" "OpenProcess" 3
    ∷ r1s "KERNEL32.dll" "TerminateProcess" 2
    ∷ rs "KERNEL32.dll" "ExpandEnvironmentStringsW" 3
    ∷ rs "KERNEL32.dll" "lstrcmpW" 2
    ∷ r "KERNEL32.dll" "GetDiskFreeSpaceW" StubFunc.stub_get_disk_free_space_w 5
    ∷ rs "KERNEL32.dll" "GetDiskFreeSpaceExW" 4
    ∷ rs "KERNEL32.dll" "GetDiskFreeSpaceExA" 4
    ∷ rs "KERNEL32.dll" "lstrlenW" 1
    ∷ rs "KERNEL32.dll" "lstrcpynW" 3
    ∷ r1s "KERNEL32.dll" "GetExitCodeProcess" 2
    ∷ r "KERNEL32.dll" "FindFirstFileW" StubFunc.stub_find_first_file_w 2
    ∷ rs "KERNEL32.dll" "FindNextFileW" 2
    ∷ r1s "KERNEL32.dll" "DeleteFileW" 1
    ∷ rs "KERNEL32.dll" "SetFilePointer" 4
    ∷ r1s "KERNEL32.dll" "ReadFile" 5
    ∷ r1s "KERNEL32.dll" "FindClose" 1
    ∷ r "KERNEL32.dll" "MulDiv" StubFunc.stub_mul_div 3
    ∷ rs "KERNEL32.dll" "MultiByteToWideChar" 6
    ∷ rs "KERNEL32.dll" "lstrlenA" 1
    ∷ rs "KERNEL32.dll" "WideCharToMultiByte" 8
    ∷ rs "KERNEL32.dll" "GetPrivateProfileStringW" 6
    ∷ r1s "KERNEL32.dll" "WritePrivateProfileStringW" 4
    ∷ r1s "KERNEL32.dll" "FreeLibrary" 1
    ∷ rs "KERNEL32.dll" "LoadLibraryExW" 3
    ∷ r "KERNEL32.dll" "GetModuleHandleW" StubFunc.stub_get_module_handle_w 1
    ∷ rs "KERNEL32.dll" "GetCurrentProcessId" 0
    ∷ rs "KERNEL32.dll" "GetCurrentThreadId" 0
    ∷ rs "KERNEL32.dll" "SetLastError" 1
    ∷ rs "KERNEL32.dll" "IsDebuggerPresent" 0
    ∷ rs "KERNEL32.dll" "OutputDebugStringA" 1
    ∷ rs "KERNEL32.dll" "VirtualAlloc" 4
    ∷ r1s "KERNEL32.dll" "VirtualFree" 3
    ∷ rs "KERNEL32.dll" "HeapCreate" 3
    ∷ rs "KERNEL32.dll" "HeapAlloc" 3
    ∷ r1s "KERNEL32.dll" "HeapFree" 3
    ∷ rs "KERNEL32.dll" "GetProcessHeap" 0
    ∷ r1s "KERNEL32.dll" "QueryPerformanceCounter" 1
    ∷ r1s "KERNEL32.dll" "QueryPerformanceFrequency" 1
    ∷ rs "KERNEL32.dll" "GetSystemInfo" 1
    ∷ rs "KERNEL32.dll" "GetNativeSystemInfo" 1
    ∷ r1s "KERNEL32.dll" "GetVersionExA" 1
    ∷ r1s "KERNEL32.dll" "GetVersionExW" 1
    ∷ []
