-- ===== src/DllMapper/Defaults/System.antt =====
-- `wg_dll_mapper_register_defaults` of Sources/Win32/wg_dll_mapper.c: threads, the registry and the cryptography of the system.
use wine_glass.Base.{List, [], ◌∷◌}
use wine_glass.DllMapper.Macros.{Registration, r1s, rs}

abbrev pub system_functions : List Registration
system_functions =
    rs "KERNEL32.dll" "SleepEx" 2
    ∷ rs "KERNEL32.dll" "Sleep" 1
    ∷ rs "KERNEL32.dll" "ExitThread" 1
    ∷ rs "KERNEL32.dll" "CreateIoCompletionPort" 4
    ∷ rs "KERNEL32.dll" "GetQueuedCompletionStatus" 5
    ∷ rs "KERNEL32.dll" "GetQueuedCompletionStatusEx" 6
    ∷ rs "KERNEL32.dll" "PostQueuedCompletionStatus" 4
    ∷ rs "KERNEL32.dll" "QueueUserWorkItem" 3
    ∷ rs "KERNEL32.dll" "CreateThreadpoolWork" 3
    ∷ rs "KERNEL32.dll" "SubmitThreadpoolWork" 1
    ∷ rs "KERNEL32.dll" "CloseThreadpoolWork" 1
    ∷ rs "KERNEL32.dll" "WaitForThreadpoolWorkCallbacks" 2
    ∷ rs "KERNEL32.dll" "CreateThreadpoolTimer" 3
    ∷ rs "KERNEL32.dll" "SetThreadpoolTimer" 4
    ∷ rs "KERNEL32.dll" "CloseThreadpoolTimer" 1
    ∷ rs "KERNEL32.dll" "ConvertThreadToFiber" 1
    ∷ r1s "KERNEL32.dll" "ConvertFiberToThread" 0
    ∷ rs "KERNEL32.dll" "CreateFiber" 3
    ∷ rs "KERNEL32.dll" "DeleteFiber" 1
    ∷ rs "KERNEL32.dll" "SwitchToFiber" 1
    ∷ rs "KERNEL32.dll" "LoadLibraryA" 1
    ∷ rs "KERNEL32.dll" "LoadLibraryExA" 3
    ∷ r1s "KERNEL32.dll" "GetModuleHandleExW" 3
    ∷ r1s "KERNEL32.dll" "GetModuleHandleExA" 3
    ∷ rs "KERNEL32.dll" "GetModuleFileNameA" 3
    ∷ rs "KERNEL32.dll" "FindResourceA" 3
    ∷ rs "KERNEL32.dll" "LoadResource" 2
    ∷ rs "KERNEL32.dll" "LockResource" 1
    ∷ rs "KERNEL32.dll" "SizeofResource" 2
    ∷ rs "KERNEL32.dll" "LocalAlloc" 2
    ∷ rs "KERNEL32.dll" "LocalFree" 1
    ∷ rs "KERNEL32.dll" "GetEnvironmentVariableW" 3
    ∷ rs "KERNEL32.dll" "GetEnvironmentStringsW" 0
    ∷ r1s "KERNEL32.dll" "FreeEnvironmentStringsW" 1
    ∷ rs "KERNEL32.dll" "GetCommandLineA" 0
    ∷ rs "KERNEL32.dll" "SystemTimeToFileTime" 2
    ∷ rs "KERNEL32.dll" "GetSystemTime" 1
    ∷ rs "KERNEL32.dll" "GetLocalTime" 1
    ∷ rs "KERNEL32.dll" "GetSystemTimeAsFileTime" 1
    ∷ rs "KERNEL32.dll" "GetSystemTimePreciseAsFileTime" 1
    ∷ rs "KERNEL32.dll" "FileTimeToSystemTime" 2
    ∷ rs "KERNEL32.dll" "SystemTimeToTzSpecificLocalTime" 3
    ∷ rs "KERNEL32.dll" "GetTimeZoneInformation" 1
    ∷ rs "KERNEL32.dll" "GetFileAttributesA" 1
    ∷ rs "KERNEL32.dll" "GetCurrentDirectoryA" 2
    ∷ rs "KERNEL32.dll" "GetCurrentDirectoryW" 2
    ∷ r1s "KERNEL32.dll" "FlushFileBuffers" 1
    ∷ rs "KERNEL32.dll" "GetDriveTypeW" 1
    ∷ r1s "KERNEL32.dll" "GetFileAttributesExW" 3
    ∷ r1s "KERNEL32.dll" "GetFileInformationByHandle" 2
    ∷ r1s "KERNEL32.dll" "GetFileSizeEx" 2
    ∷ r1s "KERNEL32.dll" "SetEndOfFile" 1
    ∷ r1s "KERNEL32.dll" "SetFilePointerEx" 5
    ∷ rs "KERNEL32.dll" "FindFirstFileExW" 6
    ∷ rs "KERNEL32.dll" "VirtualQuery" 3
    ∷ rs "KERNEL32.dll" "CreateFileA" 7
    ∷ r1s "KERNEL32.dll" "DeviceIoControl" 8
    ∷ rs "KERNEL32.dll" "VerSetConditionMask" 4
    ∷ r1s "KERNEL32.dll" "VerifyVersionInfoW" 3
    ∷ r1s "KERNEL32.dll" "GlobalMemoryStatusEx" 1
    ∷ r1s "KERNEL32.dll" "ProcessIdToSessionId" 2
    ∷ r1s "KERNEL32.dll" "SetHandleInformation" 3
    ∷ rs "KERNEL32.dll" "GetFileTime" 4
    ∷ r1s "KERNEL32.dll" "RemoveDirectoryA" 1
    ∷ rs "KERNEL32.dll" "OutputDebugStringW" 1
    ∷ rs "KERNEL32.dll" "DebugBreak" 0
    ∷ rs "KERNEL32.dll" "IsBadWritePtr" 2
    ∷ rs "KERNEL32.dll" "AppPolicyGetProcessTerminationMethod" 2
    ∷ rs "KERNEL32.dll" "GetCurrentPackageId" 2
    ∷ rs "KERNEL32.dll" "GetTempPath2W" 2
    ∷ rs "KERNEL32.dll" "CorExitProcess" 1
    ∷ rs "KERNEL32.dll" "SetCurrentProcessExplicitAppUserModelID" 1
    ∷ rs "USER32.dll" "RegisterClassExW" 1
    ∷ rs "USER32.dll" "UnregisterClassW" 2
    ∷ r1s "USER32.dll" "GetClassInfoExW" 3
    ∷ rs "USER32.dll" "MessageBoxW" 4
    ∷ rs "USER32.dll" "MessageBoxA" 4
    ∷ rs "USER32.dll" "GetDesktopWindow" 0
    ∷ rs "USER32.dll" "MonitorFromWindow" 2
    ∷ rs "USER32.dll" "MonitorFromPoint" 3
    ∷ r1s "USER32.dll" "GetMonitorInfoW" 2
    ∷ r1s "USER32.dll" "PostThreadMessageW" 4
    ∷ r1s "USER32.dll" "PostThreadMessageA" 4
    ∷ rs "USER32.dll" "GetWindowThreadProcessId" 2
    ∷ r1s "USER32.dll" "EnumWindows" 2
    ∷ r1s "USER32.dll" "EnumChildWindows" 3
    ∷ r1s "USER32.dll" "UpdateWindow" 1
    ∷ r1s "USER32.dll" "MoveWindow" 6
    ∷ r1s "USER32.dll" "RedrawWindow" 4
    ∷ r1s "USER32.dll" "KillTimer" 2
    ∷ rs "USER32.dll" "LoadIconW" 2
    ∷ rs "USER32.dll" "MsgWaitForMultipleObjects" 5
    ∷ rs "USER32.dll" "MsgWaitForMultipleObjectsEx" 6
    ∷ r1s "USER32.dll" "AllowSetForegroundWindow" 1
    ∷ rs "GDI32.dll" "GetStockObject" 1
    ∷ rs "GDI32.dll" "CreateFontW" 14
    ∷ rs "GDI32.dll" "CreateFontA" 14
    ∷ r1s "GDI32.dll" "GetTextExtentPoint32W" 4
    ∷ r1s "GDI32.dll" "GetTextExtentPoint32A" 4
    ∷ rs "GDI32.dll" "CreateDIBSection" 6
    ∷ rs "ADVAPI32.dll" "RegOpenKeyExA" 5
    ∷ rs "ADVAPI32.dll" "RegCreateKeyExA" 9
    ∷ rs "ADVAPI32.dll" "RegQueryValueExA" 6
    ∷ rs "ADVAPI32.dll" "RegSetValueExA" 6
    ∷ rs "ADVAPI32.dll" "RegOpenKeyA" 3
    ∷ rs "bcrypt.dll" "BCryptGenRandom" 4
    ∷ r1s "KERNEL32.dll" "SystemFunction036" 2
    ∷ r1s "ADVAPI32.dll" "SystemFunction036" 2
    ∷ r1s "ADVAPI32.dll" "RtlGenRandom" 2
    ∷ r1s "bcryptprimitives.dll" "ProcessPrng" 2
    ∷ r1s "cryptbase.dll" "ProcessPrng" 2
    ∷ r1s "bcrypt.dll" "ProcessPrng" 2
    ∷ r1s "ADVAPI32.dll" "ProcessPrng" 2
    ∷ r1s "ADVAPI32.dll" "CryptAcquireContextW" 5
    ∷ r1s "ADVAPI32.dll" "CryptAcquireContextA" 5
    ∷ r1s "ADVAPI32.dll" "CryptGenRandom" 3
    ∷ r1s "ADVAPI32.dll" "CryptReleaseContext" 2
    ∷ []
