-- ===== src/DllMapper/Defaults/Startup.antt =====
-- `wg_dll_mapper_register_defaults` of Sources/Win32/wg_dll_mapper.c: what the startup of the C runtime imports.
use wine_glass.Base.{List, [], ◌∷◌}
use wine_glass.DllMapper.Macros.{Registration, r1s, rs}

abbrev pub startup_functions : List Registration
startup_functions =
    rs "KERNEL32.dll" "InitializeCriticalSection" 1
    ∷ r1s "KERNEL32.dll" "InitializeCriticalSectionEx" 3
    ∷ r1s "KERNEL32.dll" "InitializeCriticalSectionAndSpinCount" 2
    ∷ rs "KERNEL32.dll" "EnterCriticalSection" 1
    ∷ rs "KERNEL32.dll" "LeaveCriticalSection" 1
    ∷ rs "KERNEL32.dll" "DeleteCriticalSection" 1
    ∷ r1s "KERNEL32.dll" "TryEnterCriticalSection" 1
    ∷ rs "KERNEL32.dll" "InitializeSRWLock" 1
    ∷ rs "KERNEL32.dll" "AcquireSRWLockExclusive" 1
    ∷ rs "KERNEL32.dll" "ReleaseSRWLockExclusive" 1
    ∷ r1s "KERNEL32.dll" "TryAcquireSRWLockExclusive" 1
    ∷ r1s "KERNEL32.dll" "InitOnceBeginInitialize" 4
    ∷ r1s "KERNEL32.dll" "InitOnceComplete" 3
    ∷ rs "KERNEL32.dll" "InitializeConditionVariable" 1
    ∷ rs "KERNEL32.dll" "WakeConditionVariable" 1
    ∷ rs "KERNEL32.dll" "WakeAllConditionVariable" 1
    ∷ r1s "KERNEL32.dll" "SleepConditionVariableCS" 3
    ∷ r1s "KERNEL32.dll" "SleepConditionVariableSRW" 4
    ∷ rs "KERNEL32.dll" "AcquireSRWLockShared" 1
    ∷ rs "KERNEL32.dll" "ReleaseSRWLockShared" 1
    ∷ r1s "KERNEL32.dll" "TryAcquireSRWLockShared" 1
    ∷ r1s "KERNEL32.dll" "WaitOnAddress" 4
    ∷ rs "KERNEL32.dll" "WakeByAddressSingle" 1
    ∷ rs "KERNEL32.dll" "WakeByAddressAll" 1
    ∷ rs "KERNEL32.dll" "GetTickCount64" 0
    ∷ rs "KERNEL32.dll" "LCMapStringEx" 9
    ∷ rs "KERNEL32.dll" "CompareStringEx" 9
    ∷ rs "KERNEL32.dll" "GetLocaleInfoEx" 4
    ∷ rs "KERNEL32.dll" "GetLocaleInfoW" 4
    ∷ rs "KERNEL32.dll" "GetUserDefaultLocaleName" 2
    ∷ rs "KERNEL32.dll" "GetSystemDefaultLocaleName" 2
    ∷ r1s "KERNEL32.dll" "GetStringTypeExW" 5
    ∷ r1s "KERNEL32.dll" "IsValidLocale" 2
    ∷ rs "KERNEL32.dll" "EnumSystemLocalesW" 2
    ∷ rs "KERNEL32.dll" "EnumSystemLocalesEx" 4
    ∷ rs "KERNEL32.dll" "GetNLSVersionEx" 3
    ∷ rs "KERNEL32.dll" "ResolveLocaleName" 3
    ∷ rs "KERNEL32.dll" "GetUserDefaultLCID" 0
    ∷ rs "KERNEL32.dll" "GetSystemDefaultLCID" 0
    ∷ rs "KERNEL32.dll" "InitializeSListHead" 1
    ∷ rs "KERNEL32.dll" "InterlockedPushEntrySList" 2
    ∷ rs "KERNEL32.dll" "InterlockedPopEntrySList" 1
    ∷ rs "KERNEL32.dll" "InterlockedFlushSList" 1
    ∷ rs "KERNEL32.dll" "TlsAlloc" 0
    ∷ rs "KERNEL32.dll" "TlsGetValue" 1
    ∷ r1s "KERNEL32.dll" "TlsSetValue" 2
    ∷ r1s "KERNEL32.dll" "TlsFree" 1
    ∷ rs "KERNEL32.dll" "FlsAlloc" 1
    ∷ rs "KERNEL32.dll" "FlsGetValue" 1
    ∷ r1s "KERNEL32.dll" "FlsSetValue" 2
    ∷ r1s "KERNEL32.dll" "FlsFree" 1
    ∷ rs "KERNEL32.dll" "HeapReAlloc" 4
    ∷ rs "KERNEL32.dll" "HeapSize" 3
    ∷ r1s "KERNEL32.dll" "HeapValidate" 3
    ∷ r1s "KERNEL32.dll" "HeapSetInformation" 4
    ∷ r1s "KERNEL32.dll" "HeapLock" 1
    ∷ r1s "KERNEL32.dll" "HeapUnlock" 1
    ∷ rs "KERNEL32.dll" "HeapWalk" 2
    ∷ r1s "KERNEL32.dll" "HeapQueryInformation" 5
    ∷ rs "KERNEL32.dll" "GetProcessHeaps" 2
    ∷ rs "KERNEL32.dll" "GetStdHandle" 1
    ∷ r1s "KERNEL32.dll" "SetStdHandle" 2
    ∷ rs "KERNEL32.dll" "GetFileType" 1
    ∷ rs "KERNEL32.dll" "GetConsoleCP" 0
    ∷ r1s "KERNEL32.dll" "GetConsoleMode" 2
    ∷ r1s "KERNEL32.dll" "SetConsoleMode" 2
    ∷ r1s "KERNEL32.dll" "WriteConsoleW" 5
    ∷ r1s "KERNEL32.dll" "ReadConsoleW" 5
    ∷ r1s "KERNEL32.dll" "ReadConsoleA" 5
    ∷ r1s "KERNEL32.dll" "SetConsoleCtrlHandler" 2
    ∷ rs "KERNEL32.dll" "GetACP" 0
    ∷ rs "KERNEL32.dll" "GetOEMCP" 0
    ∷ r1s "KERNEL32.dll" "GetCPInfo" 2
    ∷ r1s "KERNEL32.dll" "IsValidCodePage" 1
    ∷ rs "KERNEL32.dll" "LCMapStringW" 6
    ∷ rs "KERNEL32.dll" "LCMapStringA" 6
    ∷ rs "KERNEL32.dll" "CompareStringW" 6
    ∷ r1s "KERNEL32.dll" "GetStringTypeW" 4
    ∷ rs "KERNEL32.dll" "GetDateFormatW" 6
    ∷ rs "KERNEL32.dll" "GetTimeFormatW" 6
    ∷ rs "KERNEL32.dll" "RtlUnwind" 4
    ∷ rs "KERNEL32.dll" "UnhandledExceptionFilter" 1
    ∷ rs "KERNEL32.dll" "SetUnhandledExceptionFilter" 1
    ∷ rs "KERNEL32.dll" "RaiseException" 4
    ∷ rs "KERNEL32.dll" "IsProcessorFeaturePresent" 1
    ∷ rs "KERNEL32.dll" "EncodePointer" 1
    ∷ rs "KERNEL32.dll" "DecodePointer" 1
    ∷ r1s "KERNEL32.dll" "DuplicateHandle" 7
    ∷ rs "KERNEL32.dll" "GetCurrentThread" 0
    ∷ rs "KERNEL32.dll" "OpenThread" 3
    ∷ r1s "KERNEL32.dll" "SetThreadPriority" 2
    ∷ r1s "KERNEL32.dll" "TerminateThread" 2
    ∷ rs "KERNEL32.dll" "SuspendThread" 1
    ∷ rs "KERNEL32.dll" "SwitchToThread" 0
    ∷ rs "KERNEL32.dll" "SetThreadAffinityMask" 2
    ∷ r1s "KERNEL32.dll" "SetProcessAffinityMask" 2
    ∷ r1s "KERNEL32.dll" "GetProcessAffinityMask" 3
    ∷ rs "KERNEL32.dll" "CreateEventW" 4
    ∷ rs "KERNEL32.dll" "CreateEventA" 4
    ∷ rs "KERNEL32.dll" "OpenEventA" 3
    ∷ r1s "KERNEL32.dll" "SetEvent" 1
    ∷ r1s "KERNEL32.dll" "ResetEvent" 1
    ∷ rs "KERNEL32.dll" "WaitForSingleObjectEx" 3
    ∷ rs "KERNEL32.dll" "WaitForMultipleObjects" 4
    ∷ rs "KERNEL32.dll" "WaitForMultipleObjectsEx" 5
    ∷ rs "KERNEL32.dll" "CreateMutexW" 3
    ∷ rs "KERNEL32.dll" "CreateMutexA" 3
    ∷ rs "KERNEL32.dll" "OpenMutexW" 3
    ∷ rs "KERNEL32.dll" "OpenMutexA" 3
    ∷ r1s "KERNEL32.dll" "ReleaseMutex" 1
    ∷ rs "KERNEL32.dll" "CreateSemaphoreW" 4
    ∷ rs "KERNEL32.dll" "CreateSemaphoreA" 4
    ∷ r1s "KERNEL32.dll" "ReleaseSemaphore" 3
    ∷ []
