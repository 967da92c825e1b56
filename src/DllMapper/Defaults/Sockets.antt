-- ===== src/DllMapper/Defaults/Sockets.antt =====
-- `wg_dll_mapper_register_defaults` of Sources/Win32/wg_dll_mapper.c: WS2_32.
use wine_glass.Base.{List, [], ◌∷◌}
use wine_glass.DllMapper.Macros.{Registration, r1s, rs}

abbrev pub socket_functions : List Registration
socket_functions =
    rs "WS2_32.dll" "Ordinal_1" 3
    ∷ rs "WS2_32.dll" "Ordinal_2" 3
    ∷ rs "WS2_32.dll" "Ordinal_3" 1
    ∷ rs "WS2_32.dll" "Ordinal_4" 3
    ∷ rs "WS2_32.dll" "Ordinal_5" 3
    ∷ rs "WS2_32.dll" "Ordinal_6" 3
    ∷ rs "WS2_32.dll" "Ordinal_7" 5
    ∷ rs "WS2_32.dll" "Ordinal_8" 1
    ∷ rs "WS2_32.dll" "Ordinal_9" 1
    ∷ rs "WS2_32.dll" "Ordinal_10" 3
    ∷ rs "WS2_32.dll" "Ordinal_11" 1
    ∷ rs "WS2_32.dll" "Ordinal_12" 1
    ∷ rs "WS2_32.dll" "Ordinal_13" 2
    ∷ rs "WS2_32.dll" "Ordinal_14" 1
    ∷ rs "WS2_32.dll" "Ordinal_15" 1
    ∷ rs "WS2_32.dll" "Ordinal_16" 4
    ∷ rs "WS2_32.dll" "Ordinal_17" 6
    ∷ rs "WS2_32.dll" "Ordinal_18" 5
    ∷ rs "WS2_32.dll" "Ordinal_19" 4
    ∷ rs "WS2_32.dll" "Ordinal_20" 6
    ∷ rs "WS2_32.dll" "Ordinal_21" 5
    ∷ rs "WS2_32.dll" "Ordinal_22" 2
    ∷ rs "WS2_32.dll" "Ordinal_23" 3
    ∷ rs "WS2_32.dll" "Ordinal_52" 2
    ∷ rs "WS2_32.dll" "Ordinal_111" 0
    ∷ rs "WS2_32.dll" "Ordinal_112" 1
    ∷ rs "WS2_32.dll" "Ordinal_113" 0
    ∷ rs "WS2_32.dll" "Ordinal_115" 2
    ∷ rs "WS2_32.dll" "Ordinal_116" 0
    ∷ rs "WS2_32.dll" "WSAStartup" 2
    ∷ rs "WS2_32.dll" "WSACleanup" 0
    ∷ rs "WS2_32.dll" "WSAGetLastError" 0
    ∷ rs "WS2_32.dll" "WSASetLastError" 1
    ∷ rs "WS2_32.dll" "WSASend" 7
    ∷ rs "WS2_32.dll" "WSASendTo" 9
    ∷ rs "WS2_32.dll" "WSARecv" 7
    ∷ rs "WS2_32.dll" "WSARecvFrom" 9
    ∷ rs "WS2_32.dll" "WSASocketW" 6
    ∷ rs "WS2_32.dll" "WSASocketA" 6
    ∷ rs "WS2_32.dll" "Ordinal_151" 2
    ∷ rs "WS2_32.dll" "WSAIoctl" 9
    ∷ rs "WS2_32.dll" "WSAEventSelect" 3
    ∷ rs "WS2_32.dll" "WSAEnumNetworkEvents" 3
    ∷ r1s "WS2_32.dll" "WSACreateEvent" 0
    ∷ r1s "WS2_32.dll" "WSACloseEvent" 1
    ∷ r1s "WS2_32.dll" "WSAResetEvent" 1
    ∷ r1s "WS2_32.dll" "WSASetEvent" 1
    ∷ rs "WS2_32.dll" "WSAWaitForMultipleEvents" 5
    ∷ rs "WS2_32.dll" "getaddrinfo" 4
    ∷ rs "WS2_32.dll" "freeaddrinfo" 1
    ∷ rs "WS2_32.dll" "gethostname" 2
    ∷ rs "WS2_32.dll" "gethostbyname" 1
    ∷ rs "WS2_32.dll" "Ordinal_57" 2
    ∷ rs "WS2_32.dll" "socket" 3
    ∷ rs "WS2_32.dll" "closesocket" 1
    ∷ rs "WS2_32.dll" "inet_ntop" 4
    ∷ rs "WS2_32.dll" "inet_pton" 4
    ∷ rs "WS2_32.dll" "InetNtopA" 4
    ∷ rs "WS2_32.dll" "InetPtonA" 4
    ∷ rs "WS2_32.dll" "connect" 3
    ∷ rs "WS2_32.dll" "send" 4
    ∷ rs "WS2_32.dll" "recv" 4
    ∷ rs "WS2_32.dll" "bind" 3
    ∷ rs "WS2_32.dll" "listen" 2
    ∷ rs "WS2_32.dll" "select" 5
    ∷ rs "WS2_32.dll" "shutdown" 2
    ∷ rs "WS2_32.dll" "setsockopt" 5
    ∷ rs "WS2_32.dll" "getsockopt" 5
    ∷ rs "WS2_32.dll" "ioctlsocket" 3
    ∷ rs "WS2_32.dll" "htons" 1
    ∷ rs "WS2_32.dll" "htonl" 1
    ∷ rs "WS2_32.dll" "ntohs" 1
    ∷ rs "WS2_32.dll" "ntohl" 1
    ∷ rs "WS2_32.dll" "inet_addr" 1
    ∷ rs "WS2_32.dll" "inet_ntoa" 1
    ∷ rs "WS2_32.dll" "getpeername" 3
    ∷ rs "WS2_32.dll" "getsockname" 3
    ∷ rs "WSOCK32.dll" "Ordinal_1142" 2
    ∷ []
