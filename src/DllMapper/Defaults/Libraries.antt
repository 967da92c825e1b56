-- ===== src/DllMapper/Defaults/Libraries.antt =====
-- `wg_dll_mapper_register_defaults` of Sources/Win32/wg_dll_mapper.c: the C runtime, HTTP and the certificates.
use wine_glass.Base.{List, [], ◌∷◌}
use wine_glass.DllMapper.Macros.{Registration, r1s, rs}

abbrev pub library_functions : List Registration
library_functions =
    rs "vcruntime140.dll" "memset" 0
    ∷ rs "vcruntime140.dll" "memcpy" 0
    ∷ rs "vcruntime140.dll" "memmove" 0
    ∷ rs "vcruntime140.dll" "memcmp" 0
    ∷ rs "ucrtbase.dll" "malloc" 0
    ∷ rs "ucrtbase.dll" "free" 0
    ∷ rs "ucrtbase.dll" "_initterm" 0
    ∷ rs "ucrtbase.dll" "_initterm_e" 0
    ∷ rs "ucrtbase.dll" "exit" 0
    ∷ rs "ucrtbase.dll" "_exit" 0
    ∷ rs "msvcp140.dll" "_Xbad_alloc" 0
    ∷ rs "ucrtbase.dll" "_beginthreadex" 0
    ∷ rs "ucrtbase.dll" "_beginthread" 0
    ∷ rs "ucrtbase.dll" "_endthreadex" 0
    ∷ rs "ucrtbase.dll" "_endthread" 0
    ∷ rs "WS2_32.dll" "ConnectEx" 7
    ∷ rs "WS2_32.dll" "DisconnectEx" 4
    ∷ rs "WS2_32.dll" "AcceptEx" 8
    ∷ rs "WS2_32.dll" "TransmitFile" 7
    ∷ rs "IPHLPAPI.DLL" "GetAdaptersAddresses" 5
    ∷ rs "IPHLPAPI.DLL" "GetAdaptersInfo" 2
    ∷ rs "IPHLPAPI.DLL" "GetNetworkParams" 2
    ∷ rs "IPHLPAPI.DLL" "GetBestInterface" 2
    ∷ rs "IPHLPAPI.DLL" "GetBestRoute" 3
    ∷ rs "IPHLPAPI.DLL" "GetIfTable" 3
    ∷ rs "winhttp.dll" "WinHttpOpen" 5
    ∷ rs "winhttp.dll" "WinHttpConnect" 4
    ∷ rs "winhttp.dll" "WinHttpOpenRequest" 7
    ∷ rs "winhttp.dll" "WinHttpSendRequest" 7
    ∷ rs "winhttp.dll" "WinHttpReceiveResponse" 2
    ∷ rs "winhttp.dll" "WinHttpQueryHeaders" 6
    ∷ rs "winhttp.dll" "WinHttpQueryDataAvailable" 2
    ∷ rs "winhttp.dll" "WinHttpReadData" 4
    ∷ rs "winhttp.dll" "WinHttpWriteData" 4
    ∷ rs "winhttp.dll" "WinHttpCloseHandle" 1
    ∷ rs "winhttp.dll" "WinHttpSetOption" 4
    ∷ rs "winhttp.dll" "WinHttpAddRequestHeaders" 4
    ∷ rs "winhttp.dll" "WinHttpCrackUrl" 4
    ∷ rs "winhttp.dll" "WinHttpSetStatusCallback" 4
    ∷ rs "winhttp.dll" "WinHttpSetTimeouts" 5
    ∷ rs "winhttp.dll" "WinHttpGetProxyForUrl" 4
    ∷ rs "winhttp.dll" "WinHttpGetDefaultProxyConfiguration" 1
    ∷ rs "winhttp.dll" "WinHttpGetIEProxyConfigForCurrentUser" 1
    ∷ r1s "wininet.dll" "InternetGetConnectedState" 2
    ∷ rs "wininet.dll" "InternetAttemptConnect" 1
    ∷ rs "wininet.dll" "InternetOpenA" 5
    ∷ rs "wininet.dll" "InternetOpenW" 5
    ∷ rs "wininet.dll" "InternetConnectA" 8
    ∷ rs "wininet.dll" "InternetConnectW" 8
    ∷ rs "wininet.dll" "HttpOpenRequestA" 8
    ∷ rs "wininet.dll" "HttpOpenRequestW" 8
    ∷ rs "wininet.dll" "HttpSendRequestA" 5
    ∷ rs "wininet.dll" "HttpSendRequestW" 5
    ∷ rs "wininet.dll" "HttpSendRequestExA" 5
    ∷ rs "wininet.dll" "HttpSendRequestExW" 5
    ∷ rs "wininet.dll" "HttpQueryInfoA" 5
    ∷ rs "wininet.dll" "HttpQueryInfoW" 5
    ∷ rs "wininet.dll" "InternetReadFile" 4
    ∷ rs "wininet.dll" "InternetCloseHandle" 1
    ∷ rs "wininet.dll" "InternetSetOptionA" 4
    ∷ rs "wininet.dll" "InternetSetOptionW" 4
    ∷ rs "wininet.dll" "InternetQueryOptionA" 4
    ∷ rs "wininet.dll" "InternetQueryOptionW" 4
    ∷ r1s "wininet.dll" "InternetCheckConnectionA" 3
    ∷ r1s "wininet.dll" "InternetCheckConnectionW" 3
    ∷ rs "wininet.dll" "InternetQueryDataAvailable" 4
    ∷ rs "wininet.dll" "InternetSetStatusCallbackA" 2
    ∷ rs "wininet.dll" "InternetSetStatusCallbackW" 2
    ∷ r1s "wininet.dll" "InternetGetConnectedStateExW" 3
    ∷ r1s "crypt32.dll" "CertOpenSystemStoreW" 2
    ∷ r1s "crypt32.dll" "CertOpenSystemStoreA" 2
    ∷ r1s "crypt32.dll" "CertCloseStore" 2
    ∷ rs "crypt32.dll" "CertFreeCertificateContext" 1
    ∷ rs "crypt32.dll" "CertEnumCertificatesInStore" 2
    ∷ r1s "crypt32.dll" "CertGetCertificateChain" 8
    ∷ rs "crypt32.dll" "CertFreeCertificateChain" 1
    ∷ r1s "crypt32.dll" "CertVerifyCertificateChainPolicy" 4
    ∷ r1s "crypt32.dll" "CryptProtectData" 7
    ∷ r1s "crypt32.dll" "CryptUnprotectData" 7
    ∷ r1s "crypt32.dll" "CryptStringToBinaryW" 7
    ∷ r1s "crypt32.dll" "CryptBinaryToStringW" 5
    ∷ rs "crypt32.dll" "CertFindCertificateInStore" 6
    ∷ rs "crypt32.dll" "CertGetNameStringW" 5
    ∷ rs "secur32.dll" "InitSecurityInterfaceW" 0
    ∷ rs "secur32.dll" "InitSecurityInterfaceA" 0
    ∷ rs "secur32.dll" "AcquireCredentialsHandleW" 9
    ∷ rs "secur32.dll" "AcquireCredentialsHandleA" 9
    ∷ rs "secur32.dll" "FreeCredentialsHandle" 1
    ∷ rs "secur32.dll" "InitializeSecurityContextW" 12
    ∷ rs "secur32.dll" "InitializeSecurityContextA" 12
    ∷ rs "secur32.dll" "DeleteSecurityContext" 1
    ∷ rs "secur32.dll" "QueryContextAttributesW" 3
    ∷ rs "secur32.dll" "QueryContextAttributesA" 3
    ∷ rs "secur32.dll" "FreeContextBuffer" 1
    ∷ rs "secur32.dll" "EncryptMessage" 4
    ∷ rs "secur32.dll" "DecryptMessage" 4
    ∷ rs "secur32.dll" "CompleteAuthToken" 2
    ∷ rs "secur32.dll" "ApplyControlToken" 2
    ∷ rs "sspicli.dll" "AcquireCredentialsHandleW" 9
    ∷ rs "sspicli.dll" "InitializeSecurityContextW" 12
    ∷ rs "sspicli.dll" "DeleteSecurityContext" 1
    ∷ rs "sspicli.dll" "FreeCredentialsHandle" 1
    ∷ rs "sspicli.dll" "QueryContextAttributesW" 3
    ∷ rs "sspicli.dll" "FreeContextBuffer" 1
    ∷ rs "sspicli.dll" "EncryptMessage" 4
    ∷ rs "sspicli.dll" "DecryptMessage" 4
    ∷ []
