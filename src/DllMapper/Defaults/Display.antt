-- ===== src/DllMapper/Defaults/Display.antt =====
-- `wg_dll_mapper_register_defaults` of Sources/Win32/wg_dll_mapper.c: USER32, GDI32 and the dialogs of installers.
use wine_glass.Base.{List, [], ◌∷◌}
use wine_glass.DllMapper.Types.{StubFunc}
use wine_glass.DllMapper.Macros.{Registration, r, r1s, rs}

abbrev pub display_functions : List Registration
display_functions =
    rs "USER32.dll" "GetSystemMenu" 2
    ∷ rs "USER32.dll" "SetClassLongW" 3
    ∷ r1s "USER32.dll" "IsWindowEnabled" 1
    ∷ rs "USER32.dll" "EnableMenuItem" 3
    ∷ r1s "USER32.dll" "SetWindowPos" 7
    ∷ r "USER32.dll" "GetSysColor" StubFunc.stub_get_sys_color 1
    ∷ rs "USER32.dll" "GetWindowLongW" 2
    ∷ rs "USER32.dll" "SetCursor" 1
    ∷ r1s "USER32.dll" "LoadCursorW" 2
    ∷ r1s "USER32.dll" "CheckDlgButton" 3
    ∷ rs "USER32.dll" "GetMessagePos" 0
    ∷ rs "USER32.dll" "LoadBitmapW" 2
    ∷ rs "USER32.dll" "CallWindowProcW" 5
    ∷ rs "USER32.dll" "IsWindowVisible" 1
    ∷ r1s "USER32.dll" "CloseClipboard" 0
    ∷ rs "USER32.dll" "SetClipboardData" 2
    ∷ r1s "USER32.dll" "EmptyClipboard" 0
    ∷ r1s "USER32.dll" "OpenClipboard" 1
    ∷ rs "USER32.dll" "wsprintfW" 0
    ∷ r1s "USER32.dll" "ScreenToClient" 2
    ∷ r1s "USER32.dll" "GetWindowRect" 2
    ∷ rs "USER32.dll" "GetSystemMetrics" 1
    ∷ r1s "USER32.dll" "SetDlgItemTextW" 3
    ∷ rs "USER32.dll" "GetDlgItemTextW" 4
    ∷ r "USER32.dll" "MessageBoxIndirectW" StubFunc.stub_message_box_indirect_w 1
    ∷ rs "USER32.dll" "CharPrevW" 2
    ∷ rs "USER32.dll" "CharNextA" 1
    ∷ rs "USER32.dll" "wsprintfA" 0
    ∷ rs "USER32.dll" "DispatchMessageW" 1
    ∷ r "USER32.dll" "PeekMessageW" StubFunc.stub_peek_message_w 5
    ∷ r1s "USER32.dll" "GetDC" 1
    ∷ r1s "USER32.dll" "ReleaseDC" 2
    ∷ rs "USER32.dll" "EnableWindow" 2
    ∷ r1s "USER32.dll" "InvalidateRect" 3
    ∷ rs "USER32.dll" "SendMessageW" 4
    ∷ rs "USER32.dll" "SendDlgItemMessageW" 5
    ∷ rs "USER32.dll" "DefWindowProcW" 4
    ∷ r1s "USER32.dll" "BeginPaint" 2
    ∷ r1s "USER32.dll" "GetClientRect" 2
    ∷ r1s "USER32.dll" "FillRect" 3
    ∷ r1s "USER32.dll" "EndDialog" 2
    ∷ r "USER32.dll" "RegisterClassW" StubFunc.stub_register_class_w 1
    ∷ r1s "USER32.dll" "SystemParametersInfoW" 4
    ∷ r "USER32.dll" "CreateWindowExW" StubFunc.stub_create_window_ex_w 12
    ∷ r1s "USER32.dll" "GetClassInfoW" 3
    ∷ rs "USER32.dll" "DialogBoxParamW" 5
    ∷ rs "USER32.dll" "CharNextW" 1
    ∷ r1s "USER32.dll" "ExitWindowsEx" 2
    ∷ r1s "USER32.dll" "DestroyWindow" 1
    ∷ rs "USER32.dll" "LoadImageW" 6
    ∷ r1s "USER32.dll" "SetTimer" 4
    ∷ r1s "USER32.dll" "SetWindowTextW" 2
    ∷ rs "USER32.dll" "GetWindowTextW" 3
    ∷ rs "USER32.dll" "GetWindowTextLengthW" 1
    ∷ rs "USER32.dll" "PostQuitMessage" 1
    ∷ r1s "USER32.dll" "ShowWindow" 2
    ∷ rs "USER32.dll" "GetDlgItem" 2
    ∷ rs "USER32.dll" "IsWindow" 1
    ∷ rs "USER32.dll" "SetWindowLongW" 3
    ∷ rs "USER32.dll" "FindWindowExW" 4
    ∷ rs "USER32.dll" "TrackPopupMenu" 7
    ∷ r1s "USER32.dll" "AppendMenuW" 4
    ∷ r1s "USER32.dll" "CreatePopupMenu" 0
    ∷ rs "USER32.dll" "DrawTextW" 5
    ∷ r1s "USER32.dll" "EndPaint" 2
    ∷ rs "USER32.dll" "CreateDialogParamW" 5
    ∷ rs "USER32.dll" "SendMessageTimeoutW" 7
    ∷ r1s "USER32.dll" "SetForegroundWindow" 1
    ∷ rs "USER32.dll" "GetMessageA" 4
    ∷ rs "USER32.dll" "GetMessageW" 4
    ∷ rs "USER32.dll" "TranslateMessage" 1
    ∷ rs "USER32.dll" "DispatchMessageW" 1
    ∷ rs "USER32.dll" "DefWindowProcW" 4
    ∷ rs "USER32.dll" "GetDC" 1
    ∷ rs "USER32.dll" "ReleaseDC" 2
    ∷ rs "USER32.dll" "BeginPaint" 2
    ∷ rs "USER32.dll" "FillRect" 3
    ∷ rs "GDI32.dll" "SelectObject" 2
    ∷ rs "GDI32.dll" "SetBkMode" 2
    ∷ r1s "GDI32.dll" "CreateFontIndirectW" 1
    ∷ r1s "GDI32.dll" "CreateFontIndirectA" 1
    ∷ rs "nsDialogs.dll" "Create" 0
    ∷ rs "nsDialogs.dll" "CreateControl" 0
    ∷ rs "nsDialogs.dll" "CreateItem" 0
    ∷ rs "nsDialogs.dll" "Show" 0
    ∷ rs "nsDialogs.dll" "SetImage" 0
    ∷ rs "nsDialogs.dll" "SetIcon" 0
    ∷ rs "nsDialogs.dll" "SetUserData" 0
    ∷ rs "nsDialogs.dll" "GetUserData" 0
    ∷ rs "nsDialogs.dll" "OnClick" 0
    ∷ rs "nsDialogs.dll" "OnChange" 0
    ∷ rs "nsDialogs.dll" "OnNotify" 0
    ∷ rs "nsDialogs.dll" "OnBack" 0
    ∷ rs "nsDialogs.dll" "SetRTL" 0
    ∷ rs "nsDialogs.dll" "CreateTimer" 0
    ∷ rs "nsDialogs.dll" "KillTimer" 0
    ∷ rs "nsDialogs.dll" "SelectFileDialog" 0
    ∷ rs "nsDialogs.dll" "SelectFolderDialog" 0
    ∷ rs "nsDialogs.dll" "SetButtonLong" 0
    ∷ rs "GDI32.dll" "SetTextColor" 2
    ∷ r1s "GDI32.dll" "DeleteObject" 1
    ∷ r "GDI32.dll" "GetDeviceCaps" StubFunc.stub_get_device_caps 2
    ∷ r1s "GDI32.dll" "CreateBrushIndirect" 1
    ∷ rs "GDI32.dll" "SetBkColor" 2
    ∷ rs "GDI32.dll" "CreateSolidBrush" 1
    ∷ rs "GDI32.dll" "TextOutW" 5
    ∷ rs "GDI32.dll" "MoveToEx" 4
    ∷ rs "GDI32.dll" "LineTo" 3
    ∷ rs "GDI32.dll" "CreateCompatibleDC" 1
    ∷ rs "GDI32.dll" "DeleteDC" 1
    ∷ rs "GDI32.dll" "CreateCompatibleBitmap" 3
    ∷ rs "GDI32.dll" "GetObjectW" 3
    ∷ rs "GDI32.dll" "BitBlt" 9
    ∷ rs "GDI32.dll" "StretchBlt" 11
    ∷ rs "GDI32.dll" "SetStretchBltMode" 2
    ∷ rs "GDI32.dll" "StretchDIBits" 13
    ∷ rs "GDI32.dll" "SetDIBitsToDevice" 12
    ∷ []
