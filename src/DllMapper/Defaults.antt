-- ===== src/DllMapper/Defaults.antt =====
-- `wg_dll_mapper_register_defaults` of Sources/Win32/wg_dll_mapper.c: the functions that are known from
-- the start, in the order of the source.
mod Kernel
mod Startup
mod System
mod Libraries
mod Display
mod Shell
mod Sockets
use wine_glass.Base.{Option, some, List, [], ◌∷◌, ◌++◌, ◌≡◌, refl}
use wine_glass.DllMapper.Types.{Mapper}
use wine_glass.DllMapper.Macros.{Registration}
use wine_glass.DllMapper.{register}
use wine_glass.DllMapper.Reachable.{Reachable}
use wine_glass.DllMapper.Defaults.Kernel.{kernel_functions}
use wine_glass.DllMapper.Defaults.Startup.{startup_functions}
use wine_glass.DllMapper.Defaults.System.{system_functions}
use wine_glass.DllMapper.Defaults.Libraries.{library_functions}
use wine_glass.DllMapper.Defaults.Display.{display_functions}
use wine_glass.DllMapper.Defaults.Shell.{shell_functions}
use wine_glass.DllMapper.Defaults.Sockets.{socket_functions}

abbrev pub register_one : Mapper → Registration → Mapper
register_one m x = (register m x.dll x.func (some x.handler) x.num_args).0

unfoldable pub register_all : List Registration → Mapper → Mapper
register_all [] m = m
register_all (x ∷ xs) m = register_all xs (register_one m x)

-- In the order of the source.
abbrev pub default_functions : List Registration
default_functions =
    kernel_functions
    ++ (startup_functions
        ++ (system_functions
            ++ (library_functions
                ++ (display_functions ++ (shell_functions ++ (socket_functions))))))

unfoldable pub register_defaults : Mapper → Mapper
register_defaults m = register_all default_functions m

register_all-Reachable :
    (xs : List Registration) (m : Mapper) → Reachable m → Reachable (register_all xs m)
unfolding register_all
register_all-Reachable [] m v = v
register_all-Reachable (x ∷ xs) m v =
    register_all-Reachable xs (register_one m x)
      (Reachable.registered x.dll x.func (some x.handler) x.num_args v refl)

pub register_defaults-Reachable : (m : Mapper) → Reachable m → Reachable (register_defaults m)
unfolding register_defaults
register_defaults-Reachable m v = register_all-Reachable default_functions m v
