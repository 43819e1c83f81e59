-- ===== src/Tests/Prints.antt =====
-- What the commands print, on the machine and for a small file.
use macos_c_debugger_rust.Base.{ℕ, [], ◌∷◌, some, refl, arith, ◌≡◌, ◌^◌, ◌≢◌, ◌≤◌, ◌<◌}
use macos_c_debugger_rust.Base.Text.{codes}
use macos_c_debugger_rust.Base.Text.Format.{hex, lines, decimal, pad_left}
use macos_c_debugger_rust.Io.{ok}
use macos_c_debugger_rust.Mach.{get_task}
use macos_c_debugger_rust.Mach.Memory
use macos_c_debugger_rust.Mach.Bytes.{bytes_at}
use macos_c_debugger_rust.Base.Bytes.{to_le}
use macos_c_debugger_rust.Debugger.{read_memory, unpatch}
use macos_c_debugger_rust.Debugger.Run.{initial}
use macos_c_debugger_rust.Register.Extended.{st_to_f64}
use macos_c_debugger_rust.Register.Extended.Doubles.{double, loaded, st_to_f64-double}
use macos_c_debugger_rust.Session.Place.{parse_addr}
use macos_c_debugger_rust.Session.Print.{says, out}
use macos_c_debugger_rust.Session.Print.Addresses.{parse_addr-hex}
use macos_c_debugger_rust.Session.Print.Source.{Files, list_source}
use macos_c_debugger_rust.Session.Print.Source.Window.{list_source-window, numbered_lines, window}
use macos_c_debugger_rust.Session.Print.Value.{print_value}
use macos_c_debugger_rust.Session.Print.Value.Shown.{IsReadable, shown_text, print_value-string}
use macos_c_debugger_rust.Tests.World.{machine, memory_laws, program}
use macos_c_debugger_rust.Tests.Memory.{fresh, fresh-IsPatched}

abbrev files : Files
files path = some (codes "int x;\nint y;\nint z;\n")

fresh-IsReadable : IsReadable memory_laws program fresh 512 1
unfolding IsReadable read_memory Memory.read_memory get_task initial unpatch
fresh-IsReadable a l u = (bytes_at program a 64, refl)

print_value-string_example :
    print_value machine 1 (some b's') (codes "p") 512 fresh
    ≡ says (out (codes "p = 0x0000000000000200  \"\\x80\""))
unfolding shown_text hex
print_value-string_example =
    print_value-string memory_laws program fresh 1 512 1 (codes "p") fresh-IsPatched (omega arith)
      (omega arith) fresh-IsReadable refl nonzero
  where
    nonzero : (a : ℕ) → 512 ≤ a → a < 513 → program a ≢ 0
    nonzero a l u e = (let here : a ≡ 512 = omega arith in absurd (ground (arith, here, e)))

list_source-window_example :
    list_source files (codes "a.c") 2 1
    ≡ ok (
        some
          (codes "a.c:2" ∷ codes "   1  int x;" ∷ codes "=> 2  int y;" ∷ codes "   3  int z;" ∷ []))
unfolding lines decimal numbered_lines window list_source pad_left
list_source-window_example =
    list_source-window files (codes "a.c") (codes "int x;\nint y;\nint z;\n") 2 1 refl (omega arith)
      (omega arith)

parse_addr-hex_example :
    (parse_addr (codes "0x0000000000001000") (some 0x100000000) ≡ some 0x1000)
    × (parse_addr (codes "base+0x0000000000001000") (some 0x100000000) ≡ some 0x100001000)
unfolding hex
parse_addr-hex_example = parse_addr-hex 18 0x1000 0x100000000 (omega arith)

-- -2.5 is -1.25 times 2.
st_to_f64-double_example :
    st_to_f64 (0 ∷ 0 ∷ 0 ∷ 0 ∷ 0 ∷ 0 ∷ 0 ∷ 0xa0 ∷ 0x00 ∷ 0xc0 ∷ []) ≡ 0xc004000000000000
unfolding loaded double st_to_f64 to_le
st_to_f64-double_example =
    st_to_f64-double 1 1024 (2 ^ 50) (omega arith) (omega arith) (omega arith) (omega arith)
