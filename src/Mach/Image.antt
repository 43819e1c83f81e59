-- ===== src/Mach/Image.antt =====
-- src/mach.rs: the main executable in the memory of the debugged task, found by its magic number,
-- and its architecture. The loop of `get_text_base` has 32 rounds in the source.
use macos_c_debugger_rust.Base.{
  ℕ, zero, suc, Bool, false, List, [], ◌∷◌, Option, none, some, ◌==◌, if◌then◌else◌, ◌+◌, ◌%◌, ◌^◌,
}
use macos_c_debugger_rust.Base.Text.{text_eq}
use macos_c_debugger_rust.Arch.{Arch, x86_64, aarch64}
use macos_c_debugger_rust.Io.{
  Io, Result, ok, err, unknown_cpu, base_not_found, ◌>>=◌, attempt, and_then,
}
use macos_c_debugger_rust.Mach.{Foreign, get_task}
use macos_c_debugger_rust.Mach.Memory.{read_memory, first_word}

abbrev pub is_magic : Option (List ℕ) → Bool
is_magic none = false
is_magic (some bytes) = text_eq bytes (0xcf ∷ 0xfa ∷ 0xed ∷ 0xfe ∷ [])

unfoldable pub arch_of_cpu : ℕ → Result Arch
arch_of_cpu t =
    if t == 0x01000007
    then ok x86_64
    else (if t == 0x0100000c then ok aarch64 else err (unknown_cpu t))

module _ {W : Type 0} (F : Foreign W) where
  -- The regions from `addr` on, `rounds` at most.
  unfoldable pub scan_regions : ℕ → ℕ → ℕ → ℕ → Io W ℕ
  scan_regions zero pid task addr w = (err base_not_found, F.port_deallocate task w)
  scan_regions (suc rounds) pid task addr w =
      let g = F.vm_region task addr w in
      let region = g.0.1 in
      let next = scan_regions rounds pid task ((region.start + region.size) % 2 ^ 64) in
      if g.0.0 == 0
      then ((attempt (read_memory F pid region.start 4) >>= λ magic w.
            if is_magic magic
            then (ok region.start, F.port_deallocate task w)
            else (if region.size == 0
                then (err base_not_found, F.port_deallocate task w)
                else next w))
          (F.port_deallocate region.object_name g.1))
      else (err base_not_found, F.port_deallocate task g.1)

  unfoldable pub get_text_base : ℕ → Io W ℕ
  unfolding scan_regions
  get_text_base pid = get_task F pid >>= λ task. scan_regions 32 pid task 0x100000000

  unfoldable pub detect_arch : ℕ → Io W Arch
  unfolding get_text_base first_word arch_of_cpu
  detect_arch pid = do
    base ← get_text_base pid
    bytes ← read_memory F pid ((base + 4) % 2 ^ 64) 4
    λ w. and_then (first_word bytes) w (λ t w. (arch_of_cpu t, w))
