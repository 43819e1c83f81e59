-- ===== src/Debugger/Arm/Frame.antt =====
-- `compute_frame_base` of src/main.rs, aarch64: the frame's size is read from the instruction that
-- saves the frame pointer, where it is the function's first.
use macos_c_debugger_rust.Base.{
  ℕ, Bool, List, [], ◌∷◌, none, some, if◌then◌else◌, ◌==◌, ◌+◌, ◌-◌, ◌*◌, ◌/◌, ◌%◌, ◌^◌, ltb, ◌&&◌,
  bit_and, unwrap_or, ==_iff, ◌<◌, ◌≡◌, refl,
}
use macos_c_debugger_rust.Base.Bits.{all_below, all_below_sound}
use macos_c_debugger_rust.Base.Bytes.{from_le, to_le}
use macos_c_debugger_rust.Io.{Io, ok, attempt, ◌>>=◌}
use macos_c_debugger_rust.Mach.{Foreign}
use macos_c_debugger_rust.Mach.Arm.{ArmForeign}
use macos_c_debugger_rust.Debugger.{read_memory}
use macos_c_debugger_rust.Debugger.Arm.{ArmState, lift, registers}
use macos_c_debugger_rust.Symbols.{Variable, register, call_frame_cfa}

-- The signed field of 7 bits, in units of 8 bytes, with its sign turned, as a `u64`.
abbrev pub pushed : ℕ → ℕ
pushed imm7 = if ltb imm7 64 then (2 ^ 64 - imm7 * 8) % 2 ^ 64 else (128 - imm7) * 8

-- The bytes of another instruction give 0.
unfoldable pub frame_size : List ℕ → ℕ
frame_size (a ∷ b ∷ c ∷ d ∷ []) =
    if (a == 0xfd) && ((b == 0x7b) && (d == 0xa9))
    then pushed (bit_and (from_le (a ∷ b ∷ c ∷ d ∷ []) / 2 ^ 15) 0x7f)
    else 0
frame_size _ = 0

module _ {W : Type 0} (F : Foreign W) (G : ArmForeign W) where
  unfoldable pub compute_frame_base : Variable → ℕ → Io (ArmState W) ℕ
  unfolding frame_size
  compute_frame_base var slide = registers G >>= λ regs. elim var.frame_base [
    | register ↦ λ s. (ok regs.fp, s)
    | call_frame_cfa ↦ elim var.scope [
      | none ↦ λ s. (ok regs.fp, s)
      | some scope ↦ attempt (lift (read_memory F ((scope.0 + slide) % 2 ^ 64) 4)) >>= λ bytes s.
          (ok ((regs.fp + frame_size (unwrap_or bytes [])) % 2 ^ 64), s)
    ]
  ]

-- `stp x29, x30, [sp, #-16 * n]!`.
pub save_frame_word : ℕ → ℕ
save_frame_word n = 0xa9807bfd + (128 - 2 * n) * 2 ^ 15

abbrev is_size : ℕ → Bool
is_size n = frame_size (to_le 4 (save_frame_word (n + 1))) == 16 * (n + 1)

-- The instruction that saves the frame pointer below a frame of 16 to 512 bytes gives that size.
frame_size-save_frame :
    (n : ℕ) → n < 32 → frame_size (to_le 4 (save_frame_word (n + 1))) ≡ 16 * (n + 1)
unfolding frame_size save_frame_word to_le from_le all_below
frame_size-save_frame n h = (==_iff _ _).0 (all_below_sound 32 is_size n refl h)
