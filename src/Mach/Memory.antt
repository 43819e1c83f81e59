-- ===== src/Mach/Memory.antt =====
-- src/mach.rs: the memory of the debugged task.
use macos_c_debugger_rust.Base.{ℕ, Bool, false, List, [], ◌∷◌, ◌==◌, if◌then◌else◌, bit_and, bit_or}
use macos_c_debugger_rust.Base.Bits.{not64}
use macos_c_debugger_rust.Base.Bytes.{from_le, to_le}
use macos_c_debugger_rust.Io.{Io, Result, ok, err, panic, mach_error, ◌>>=◌}
use macos_c_debugger_rust.Mach.{Foreign, get_task, mach_err}

-- `u32::from_le_bytes([buf[0], buf[1], buf[2], buf[3]])`.
unfoldable pub first_word : List ℕ → Result ℕ
first_word (a ∷ b ∷ c ∷ d ∷ _) = ok (from_le (a ∷ b ∷ c ∷ d ∷ []))
first_word _ = panic

-- The protection to ask for before a write to a page that is not writable.
abbrev pub write_protection : ℕ → ℕ → ℕ
write_protection original max =
    if bit_and max 2 == 0 then bit_or (bit_or 1 2) 0x10 else bit_or original 2

module _ {W : Type 0} (F : Foreign W) where
  unfoldable pub read_memory : ℕ → ℕ → ℕ → Io W (List ℕ)
  read_memory pid addr size w =
      if size == 0
      then (ok [], w)
      else ((get_task F pid >>= λ task w.
            (let r = F.vm_read task addr size w in
              let done = F.port_deallocate task r.1 in
              if r.0.0 == 0 then (ok r.0.1, done) else (err (mach_error r.0.0), done)))
          w)

  -- Make the page writable if it is not; the flag says that the protection was changed.
  unfoldable pub unprotect : ℕ → ℕ → ℕ → ℕ → W → Bool × W
  unprotect task page original max w =
      if bit_and original 2 == 0
      then (let r = F.vm_protect task page 4096 (write_protection original max) w in
          (r.0 == 0, r.1))
      else (false, w)

  unfoldable pub write_memory : ℕ → ℕ → List ℕ → Io W (Unit {0})
  unfolding unprotect
  write_memory pid addr bytes = get_task F pid >>= λ task w.
      let region = F.vm_region task addr w in
      let original = region.0.1.protection in
      let page = bit_and addr (not64 4095) in
      if region.0.0 == 0
      then (let opened =
            unprotect task page original region.0.1.max_protection
              (F.port_deallocate region.0.1.object_name region.1) in
          let written = F.vm_write task addr bytes opened.1 in
          let closed =
            (if opened.0 then (F.vm_protect task page 4096 original written.1).1 else written.1) in
          (mach_err written.0 tt, F.port_deallocate task closed))
      else (err (mach_error region.0.0), F.port_deallocate task region.1)

  unfoldable pub read_word : ℕ → ℕ → Io W ℕ
  unfolding first_word
  read_word pid addr = read_memory pid addr 4 >>= λ bytes w. (first_word bytes, w)

  unfoldable pub read_byte : ℕ → ℕ → Io W ℕ
  read_byte pid addr =
      read_memory pid addr 1 >>= λ bytes w. elim bytes [ [] ↦ (panic, w) | b ∷ _ ↦ (ok b, w) ]

  unfoldable pub write_word : ℕ → ℕ → ℕ → Io W (Unit {0})
  write_word pid addr value = write_memory pid addr (to_le 4 value)

  unfoldable pub write_byte : ℕ → ℕ → ℕ → Io W (Unit {0})
  write_byte pid addr value = write_memory pid addr (value ∷ [])
