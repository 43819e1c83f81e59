-- ===== src/Debugger/Arm.antt =====
-- src/debugger.rs, aarch64: the state of a session with its sixteen hardware breakpoint slots and four
-- watchpoint slots, and the operations on them.
pub mod Wait
pub mod Hit
pub mod Run
pub mod Loaded
pub mod Armed
pub mod Disarmed
pub mod Twice
pub mod Frame
use macos_c_debugger_rust.Base.{
  ℕ, suc, Bool, true, false, List, [], ◌∷◌, Option, none, some, ◌==◌, if◌then◌else◌, leb,
  set as set_elem, position_from, unwrap_or,
}
use macos_c_debugger_rust.Breakpoint.{new_hw_enabled}
use macos_c_debugger_rust.Io.{
  Io, ok, err, slots_exhausted, invalid_slot, for_each, ◌>>=◌, ◌>>◌, attempt,
}
use macos_c_debugger_rust.Mach.{Foreign}
use macos_c_debugger_rust.Mach.Arm.{
  ArmForeign, set_hw_breakpoint_slot, clear_hw_breakpoint_slot, set_hw_watchpoint_slot,
  clear_hw_watchpoint_slot, get_registers, set_registers,
}
use macos_c_debugger_rust.Register.Arm.{ThreadState64}
use macos_c_debugger_rust.Register.Watch.{WatchCondition, WatchLen, as_bytes}
use macos_c_debugger_rust.Debugger.{
  State, Debugger, ThreadEntry, kernel, modify, current_thread_port, read_memory,
}
use macos_c_debugger_rust.Debugger.Break.{store_breakpoint, drop_breakpoint, forget_hit}

pub record WatchpointInfo : Type 0 where
  pub addr : ℕ
  pub condition : WatchCondition
  pub size : WatchLen
  pub prev_value : List ℕ

-- The fields that both architectures have are those of `Debugger`, whose own watchpoint slots stay
-- unused here.
pub record ArmState (W : Type 0) : Type 0 where
  pub common : State W
  pub hw_bp_slots : List (Option ℕ)
  pub wp_slots : List (Option WatchpointInfo)

abbrev pub holds : ℕ → Option ℕ → Bool
holds addr none = false
holds addr (some a) = a == addr

abbrev pub watches : ℕ → Option WatchpointInfo → Bool
watches addr none = false
watches addr (some i) = i.addr == addr

module _ {A : Type 0} where
  abbrev pub is_free : Option A → Bool
  is_free none = true
  is_free (some _) = false

  -- The used slots with their numbers, from number `n` on.
  unfoldable pub numbered : ℕ → List (Option A) → List (ℕ × A)
  numbered n [] = []
  numbered n (none ∷ ws) = numbered (suc n) ws
  numbered n (some i ∷ ws) = (n, i) ∷ numbered (suc n) ws

module _ {W A : Type 0} where
  abbrev pub lift : Io (State W) A → Io (ArmState W) A
  lift m s = ((m s.common).0, record s { common = (m s.common).1 })

  abbrev pub call : Io W A → Io (ArmState W) A
  call m = lift (kernel m)

module _ {W : Type 0} where
  abbrev pub dbg_of : ArmState W → Debugger
  dbg_of s = s.common.dbg

  abbrev pub change : (Debugger → Debugger) → Io (ArmState W) (Unit {0})
  change f = lift (modify f)

  unfoldable pub alloc_hw_slot : ℕ → Io (ArmState W) ℕ
  unfolding position_from
  alloc_hw_slot addr s = elim (position_from 0 is_free s.hw_bp_slots) [
    | none ↦ (err slots_exhausted, s)
    | some slot ↦ (ok slot, record s { hw_bp_slots = set_elem s.hw_bp_slots slot (some addr) })
  ]

  unfoldable pub release_hw_slot : ℕ → Io (ArmState W) (Unit {0})
  release_hw_slot slot s = (ok tt, record s { hw_bp_slots = set_elem s.hw_bp_slots slot none })

  unfoldable pub find_hw_slot : ℕ → ArmState W → Option ℕ
  unfolding position_from
  find_hw_slot addr s = position_from 0 (holds addr) s.hw_bp_slots

  unfoldable pub watchpoint_slots : ArmState W → List (ℕ × WatchpointInfo)
  unfolding numbered
  watchpoint_slots s = numbered 0 s.wp_slots

module _ {W : Type 0} (G : ArmForeign W) where
  -- A slot written to, or cleared in, the debug registers of all listed threads.
  unfoldable pub arm_slot : ℕ → ℕ → List ThreadEntry → Io (ArmState W) (Unit {0})
  unfolding set_hw_breakpoint_slot
  arm_slot slot addr = for_each (λ t. call (set_hw_breakpoint_slot G t.port slot addr))

  unfoldable pub clear_slot : ℕ → List ThreadEntry → Io (ArmState W) (Unit {0})
  unfolding clear_hw_breakpoint_slot
  clear_slot slot = for_each (λ t. call (clear_hw_breakpoint_slot G t.port slot))

  unfoldable pub apply_existing_bp_wp_to_thread : ℕ → Io (ArmState W) (Unit {0})
  unfolding numbered watchpoint_slots
  apply_existing_bp_wp_to_thread port s =
      (for_each (λ b. call (set_hw_breakpoint_slot G port b.0 b.1)) (numbered 0 s.hw_bp_slots)
          >> for_each
              (λ w. call (set_hw_watchpoint_slot G port w.0 w.1.addr w.1.condition w.1.size))
              (watchpoint_slots s))
        s

  unfoldable pub set_breakpoint : ℕ → Io (ArmState W) (Unit {0})
  unfolding alloc_hw_slot arm_slot
  set_breakpoint addr = alloc_hw_slot addr >>= λ slot s.
      (arm_slot slot addr (dbg_of s).threads >> λ s.
      change (store_breakpoint addr (new_hw_enabled addr (dbg_of s).arch)) s)
        s

  -- The slot of a breakpoint, if it has one, cleared and given back.
  unfoldable pub free_slot : Option ℕ → Io (ArmState W) (Unit {0})
  unfolding clear_slot release_hw_slot
  free_slot none s = (ok tt, s)
  free_slot (some slot) s = (clear_slot slot (dbg_of s).threads >> release_hw_slot slot) s

  unfoldable pub remove_breakpoint : ℕ → Io (ArmState W) (Unit {0})
  unfolding find_hw_slot free_slot
  remove_breakpoint addr s =
      (free_slot (find_hw_slot addr s) >> change (drop_breakpoint addr) >> change (forget_hit addr))
        s

  unfoldable pub remove_watchpoint_slot : ℕ → Io (ArmState W) (Unit {0})
  remove_watchpoint_slot slot s =
      if leb 4 slot
      then (err invalid_slot, s)
      else ((for_each (λ t. call (clear_hw_watchpoint_slot G t.port slot)) (dbg_of s).threads
            >> λ s. (ok tt, record s { wp_slots = set_elem s.wp_slots slot none }))
          s)

  unfoldable pub registers : Io (ArmState W) ThreadState64
  unfolding current_thread_port
  registers = lift current_thread_port >>= λ port. call (get_registers G port)

  unfoldable pub set_current_registers : ThreadState64 → Io (ArmState W) (Unit {0})
  unfolding current_thread_port
  set_current_registers regs = lift current_thread_port >>= λ port. call (set_registers G port regs)

  unfoldable pub current_pc : Io (ArmState W) ℕ
  unfolding registers
  current_pc = registers >>= λ r s. (ok r.pc, s)

  module _ (F : Foreign W) where
    unfoldable pub set_watchpoint : ℕ → WatchCondition → WatchLen → Io (ArmState W) ℕ
    unfolding read_memory
    set_watchpoint addr c len s = elim (position_from 0 (watches addr) s.wp_slots) [
      | some slot ↦ (ok slot, s)
      | none ↦ elim (position_from 0 is_free s.wp_slots) [
        | none ↦ (err slots_exhausted, s)
        | some slot ↦
            (attempt (lift (read_memory F addr (as_bytes len))) >>= λ prev s.
            (for_each (λ t. call (set_hw_watchpoint_slot G t.port slot addr c len))
                  (dbg_of s).threads
                >> λ s. (
                  ok slot,
                  record s {
                    wp_slots = set_elem s.wp_slots slot (
                        some (record {
                          addr = addr;
                          condition = c;
                          size = len;
                          prev_value = unwrap_or prev [];
                        }));
                  },
                ))
              s)
              s
      ]
    ]
