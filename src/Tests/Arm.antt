-- ===== src/Tests/Arm.antt =====
-- Hardware breakpoints on a machine with two threads and no breakpoint at first.
use macos_c_debugger_rust.Base.{
  ℕ, zero, suc, false, List, [], ◌∷◌, none, some, ◌≡◌, ◌≢◌, refl, ◌==◌, if◌then◌else◌, arith,
  replicate, get_elem?, position_from,
}
use macos_c_debugger_rust.Base.Assoc.{lookup, insert, remove}
use macos_c_debugger_rust.Arch.{aarch64}
use macos_c_debugger_rust.Breakpoint.{new_hw_enabled}
use macos_c_debugger_rust.Io.{for_each}
use macos_c_debugger_rust.Mach.Arm.{
  ArmForeign, ArmDebugState64, write_breakpoint, set_hw_breakpoint_slot, clear_hw_breakpoint_slot,
  get_debug_state, set_debug_state,
}
use macos_c_debugger_rust.Register.Arm.{ThreadState64}
use macos_c_debugger_rust.Debugger.{spawned}
use macos_c_debugger_rust.Debugger.Arm.{
  ArmState, dbg_of, set_breakpoint, remove_breakpoint, alloc_hw_slot, find_hw_slot, release_hw_slot,
  arm_slot, clear_slot, free_slot,
}
use macos_c_debugger_rust.Debugger.Arm.Loaded.{HasDebug}
use macos_c_debugger_rust.Debugger.Arm.Armed.{Loads, IsArmed, set_breakpoint-IsArmed}
use macos_c_debugger_rust.Debugger.Arm.Disarmed.{remove_breakpoint-IsArmed}
use macos_c_debugger_rust.Debugger.Arm.Twice.{Stray, set_twice-Stray}

record ArmWorld : Type 0 where
  debug : ℕ → ArmDebugState64
  registers : ℕ → ThreadState64

abbrev zeros : List ℕ
zeros = replicate 16 0

abbrev machine : ArmForeign ArmWorld
machine = record {
  thread_get_state = λ port w. ((0, w.registers port), w);
  thread_set_state =
      λ port r w. (0, record w { registers = λ p. if p == port then r else w.registers p });
  thread_get_debug = λ port w. ((0, w.debug port), w);
  thread_set_debug = λ port d w. (0, record w { debug = λ p. if p == port then d else w.debug p });
}

debug_laws : HasDebug machine
debug_laws = record {
  debug = λ w. w.debug;
  get_value = λ p w e. refl;
  get_keeps = λ p q w. refl;
  set_value = λ p d w e. ground arith;
  set_keeps = λ p q d w h. ground (arith, h);
}

abbrev quiet : ArmState ArmWorld
quiet = record {
  common = record {
    dbg = record {
      pid = 7;
      origin = spawned;
      task = 3;
      threads =
          record { port = 1; tid = 101; suspended = false }
          ∷ record { port = 2; tid = 102; suspended = false }
          ∷ [];
      current_thread = 0;
      breakpoints = [];
      last_status = none;
      at_breakpoint = none;
      arch = aarch64;
      wp_slots = [];
      at_watchpoint = none;
    };
    world = record {
      debug = λ p. record { bvr = zeros; bcr = zeros; wvr = zeros; wcr = zeros; mdscr_el1 = 0 };
      registers = λ p. record { x = replicate 29 0; fp = 0; lr = 0; sp = 0; pc = 0; cpsr = 0 };
    };
  };
  hw_bp_slots = replicate 16 none;
  wp_slots = none ∷ none ∷ none ∷ none ∷ [];
}

free : (n k a : ℕ) → get_elem? (replicate n none) k ≢ some (some a)
free zero k a e = cc
free (suc n) zero a e = cc
free (suc n) (suc k) a e = free n k a e

cleared :
    (n k : ℕ)
    → Loads
        (get_elem? (replicate n 0) k)
        (get_elem? (replicate n 0) k)
        (get_elem? (replicate n none) k)
cleared zero k = tt
cleared (suc n) zero = refl
cleared (suc n) (suc k) = cleared n k

quiet-IsArmed : IsArmed debug_laws quiet
unfolding debug_laws lookup
quiet-IsArmed = record {
  sixteen = refl;
  held = λ k a e. absurd (free 16 k a e);
  placed = λ a b e. absurd (cc);
  apart = λ j k a e f. absurd (free 16 j a e);
  shown = λ q p. record { values = refl; controls = refl; loads = cleared 16 };
}

abbrev one_set : ArmState ArmWorld
unfolding set_breakpoint
one_set = (set_breakpoint machine 4096 quiet).1

set_breakpoint-IsArmed_example : IsArmed debug_laws (set_breakpoint machine 4096 quiet).1
unfolding set_breakpoint alloc_hw_slot arm_slot set_hw_breakpoint_slot write_breakpoint
    get_debug_state set_debug_state for_each position_from lookup
set_breakpoint-IsArmed_example =
    set_breakpoint-IsArmed debug_laws 4096 quiet quiet-IsArmed refl refl

remove_breakpoint-IsArmed_example :
    IsArmed debug_laws (remove_breakpoint machine 4096 one_set).1
    × (lookup 4096 (dbg_of (remove_breakpoint machine 4096 one_set).1).breakpoints ≡ none)
unfolding set_breakpoint alloc_hw_slot arm_slot set_hw_breakpoint_slot write_breakpoint
    get_debug_state set_debug_state for_each position_from lookup insert remove remove_breakpoint
    free_slot find_hw_slot release_hw_slot clear_slot clear_hw_breakpoint_slot new_hw_enabled
remove_breakpoint-IsArmed_example =
    remove_breakpoint-IsArmed debug_laws 4096 one_set set_breakpoint-IsArmed_example refl

set_twice-Stray_example :
    Stray debug_laws 4096 (remove_breakpoint machine 4096 (set_breakpoint machine 4096 one_set).1).1
unfolding set_breakpoint alloc_hw_slot arm_slot set_hw_breakpoint_slot write_breakpoint
    get_debug_state set_debug_state for_each position_from lookup insert remove remove_breakpoint
    free_slot find_hw_slot release_hw_slot clear_slot clear_hw_breakpoint_slot new_hw_enabled
set_twice-Stray_example =
    set_twice-Stray debug_laws 4096 (new_hw_enabled 4096 aarch64) one_set
      set_breakpoint-IsArmed_example refl refl refl
