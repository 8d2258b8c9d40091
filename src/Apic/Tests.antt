-- ===== src/Apic/Tests.antt =====
-- Two I/O APICs with bases 0 and 24, and the entries at concrete values.
use capucho_os.Apic.Registers.Iterate.{answers, calls-redir_entry_iter, calls}
use capucho_os.Base.{
  ◌⊎◌, ◌<◌, ◌-◌, ℕ, ◌≡◌, ◌≤◌, refl, false, not, List, [], ◌∷◌, ret, arith, bit_or,
}
use capucho_os.Base.Io.{Event, Machine, ◌>>=◌}
use capucho_os.Base.Bits.{test_bit}
use capucho_os.Apic.RedirEntry.{
  set_delivery_mode, nm_interrupt, vector, set_vector, logical_mode, set_logical_mode,
  low_is_active, set_low_is_active, level_sensitive, set_level_sensitive, masked, set_masked,
}
use capucho_os.Apic.RedirEntry.Laws.{set_fields_lem, mode_field, SetsOrFlips, flag_setters}
use capucho_os.Apic.Routing.{
  InterruptSourceOverride, IoApic, Apic, get_interrupt_source, get_interrupt_ioapic, find_source,
  search_ioapic,
}
use capucho_os.Apic.Routing.Laws.{IsChosen, get_interrupt_ioapic-IsChosen}
use capucho_os.Apic.Entries.{get_entry}
use capucho_os.Apic.Start.{set_up_entry}
use capucho_os.Apic.Start.Route.{held, get_entry-set_up_entry}
use capucho_os.Apic.Registers.{redir_entry_iter, RedirEntryIter, redir_entry, set_redir_entry}
use capucho_os.Apic.Registers.Device.{content, selected, redir_entry-set_redir_entry}

abbrev first_io : IoApic
first_io = record { base_address = 4096; base_interrupt = 0 }

abbrev second_io : IoApic
second_io = record { base_address = 8192; base_interrupt = 24 }

abbrev timer : InterruptSourceOverride
timer = record { isa_source = 0; global_system_interrupt = 2 }

abbrev board : Apic
board = record { interrupt_source_overrides = timer ∷ []; io_apics = first_io ∷ second_io ∷ [] }

-- The I/O APICs in the opposite order.
abbrev swapped : Apic
swapped = record { interrupt_source_overrides = []; io_apics = second_io ∷ first_io ∷ [] }

flag_setters_example :
    SetsOrFlips 11 logical_mode set_logical_mode 0 false
    × SetsOrFlips 13 low_is_active set_low_is_active 0 false
    × SetsOrFlips 15 level_sensitive set_level_sensitive 0 false
    × SetsOrFlips 16 masked set_masked 0 false
flag_setters_example = flag_setters 0 false

get_interrupt_ioapic-IsChosen_example :
    (idx : ℕ) × (get_interrupt_ioapic board 30 ≡ ret idx) × IsChosen board.io_apics 30 first_io idx
get_interrupt_ioapic-IsChosen_example =
    get_interrupt_ioapic-IsChosen board 30 first_io (second_io ∷ []) refl

abbrev count_register : ℕ → ℕ
count_register r = 0x170000

-- A device that keeps its registers, 23 entries.
abbrev device : Machine
device = record {
  port_value = λ past w port. 0;
  mem_value = λ past a. content 4096 count_register past (selected 4096 past);
  sized_value = λ past size a. 0;
}

redir_entry-set_redir_entry_example :
    (log : List Event) × ((set_redir_entry first_io 3 0x1FFFF >>= λ done. redir_entry first_io 3)
        device []
      ≡ ret (0x1FFFF, log))
redir_entry-set_redir_entry_example =
    redir_entry-set_redir_entry device first_io count_register (λ past. refl) (omega arith) [] 3
      0x1FFFF (omega arith) (omega arith) (omega arith)

set_fields_lem_example :
    ((e' : ℕ) × (set_delivery_mode 0x30 nm_interrupt ≡ ret e')
      × (mode_field e' ≡ bit_or (7 - mode_field 0x30) 4)
      × ((j : ℕ) → (j < 8) ⊎ (11 ≤ j) → test_bit e' j ≡ test_bit 0x30 j))
    × (vector (set_vector 0x30 0x41) ≡ bit_or (vector 0x30) 0x41)
    × ((j : ℕ) → 8 ≤ j → test_bit (set_vector 0x30 0x41) j ≡ test_bit 0x30 j)
set_fields_lem_example = set_fields_lem 0x30 nm_interrupt 4 0x41 refl (omega arith)

board_first : get_interrupt_ioapic board (get_interrupt_source board 1) ≡ ret 0
unfolding get_interrupt_ioapic search_ioapic get_interrupt_source find_source
board_first = refl

get_entry-set_up_entry_example :
    (entry : ℕ) × (log : List Event) × ((set_up_entry board 1 33 >>= λ done. get_entry board 1)
        device []
      ≡ ret (entry, log))
    × (vector entry ≡ bit_or (vector (held 4096 count_register [] 1)) 33)
    × (masked entry ≡ not (masked (held 4096 count_register [] 1)))
unfolding get_interrupt_source find_source
get_entry-set_up_entry_example =
    get_entry-set_up_entry board 1 0 first_io board_first refl device count_register (λ past. refl)
      (omega arith) (omega arith) [] 33 (omega arith) (omega arith)

calls-redir_entry_iter_example :
    (this' : RedirEntryIter) × (log : List Event) × (calls 25 (redir_entry_iter first_io) device []
      ≡ ret ((answers count_register 25 0, this'), log))
calls-redir_entry_iter_example =
    calls-redir_entry_iter device first_io count_register count_register (λ past. refl)
      (omega arith) (omega arith) 25 [] (λ r. refl)
