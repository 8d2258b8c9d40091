-- ===== src/Interrupts/Exceptions/Fault.antt =====
-- What `page_fault_handler` of src/interrupts/mod.rs leaves on the screen.
use capucho_os.Apic.Registers.{next}
use capucho_os.Vga.{Writer}
use capucho_os.Memory.Paging.{PagingContext}
use capucho_os.Memory.External.{Mapper, Crates}
use capucho_os.Vga.Lines.{GivesShown, Shows, Text}
use capucho_os.Vga.Print.{type_lines, println-Shows}
use capucho_os.Interrupts.Exceptions.{
  breakpoint_handler, page_fault_handler, codes, mapped, hlt_loop, TranslateResult, StackFrame,
  print_paging, invalid_frame_address, print_translation, FaultCrates, print_fault,
  stack_frame_display,
}
use capucho_os.Base.{[], zero, ◌≡◌, suc, List, Option, Run, none, some, ◌∷◌, ret, refl, ℕ}
use capucho_os.Base
use capucho_os.Interrupts.Exceptions.{mapped, not_mapped, invalid_frame_address}
use capucho_os.Base.Io.{Event, Machine, halt, ◌>>=◌, ◌>>◌}

-- `n` rounds of the loop are `n` times `hlt`.
abbrev pub halts : ℕ → List Event → List Event
halts zero past = past
halts (suc n) past = halts n (halt ∷ past)

pub hlt_loop-halts :
    (n : ℕ) (mach : Machine) (past : List Event) → hlt_loop n mach past ≡ ret (tt, halts n past)
unfolding hlt_loop
hlt_loop-halts zero mach past = refl
hlt_loop-halts (suc n) mach past = hlt_loop-halts n mach (halt ∷ past)

-- A run that shows a text, and then one that shows more.
then-GivesShown :
    {m : Run Writer} {f : Writer → Run Writer} {color : ℕ} {t u : Text}
    → GivesShown m color t
    → ((w : Writer) → Shows w color t → GivesShown (f w) color u)
    → GivesShown (Base.◌>>=◌ m f) color u
then-GivesShown (w, run, h) next = rw run (next w h)

module _ (crates : Crates) (mapper : Mapper) (x86 : FaultCrates mapper) where
  -- The lines on the translation of the address.
  abbrev pub translation_lines : TranslateResult x86.Flags → List (List (List ℕ))
  translation_lines (mapped frame flags) =
      (codes "FRAME: " ∷ x86.hex_text frame ∷ codes " " ∷ [])
      ∷ (codes "FLAGS: " ∷ x86.flags_text flags ∷ codes " " ∷ [])
      ∷ []
  translation_lines not_mapped = (codes "NOT MAPPED" ∷ []) ∷ []
  translation_lines (invalid_frame_address address) = (codes "INVALID PAGE TABLE" ∷ []) ∷ []

  abbrev pub paging_lines : Option (PagingContext crates mapper) → ℕ → List (List (List ℕ))
  paging_lines none addr = []
  paging_lines (some ctx) addr = translation_lines (x86.translate ctx.table addr)

  -- The whole report.
  abbrev pub fault_lines :
      StackFrame → ℕ → ℕ → Option (PagingContext crates mapper) → List (List (List ℕ))
  fault_lines frame error_code addr paging =
      (codes "EXCEPTION: PAGE FAULT" ∷ [])
      ∷ (codes "Accessed Address: " ∷ x86.address_text addr ∷ [])
      ∷ (codes "Error Code: " ∷ x86.error_text error_code ∷ [])
      ∷ stack_frame_display crates mapper x86 frame
      ∷ paging_lines paging addr

  print_translation-Shows :
      (r : TranslateResult x86.Flags) (w : Writer) (color : ℕ) (t : Text)
      → Shows w color t
      → GivesShown
          (print_translation crates mapper x86 r w)
          color
          (type_lines color t (translation_lines r))
  unfolding print_translation
  print_translation-Shows (mapped frame flags) w color t h =
      then-GivesShown (println-Shows w color t _ h) (λ v k. println-Shows v color _ _ k)
  print_translation-Shows not_mapped w color t h = println-Shows w color t _ h
  print_translation-Shows (invalid_frame_address address) w color t h = println-Shows w color t _ h

  print_paging-Shows :
      (paging : Option (PagingContext crates mapper)) (addr : ℕ) (w : Writer) (color : ℕ) (t : Text)
      → Shows w color t
      → GivesShown
          (print_paging crates mapper x86 paging addr w)
          color
          (type_lines color t (paging_lines paging addr))
  unfolding print_paging
  print_paging-Shows none addr w color t h = (w, refl, h)
  print_paging-Shows (some ctx) addr w color t h =
      print_translation-Shows (x86.translate ctx.table addr) w color t h

  print_fault-Shows :
      (frame : StackFrame) (error_code addr : ℕ) (paging : Option (PagingContext crates mapper))
      (w : Writer) (color : ℕ) (t : Text)
      → Shows w color t
      → GivesShown
          (print_fault crates mapper x86 frame error_code addr paging w)
          color
          (type_lines color t (fault_lines frame error_code addr paging))
  unfolding print_fault
  print_fault-Shows frame error_code addr paging w color t h =
      then-GivesShown (println-Shows w color t _ h) (λ w1 h1.
        then-GivesShown (println-Shows w1 color _ _ h1) (λ w2 h2.
          then-GivesShown (println-Shows w2 color _ _ h2) (λ w3 h3.
            then-GivesShown (println-Shows w3 color _ _ h3)
              (λ w4 h4. print_paging-Shows paging addr w4 color _ h4))))

  -- On a writer that shows the end of a text, whatever the stack frame, the error code and the address
  -- are: the handler of the page fault does not panic, it shows the report, in which the lines on the
  -- frame and the flags stand just if the paging context can be locked and the address is mapped, and
  -- then every round of its loop is a `hlt`; the handler of the breakpoint shows its line.
  pub page_fault_handler-Shows :
      (frame : StackFrame) (error_code addr : ℕ) (paging : Option (PagingContext crates mapper))
      (screen : Writer) (color : ℕ) (t : Text) (n : ℕ) (mach : Machine) (past : List Event)
      → Shows screen color t
      → ((w : Writer) × (page_fault_handler crates mapper x86 frame error_code addr paging screen n
              mach past
            ≡ ret (w, halts n past))
          × Shows w color (type_lines color t (fault_lines frame error_code addr paging)))
        × GivesShown (breakpoint_handler crates mapper x86 frame screen) color (
            type_lines color t ((codes "EXCEPTION: BREAKPOINT\n" ∷ x86.frame_text frame ∷ []) ∷ []))
  unfolding page_fault_handler breakpoint_handler
  page_fault_handler-Shows frame error_code addr paging screen color t n mach past h =
      let (w, run, h') = print_fault-Shows frame error_code addr paging screen color t h in
      ((w, rw (◌>>=◌, ◌>>◌, run, hlt_loop-halts n mach past), h'), println-Shows screen color t _ h)
