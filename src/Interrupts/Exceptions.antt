-- ===== src/Interrupts/Exceptions.antt =====
-- The handlers of exceptions in src/interrupts/mod.rs, and `hlt_loop` of src/lib.rs. What `core::fmt`
-- writes for a value is a parameter.
pub mod Fault
use capucho_os.Vga.{Writer}
use capucho_os.Memory.Paging.{PagingContext}
use capucho_os.Memory.External.{Mapper, Crates}
use capucho_os.Vga.Print.{println}
use capucho_os.Base.{zero, [], message, suc, List, Panic, Option, Run, none, some, ◌∷◌, ret, ℕ}
use capucho_os.Base.Text.{codes}
use capucho_os.Base
use capucho_os.Base.Io.{log, lift, Io, pure, panic, halt, ◌>>=◌, ◌>>◌}

-- The first `n` rounds of the loop, which has no end.
unfoldable pub hlt_loop : ℕ → Io (Unit {0})
hlt_loop zero = pure tt
hlt_loop (suc n) = log halt >> hlt_loop n

-- `InterruptStackFrame` of the crate `x86_64`.
pub record StackFrame : Type 0 where
  pub instruction_pointer : ℕ
  pub code_segment : ℕ
  pub cpu_flags : ℕ
  pub stack_pointer : ℕ
  pub stack_segment : ℕ

-- `TranslateResult` of the crate `x86_64`, with the fields that the source reads.
pub data TranslateResult (Flags : Type 0) : Type 0 where
  mapped : ℕ → Flags → TranslateResult Flags
  not_mapped : TranslateResult Flags
  invalid_frame_address : ℕ → TranslateResult Flags

-- What the handlers use of the crate `x86_64` and of `core::fmt` for its types.
pub record FaultCrates (mapper : Mapper) : Type 1 where
  pub Flags : Type 0
  pub translate : mapper.Table → ℕ → TranslateResult Flags
  -- `{:#X}` of a number, `{:?}` of an address, of an error code, of page flags and of
  -- `RFlags::from_bits_truncate`, and `{:#?}` of the frame.
  pub hex_text : ℕ → List ℕ
  pub address_text : ℕ → List ℕ
  pub error_text : ℕ → List ℕ
  pub flags_text : Flags → List ℕ
  pub rflags_text : ℕ → List ℕ
  pub frame_text : StackFrame → List ℕ

abbrev pub double_fault_panic : Panic
double_fault_panic = message "EXCEPTION: DOUBLE FAULT"

module _ (crates : Crates) (mapper : Mapper) (x86 : FaultCrates mapper) where
  -- What `stack_frame_display` writes.
  unfoldable pub stack_frame_display : StackFrame → List (List ℕ)
  stack_frame_display frame =
      codes "IP: "
      ∷ x86.hex_text frame.instruction_pointer
      ∷ codes "\n"
      ∷ codes "CS: "
      ∷ x86.hex_text frame.code_segment
      ∷ codes "\n"
      ∷ codes "SP: "
      ∷ x86.hex_text frame.stack_pointer
      ∷ codes "\n"
      ∷ codes "SS: "
      ∷ x86.hex_text frame.stack_segment
      ∷ codes "\n"
      ∷ codes "RFLAGS: "
      ∷ x86.rflags_text frame.cpu_flags
      ∷ []

  unfoldable pub breakpoint_handler : StackFrame → Writer → Run Writer
  breakpoint_handler stack_frame screen =
      println screen (codes "EXCEPTION: BREAKPOINT\n" ∷ x86.frame_text stack_frame ∷ [])

  -- The match on what the mapper finds.
  unfoldable pub print_translation : TranslateResult x86.Flags → Writer → Run Writer
  print_translation (mapped frame flags) screen =
      Base.◌>>=◌ (println screen (codes "FRAME: " ∷ x86.hex_text frame ∷ codes " " ∷ []))
        (λ w. println w (codes "FLAGS: " ∷ x86.flags_text flags ∷ codes " " ∷ []))
  print_translation not_mapped screen = println screen (codes "NOT MAPPED" ∷ [])
  print_translation (invalid_frame_address address) screen =
      println screen (codes "INVALID PAGE TABLE" ∷ [])

  -- `paging` is none while there is no paging context, or when its lock is taken.
  unfoldable pub print_paging : Option (PagingContext crates mapper) → ℕ → Writer → Run Writer
  print_paging none addr screen = ret screen
  print_paging (some ctx) addr screen = print_translation (x86.translate ctx.table addr) screen

  -- The part before `hlt_loop`; `addr` is what `Cr2::read` gives.
  unfoldable pub print_fault :
      StackFrame → ℕ → ℕ → Option (PagingContext crates mapper) → Writer → Run Writer
  print_fault stack_frame error_code addr paging screen =
      Base.◌>>=◌ (println screen (codes "EXCEPTION: PAGE FAULT" ∷ [])) (λ first.
        Base.◌>>=◌ (println first (codes "Accessed Address: " ∷ x86.address_text addr ∷ []))
          (λ second.
            Base.◌>>=◌ (println second (codes "Error Code: " ∷ x86.error_text error_code ∷ []))
              (λ third.
                Base.◌>>=◌ (println third (stack_frame_display stack_frame))
                  (λ fourth. print_paging paging addr fourth))))

  -- With `n` rounds of the loop at the end.
  unfoldable pub page_fault_handler :
      StackFrame → ℕ → ℕ → Option (PagingContext crates mapper) → Writer → ℕ → Io Writer
  page_fault_handler stack_frame error_code addr paging screen n = do
    shown ← lift (print_fault stack_frame error_code addr paging screen)
    hlt_loop n
    pure shown

  -- The message goes on with the text of the frame, which is left out.
  unfoldable pub double_fault_handler : StackFrame → ℕ → Io (Unit {0})
  double_fault_handler stack_frame error_code = panic double_fault_panic
