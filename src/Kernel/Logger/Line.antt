-- ===== src/Kernel/Logger/Line.antt =====
-- The line that `Logger::log` of src/logger.rs sends for a record.
use capucho_os.Kernel.Logger.{print_file, log_record, Record, serial_print, print_line}
use capucho_os.Base.{Run, sym, ap, ◌∙◌, [], ret, List, ◌++◌, none, ◌≡◌, refl, ◌∷◌, Option, some, ℕ}
use capucho_os.Base.Io.{Event, Machine, serial_sent, ◌>>=◌, ◌>>◌}

-- The bytes sent in turn, after the log `past`.
abbrev pub sent : List Event → List ℕ → List Event
sent past [] = past
sent past (b ∷ bytes) = sent (serial_sent b ∷ past) bytes

pub serial_print-sent :
    (bytes : List ℕ) (mach : Machine) (past : List Event)
    → serial_print bytes mach past ≡ ret (tt, sent past bytes)
unfolding serial_print
serial_print-sent [] mach past = refl
serial_print-sent (b ∷ bytes) mach past = serial_print-sent bytes mach (serial_sent b ∷ past)

-- The place of the record, where it is known.
abbrev pub place_text : Option (List ℕ) → Option (List ℕ) → List ℕ
place_text none line = []
place_text (some file) none = b'[' ∷ file ++ b']' ∷ []
place_text (some file) (some line) = b'[' ∷ file ++ (b':' ∷ line ++ b']' ∷ [])

abbrev pub record_text : Record → List ℕ
record_text r =
    (b'[' ∷ r.level ++ b']' ∷ b'[' ∷ r.target ++ b']' ∷ [])
    ++ (place_text r.file r.line ++ (r.args ++ b'\n' ∷ []))

pub sent-append :
    (past : List Event) (xs ys : List ℕ) → sent past (xs ++ ys) ≡ sent (sent past xs) ys
sent-append past [] ys = refl
sent-append past (x ∷ xs) ys = sent-append (serial_sent x ∷ past) xs ys

sent_three :
    (past : List Event) (xs ys zs : List ℕ)
    → sent (sent (sent past xs) ys) zs ≡ sent past (xs ++ (ys ++ zs))
sent_three past xs ys zs = sym (sent-append past xs (ys ++ zs) ∙ sent-append (sent past xs) ys zs)

done_with :
    {l m : List Event} → l ≡ m → ◌≡◌ {A = Run (Unit {0} × List Event)} (ret (tt, l)) (ret (tt, m))
done_with e = ap (λ l. ret (tt, l)) e

print_file-sent :
    (file line : Option (List ℕ)) (mach : Machine) (past : List Event)
    → print_file file line mach past ≡ ret (tt, sent past (place_text file line))
unfolding print_file print_line
print_file-sent none line mach past = refl
print_file-sent (some file) none mach past = rw (
  ◌>>◌,
  ◌>>=◌,
  serial_print-sent (b'[' ∷ file) mach past,
  serial_print-sent (b']' ∷ []) mach (sent past (b'[' ∷ file)),
  sent-append past (b'[' ∷ file) (b']' ∷ []),
)
print_file-sent (some file) (some line) mach past =
    rw
      (
        ◌>>◌,
        ◌>>=◌,
        serial_print-sent (b'[' ∷ file) mach past,
        serial_print-sent (b':' ∷ line) mach (sent past (b'[' ∷ file)),
        serial_print-sent (b']' ∷ []) mach (sent (sent past (b'[' ∷ file)) (b':' ∷ line)),
      )
      (done_with (sent_three past (b'[' ∷ file) (b':' ∷ line) (b']' ∷ [])))

-- The logger sends one line for a record.
pub log_record-sent :
    (r : Record) (mach : Machine) (past : List Event)
    → log_record r mach past ≡ ret (tt, sent past (record_text r))
unfolding log_record
log_record-sent r mach past =
    let head = b'[' ∷ r.level ++ b']' ∷ b'[' ∷ r.target ++ b']' ∷ [] in
    let place = place_text r.file r.line in
    let rest = r.args ++ b'\n' ∷ [] in
    rw
      (
        ◌>>◌,
        ◌>>=◌,
        serial_print-sent head mach past,
        print_file-sent r.file r.line mach (sent past head),
        serial_print-sent rest mach (sent (sent past head) place),
      )
      (done_with (sent_three past head place rest))
