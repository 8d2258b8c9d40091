-- ===== src/Acpi/Tables/Parsed.antt =====
-- `bios_get_acpi` of src/acpi.rs parses a table only when all of its bytes are mapped.
use capucho_os.Acpi.Power.{AmlCrate}
use capucho_os.Acpi.Handler.Counts.{refs_of}
use capucho_os.Acpi.Handler.Refs.{IsCounted}
use capucho_os.Acpi.Handler.{Handler}
use capucho_os.Memory.External.{Crates, Mapper}
use capucho_os.Base.Io.Inversion.{lift-returned, >>=-returned}
use capucho_os.Acpi.Tables.Loaded.{one_in, map_table_counts}
use capucho_os.Acpi.Tables.{
  load_ssdts, parse_failed, [], load_table, map_table, TableCrates, AmlTable,
}
use capucho_os.Base.{
  panics-ne-ret, none, subst, All, sym, ap, ret-injective, or_panic, ◌*◌, ◌≤◌, arith, ◌^◌, ◌/◌,
  true, ◌<◌, ◌%◌, ◌≡◌, ◌∷◌, ◌+◌, ret, List, ◌==◌, Option, leb, some, ℕ,
}
use capucho_os.Base.Io.{Io, pure, Machine, lift, Event, ◌>>=◌}
use capucho_os.Acpi.Accesses.Counted.{frame_of}

one_in-frame_of :
    (a size k : ℕ) → k < size → one_in (a / 4096) ((a + size) / 4096) (frame_of (a + k)) ≡ 1
one_in-frame_of a size k h =
    let whole : ((a + k) / 4096 * 4096 % 4096 == 0) ≡ true = ground arith in
    let same : (a + k) / 4096 * 4096 / 4096 ≡ (a + k) / 4096 = omega arith in
    let low : leb (a / 4096) ((a + k) / 4096) ≡ true = ground arith in
    let high : leb ((a + k) / 4096) ((a + size) / 4096) ≡ true = ground arith in
    rw (whole, same, low, high)

module _ (crates : Crates) (mapper : Mapper) (aml : AmlCrate)
    (tables : TableCrates crates mapper aml) where
  -- All bytes of the table are mapped.
  abbrev pub HasBytes : Handler crates mapper → AmlTable → Type 0
  HasBytes this table =
      (k : ℕ) → k < table.length → 1 ≤ refs_of crates mapper this (frame_of (table.address + k))

  -- The tables are parsed in turn, each at a handler that has its bytes mapped.
  pub data Parses (mach : Machine)
      : List AmlTable
        → tables.Interpreter × Handler crates mapper × List Event
        → tables.Interpreter × Handler crates mapper × List Event
        → Type 0 where
    no_table : {s : tables.Interpreter × Handler crates mapper × List Event} → Parses mach [] s s
    table_parsed :
        {context next : tables.Interpreter} {this mapped_handler after : Handler crates mapper}
        {past mid : List Event} {table : AmlTable} {rest : List AmlTable}
        {end : tables.Interpreter × Handler crates mapper × List Event}
        → HasBytes mapped_handler table
        → tables.parse_table context table mapped_handler mach past ≡ ret ((some next, after), mid)
        → Parses mach rest (next, after, mid) end
        → Parses mach (table ∷ rest) (context, this, past) end

  -- The crates keep the counts of the handler in order, which they use by its methods alone.
  pub record KeepsCounts (mach : Machine) : Type 0 where
    pub search_keeps :
        (this : Handler crates mapper) (past log : List Event) (o : Option tables.Tables)
        (next : Handler crates mapper)
        → IsCounted this.mapping_refs
        → tables.search_for_rsdp_bios this mach past ≡ ret ((o, next), log)
        → IsCounted next.mapping_refs
    pub parse_keeps :
        (context : tables.Interpreter) (table : AmlTable) (this : Handler crates mapper)
        (past log : List Event) (o : Option tables.Interpreter) (next : Handler crates mapper)
        → IsCounted this.mapping_refs
        → tables.parse_table context table this mach past ≡ ret ((o, next), log)
        → IsCounted next.mapping_refs

  -- The table ends below 2 ^ 47.
  abbrev pub IsLow : AmlTable → Type 0
  IsLow table = table.address + table.length < 2 ^ 47

  map_table-HasBytes :
      (this t : Handler crates mapper) (table : AmlTable)
      → IsCounted this.mapping_refs
      → IsLow table
      → map_table crates mapper this table ≡ ret t
      → IsCounted t.mapping_refs × HasBytes t table
  map_table-HasBytes this t table h low e =
      let (h', up) = map_table_counts crates mapper this t table h low e in
      (
        h',
        λ k p. omega (
          arith,
          up (frame_of (table.address + k)),
          one_in-frame_of table.address table.length k p,
        ),
      )

  module _ (mach : Machine) (keeps : KeepsCounts mach) where
    -- The result of the crate, and its `expect`.
    parsed-returned :
        (context : tables.Interpreter) (this t : Handler crates mapper) (table : AmlTable)
        (past mid log : List Event) (o : Option tables.Interpreter) (after : Handler crates mapper)
        (r : tables.Interpreter × Handler crates mapper)
        → IsCounted t.mapping_refs
        → HasBytes t table
        → tables.parse_table context table t mach past ≡ ret ((o, after), mid)
        → (lift (or_panic (parse_failed crates mapper aml tables) o) >>= λ next. pure (next, after))
            mach mid
          ≡ ret (r, log)
        → IsCounted r.1.mapping_refs
          × ((rest : List AmlTable) (end : tables.Interpreter × Handler crates mapper × List Event)
              → Parses mach rest (r.0, r.1, log) end
              → Parses mach (table ∷ rest) (context, this, past) end)
    parsed-returned context this t table past mid log none after r h bytes e k =
        absurd (panics-ne-ret k)
    parsed-returned context this t table past mid log (some next) after r h bytes e k =
        let same : ((next, after), mid) ≡ (r, log) = ret-injective k in
        let plan : ◌≡◌ {A = tables.Interpreter × Handler crates mapper × List Event}
            (next, after, mid) (r.0, r.1, log) =
          ap (λ p. (p.0.0, p.0.1, p.1)) same in
        (
          subst (λ p. IsCounted p.1.mapping_refs) plan
              (keeps.parse_keeps context table t past mid (some next) after h e),
          λ rest end q. table_parsed bytes e (subst (λ s. Parses mach rest s end) (sym plan) q),
        )

    -- One table: it is parsed at a handler that has its bytes.
    pub load_table-returned :
        (context : tables.Interpreter) (this : Handler crates mapper) (table : AmlTable)
        (past log : List Event) (r : tables.Interpreter × Handler crates mapper)
        → IsCounted this.mapping_refs
        → IsLow table
        → load_table crates mapper aml tables context this table mach past ≡ ret (r, log)
        → IsCounted r.1.mapping_refs
          × ((rest : List AmlTable) (end : tables.Interpreter × Handler crates mapper × List Event)
              → Parses mach rest (r.0, r.1, log) end
              → Parses mach (table ∷ rest) (context, this, past) end)
    unfolding load_table
    load_table-returned context this table past log r h low e =
        let last : Option tables.Interpreter × Handler crates mapper
            → Io (tables.Interpreter × Handler crates mapper) =
          λ parsed. lift (or_panic (parse_failed crates mapper aml tables) parsed.0) >>= λ next.
          pure (next, parsed.1) in
        let (t, mid1, e1, k1) =
          >>=-returned (lift (map_table crates mapper this table))
            (λ t. tables.parse_table context table t >>= last) mach past e in
        let (run, same) = lift-returned (map_table crates mapper this table) mach past e1 in
        let (h1, bytes) = map_table-HasBytes this t table h low run in
        let (parsed, mid2, e2, k2) =
          >>=-returned (tables.parse_table context table t) last mach mid1 k1 in
        parsed-returned context this t table past mid2 log parsed.0 parsed.1 r h1 bytes
          (subst (λ l. tables.parse_table context table t mach l ≡ ret (parsed, mid2)) (sym same)
            e2)
          k2

    pub load_ssdts-Parses :
        (ssdts : List AmlTable) (context : tables.Interpreter) (this : Handler crates mapper)
        (past log : List Event) (r : tables.Interpreter × Handler crates mapper)
        → IsCounted this.mapping_refs
        → All IsLow ssdts
        → load_ssdts crates mapper aml tables context this ssdts mach past ≡ ret (r, log)
        → Parses mach ssdts (context, this, past) (r.0, r.1, log)
    unfolding load_ssdts
    load_ssdts-Parses [] context this past log r h low e =
        let same : ((context, this), past) ≡ (r, log) = ret-injective e in
        subst (λ p. Parses mach [] (context, this, past) (p.0.0, p.0.1, p.1)) same no_table
    load_ssdts-Parses (ssdt ∷ rest) context this past log r h low e =
        let (one, mid, e1, k1) =
          >>=-returned (load_table crates mapper aml tables context this ssdt)
            (λ next. load_ssdts crates mapper aml tables next.0 next.1 rest) mach past e in
        let (h', extend) = load_table-returned context this ssdt past mid one h low.0 e1 in
        extend rest (r.0, r.1, log) (load_ssdts-Parses rest one.0 one.1 mid log r h' low.1 k1)
