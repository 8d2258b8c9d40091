-- ===== src/Acpi/Tables/Boot.antt =====
-- `bios_get_acpi` of src/acpi.rs: the DSDT and the SSDTs.
use capucho_os.Acpi.Handler.Refs.{IsCounted}
use capucho_os.Memory.Paging.{PagingContext}
use capucho_os.Acpi.Power.{AmlCrate}
use capucho_os.Memory.External.{Mapper, Crates}
use capucho_os.Base.Io.Inversion.{>>=-returned}
use capucho_os.Acpi.Tables.{
  AmlTable, Acpi, load_ssdts, load_dsdt, bios_get_acpi, finish, TableCrates, load_tables,
}
use capucho_os.Acpi.Tables.Parsed.{
  load_table-returned, load_ssdts-Parses, KeepsCounts, IsLow, Parses,
}
use capucho_os.Base.{
  inl, ◌≡◌, ◌∷◌, some, panics-ne-ret, ret-injective, Option, unwrap_none, sym, or_panic, List, ret,
  All, subst, none, refl,
}
use capucho_os.Base.Io.{Event, lift, Machine, Io, ◌>>=◌}
use capucho_os.Acpi.Handler.{Handler, new}

module _ (crates : Crates) (mapper : Mapper) (aml : AmlCrate)
    (tables : TableCrates crates mapper aml) where
  abbrev pub with_dsdt : Option AmlTable → List AmlTable → List AmlTable
  with_dsdt none ssdts = ssdts
  with_dsdt (some dsdt) ssdts = dsdt ∷ ssdts

  -- The tables in the order in which they are parsed.
  abbrev pub tables_in : tables.Tables → List AmlTable
  tables_in found = with_dsdt (tables.dsdt found) (tables.ssdts found)

  module _ (mach : Machine) (keeps : KeepsCounts crates mapper aml tables mach) where
    load_dsdt-returned :
        (dsdt : Option AmlTable) (context : tables.Interpreter) (this : Handler crates mapper)
        (past log : List Event) (r : tables.Interpreter × Handler crates mapper)
        (ssdts : List AmlTable)
        → IsCounted this.mapping_refs
        → All (IsLow crates mapper aml tables) (with_dsdt dsdt ssdts)
        → load_dsdt crates mapper aml tables context this dsdt mach past ≡ ret (r, log)
        → IsCounted r.1.mapping_refs
          × All (IsLow crates mapper aml tables) ssdts
          × ((end : tables.Interpreter × Handler crates mapper × List Event)
              → Parses crates mapper aml tables mach ssdts (r.0, r.1, log) end
              → Parses crates mapper aml tables mach
                  (with_dsdt dsdt ssdts)
                  (context, this, past)
                  end)
    unfolding load_dsdt
    load_dsdt-returned none context this past log r ssdts h low e =
        let same : ((context, this), past) ≡ (r, log) = ret-injective e in
        (
          subst (λ p. IsCounted p.0.1.mapping_refs) same h,
          low,
          λ end q.
              subst (λ p. Parses crates mapper aml tables mach ssdts (p.0.0, p.0.1, p.1) end)
                (sym same) q,
        )
    load_dsdt-returned (some dsdt) context this past log r ssdts h low e =
        let (h', extend) =
          load_table-returned crates mapper aml tables mach keeps context this dsdt past log r h
            low.0 e in
        (h', low.1, λ end q. extend ssdts end q)

    load_tables-Parses :
        (found : tables.Tables) (this : Handler crates mapper) (past log : List Event)
        (r : tables.Interpreter × Handler crates mapper)
        → IsCounted this.mapping_refs
        → All (IsLow crates mapper aml tables) (tables_in found)
        → load_tables crates mapper aml tables found this mach past ≡ ret (r, log)
        → Parses crates mapper aml tables mach
            (tables_in found)
            (tables.new_interpreter, this, past)
            (r.0, r.1, log)
    unfolding load_tables
    load_tables-Parses found this past log r h low e =
        let (one, mid, e1, k1) =
          >>=-returned
            (load_dsdt crates mapper aml tables tables.new_interpreter this (tables.dsdt found))
            (λ one. load_ssdts crates mapper aml tables one.0 one.1 (tables.ssdts found)) mach past
            e in
        let (h', low', extend) =
          load_dsdt-returned (tables.dsdt found) tables.new_interpreter this past mid one
            (tables.ssdts found) h low e1 in
        extend (r.0, r.1, log)
          (load_ssdts-Parses crates mapper aml tables mach keeps (tables.ssdts found) one.0 one.1
            mid log r h' low' k1)

    after_search :
        (paging : PagingContext crates mapper) (past log : List Event)
        (acpi : Acpi crates mapper aml tables)
        → ((found : tables.Tables) → All (IsLow crates mapper aml tables) (tables_in found))
        → (mid : List Event) (o : Option tables.Tables) (this : Handler crates mapper)
        → tables.search_for_rsdp_bios (new crates mapper paging) mach past ≡ ret ((o, this), mid)
        → (lift (or_panic unwrap_none o) >>= λ found.
              load_tables crates mapper aml tables found this >>= λ r.
              finish crates mapper aml tables found r.0 r.1)
            mach mid
          ≡ ret (acpi, log)
        → (found : tables.Tables) × (this : Handler crates mapper) × (mid : List Event)
          × (end : tables.Interpreter × Handler crates mapper × List Event)
          × (tables.search_for_rsdp_bios (new crates mapper paging) mach past
              ≡ ret ((some found, this), mid))
          × Parses crates mapper aml tables mach
              (tables_in found)
              (tables.new_interpreter, this, mid)
              end
    after_search paging past log acpi low mid none this e k = absurd (panics-ne-ret k)
    after_search paging past log acpi low mid (some found) this e k =
        let (r, last, e2, k2) =
          >>=-returned (load_tables crates mapper aml tables found this)
            (λ r. finish crates mapper aml tables found r.0 r.1) mach mid k in
        let h =
          keeps.search_keeps (new crates mapper paging) past mid (some found) this
            (record { once = tt; positive = λ key. inl refl }) e in
        (
          found,
          this,
          mid,
          (r.0, r.1, last),
          e,
          load_tables-Parses found this mid last r h (low found) e2,
        )

    -- When `bios_get_acpi` returns, and no table that the crate finds ends above 2 ^ 47: the crate has
    -- found the tables, and the DSDT, if there is one, and then every SSDT was parsed, in this order,
    -- each by a call of the crate that succeeds, at a handler that has all bytes of the table mapped.
    pub bios_get_acpi-Parses :
        (paging : PagingContext crates mapper) (past log : List Event)
        (acpi : Acpi crates mapper aml tables)
        → ((found : tables.Tables) → All (IsLow crates mapper aml tables) (tables_in found))
        → bios_get_acpi crates mapper aml tables paging mach past ≡ ret (acpi, log)
        → (found : tables.Tables) × (this : Handler crates mapper) × (mid : List Event)
          × (end : tables.Interpreter × Handler crates mapper × List Event)
          × (tables.search_for_rsdp_bios (new crates mapper paging) mach past
              ≡ ret ((some found, this), mid))
          × Parses crates mapper aml tables mach
              (tables_in found)
              (tables.new_interpreter, this, mid)
              end
    unfolding bios_get_acpi
    bios_get_acpi-Parses paging past log acpi low e =
        let loaded : tables.Tables → Handler crates mapper → Io (Acpi crates mapper aml tables) =
          λ found this. load_tables crates mapper aml tables found this >>= λ r.
          finish crates mapper aml tables found r.0 r.1 in
        let (r, mid, e1, k1) =
          >>=-returned (tables.search_for_rsdp_bios (new crates mapper paging))
            (λ r. lift (or_panic unwrap_none r.0) >>= λ found. loaded found r.1) mach past e in
        after_search paging past log acpi low mid r.0 r.1 e1 k1
