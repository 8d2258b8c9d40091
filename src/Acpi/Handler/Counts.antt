-- ===== src/Acpi/Handler/Counts.antt =====
-- The counts that `map` and `unmap` of `Handler` in src/acpi.rs keep.
use capucho_os.Base.{
  ℕ, ◌+◌, ◌-◌, ◌^◌, ◌≡◌, ◌≤◌, ◌⊎◌, inl, inr, refl, true, false, Option, none, some, Run, ret,
  panics, Panic, overflow, index_out_of_bounds, ◌>>=◌, ltb, ◌==◌, if◌then◌else◌, arith, Bool-cases,
  ap, ◌∙◌,
}
use capucho_os.Base.Dict.{get, put}
use capucho_os.Memory.External.{Crates, Mapper, MapResult, ok, err}
use capucho_os.Memory.Paging.{UnmapGuard, PagingContext, mmap_dev}
use capucho_os.Memory.Paging
use capucho_os.Acpi.Handler.{
  Handler, first_map, map_entry, map, last_unmap, unmap_entry, unmap, not_mapped, failed_to_unmap,
}
use capucho_os.Memory.Frames.Bitmap.{deallocate_frame, mark_unused}
use capucho_os.Acpi.Handler.Refs.{
  IsCounted, count, count-put, count-remove, put-IsCounted, remove-IsCounted,
}

module _ (crates : Crates) (mapper : Mapper) where
  -- How often the frame is mapped, and not unmapped.
  abbrev pub refs_of : Handler crates mapper → ℕ → ℕ
  refs_of this key = count (get this.mapping_refs key)

  -- `t` is `this` but for the count of `key`, which is `n`.
  pub record Recounts (this t : Handler crates mapper) (key n : ℕ) : Type 0 where
    pub counted : IsCounted t.mapping_refs
    pub counts : (j : ℕ) → refs_of t j ≡ (if key == j then n else refs_of this j)

  -- The outcomes of `map`: it counts up, and the page tables change only if the frame was not mapped;
  -- it may panic only if the frame was not mapped or the count does not fit.
  abbrev pub Maps : Handler crates mapper → ℕ → Run (Handler crates mapper) → Type 0
  Maps this key (panics p) = (refs_of this key ≡ 0) ⊎ (2 ^ 64 ≤ refs_of this key + 1)
  Maps this key (ret t) =
      Recounts this t key (refs_of this key + 1)
      × ((refs_of this key ≡ 0) ⊎ (t.context ≡ this.context))

  -- The outcomes of `unmap`: it counts down, and the page tables change only if the count was 1; on a
  -- frame that is not mapped it panics with its message, and otherwise only if the count was 1 and the frame cannot be unmapped or
  -- given back.
  abbrev pub Unmaps : Handler crates mapper → ℕ → Run (Handler crates mapper) → Type 0
  Unmaps this key (panics p) =
      ((refs_of this key ≡ 0) × (p ≡ not_mapped))
      ⊎ ((refs_of this key ≡ 1) × ((p ≡ failed_to_unmap) ⊎ (p ≡ index_out_of_bounds)))
  Unmaps this key (ret t) =
      (1 ≤ refs_of this key)
      × Recounts this t key (refs_of this key - 1)
      × ((refs_of this key ≡ 1) ⊎ (t.context ≡ this.context))

  -- `first_map` after `mmap_dev`.
  first_map-Maps :
      (this : Handler crates mapper) (key : ℕ)
      (m : Run (MapResult UnmapGuard mapper.MapToError × PagingContext crates mapper))
      → IsCounted this.mapping_refs
      → refs_of this key ≡ 0
      → Maps this key (m >>= first_map crates mapper this key)
  unfolding first_map
  first_map-Maps this key (panics p) h z = inl z
  first_map-Maps this key (ret (err e, context)) h z = inl z
  first_map-Maps this key (ret (ok guard, context)) h z = (
    record {
      counted = put-IsCounted this.mapping_refs key 1 guard (omega arith) h;
      counts = λ j. count-put this.mapping_refs key j 1 guard ∙ rw z;
    },
    inl z,
  )

  map_known :
      (this : Handler crates mapper) (key rc : ℕ) (guard : UnmapGuard)
      → get this.mapping_refs key ≡ some (rc, guard)
      → IsCounted this.mapping_refs
      → Maps this key (
          if ltb (rc + 1) (2 ^ 64)
          then ret (record this { mapping_refs = put this.mapping_refs key (rc + 1, guard) })
          else panics overflow)
  map_known this key rc guard e h =
      let n : refs_of this key ≡ rc = ap count e in
      elim (Bool-cases (ltb (rc + 1) (2 ^ 64))) [
        | inl fits ↦ rw fits (
          record {
            counted = put-IsCounted this.mapping_refs key (rc + 1) guard (omega arith) h;
            counts = λ j. count-put this.mapping_refs key j (rc + 1) guard ∙ rw n;
          },
          inr refl,
        )
        | inr big ↦ rw big (inr (ground arith))
      ]

  map_entry-Maps :
      (this : Handler crates mapper) (key : ℕ) (o : Option (ℕ × UnmapGuard))
      → get this.mapping_refs key ≡ o
      → IsCounted this.mapping_refs
      → Maps this key (map_entry crates mapper this key o)
  unfolding map_entry
  map_entry-Maps this key none e h =
      first_map-Maps this key (mmap_dev crates mapper this.context key true) h (ap count e)
  map_entry-Maps this key (some (rc, guard)) e h = map_known this key rc guard e h

  -- Every outcome of `map` on a handler whose counts are at least 1.
  pub map-Maps :
      (this : Handler crates mapper) (key : ℕ)
      → IsCounted this.mapping_refs
      → Maps this key (map crates mapper this key)
  unfolding map
  map-Maps this key h = map_entry-Maps this key (get this.mapping_refs key) refl h

  -- `unmap` of src/memory/mod.rs panics only where the bitmap does not cover the frame.
  Paging_unmap-panics :
      (guard : UnmapGuard) (context : PagingContext crates mapper)
      (o : MapResult (ℕ × mapper.Table) mapper.UnmapError) (p : Panic)
      → mapper.unmap guard.page context.table ≡ o
      → Paging.unmap crates mapper guard context ≡ panics p
      → p ≡ index_out_of_bounds
  unfolding Paging.unmap deallocate_frame mark_unused
  Paging_unmap-panics guard context (err e) p q h = cc (q, h)
  Paging_unmap-panics guard context (ok (frame, table)) p q h = ground arith

  last_unmap-Unmaps :
      (this : Handler crates mapper) (key : ℕ)
      (m : Run (MapResult (Unit {0}) mapper.UnmapError × PagingContext crates mapper))
      → IsCounted this.mapping_refs
      → refs_of this key ≡ 1
      → ((p : Panic) → m ≡ panics p → p ≡ index_out_of_bounds)
      → Unmaps this key (m >>= last_unmap crates mapper this key)
  unfolding last_unmap
  last_unmap-Unmaps this key (panics p) h one bound = inr (one, inr (bound p refl))
  last_unmap-Unmaps this key (ret (err e, context)) h one bound = inr (one, inl refl)
  last_unmap-Unmaps this key (ret (ok done, context)) h one bound = (
    omega arith,
    record {
      counted = remove-IsCounted this.mapping_refs key h;
      counts = λ j. count-remove this.mapping_refs key j h ∙ rw one;
    },
    inl one,
  )

  unmap_entry-Unmaps :
      (this : Handler crates mapper) (key : ℕ) (o : Option (ℕ × UnmapGuard))
      → get this.mapping_refs key ≡ o
      → IsCounted this.mapping_refs
      → Unmaps this key (unmap_entry crates mapper this key o)
  unfolding unmap_entry
  unmap_entry-Unmaps this key none e h = inl (ap count e, refl)
  unmap_entry-Unmaps this key (some (rc, guard)) e h =
      let n : refs_of this key ≡ rc = ap count e in
      let pos : 1 ≤ rc = elim (h.positive key) [
        | inl gone ↦ absurd (cc)
        | inr p ↦ omega (arith, n)
      ] in
      let some_left : (rc == 0) ≡ false = ground arith in
      elim (Bool-cases (rc - 1 == 0)) [
        | inl last ↦
            rw (some_left, last)
              (last_unmap-Unmaps this key (Paging.unmap crates mapper guard this.context) h
                (n ∙ ground arith)
                (λ p q.
                  Paging_unmap-panics guard this.context
                    (mapper.unmap guard.page this.context.table) p refl q))
        | inr more ↦
            rw (some_left, more)
              (
                omega (arith, n),
                record {
                  counted = put-IsCounted this.mapping_refs key (rc - 1) guard (ground arith) h;
                  counts = λ j. count-put this.mapping_refs key j (rc - 1) guard ∙ rw n;
                },
                inr refl,
              )
      ]

  -- Every outcome of `unmap` on a handler whose counts are at least 1: on a frame that is not mapped it
  -- panics with its message; otherwise it counts down by one, changing no other count, and it touches
  -- the page tables, or panics, only if the count was 1.
  pub unmap-Unmaps :
      (this : Handler crates mapper) (key : ℕ)
      → IsCounted this.mapping_refs
      → Unmaps this key (unmap crates mapper this key)
  unfolding unmap
  unmap-Unmaps this key h = unmap_entry-Unmaps this key (get this.mapping_refs key) refl h
