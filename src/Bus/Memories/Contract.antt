-- ===== src/Bus/Memories/Contract.antt =====
-- The bus with its memories fulfils what an initiator relies on.
use fused_checkmate.Base.{
  ℕ, ◌+◌, ◌-◌, ◌%◌, ◌≤◌, ◌≡◌, inl, inr, refl, sym, subst, ◌∙◌, ap, arith, true, false, ◌&&◌,
  Bool-cases, some, List, leb, ltb, length, get_or, get_elem?, set, replicate, length-replicate, ok,
}
use fused_checkmate.Utilities.Packing.{Bytes}
use fused_checkmate.BusTarget.Command.{read_command, write_command}
use fused_checkmate.BusTarget.Cells.{cells, overwrite, cells_ext}
use fused_checkmate.BusTarget.Contract.{IsMemory}
use fused_checkmate.GenericMemory.{GenericMemory, store, load}
use fused_checkmate.GenericMemory
use fused_checkmate.GenericMemory.Bytes.{length-store, get_or-store, load-cells}
use fused_checkmate.Bus.{RoutingTable}
use fused_checkmate.Bus.Routing.{is_disjoint, is_words, word_lem, b_transport-routes}
use fused_checkmate.Bus.Memories.{
  System, bus_port, read_bus, write_bus, forward, in_entry, cell_of, is_covered, Fits,
}
use fused_checkmate.Bus.Memories.Cells.{
  Covered, is_covered_inv, mem_at, cell_in, cell_set, Fits-set, cell_of-lt, Bytes-store,
}

-- The bus has its table, with memories that fit it.
pub record IsSystem (table : RoutingTable) (sys : System) : Type 0 where
  pub tabled : sys.0.routing_table ≡ table
  pub fits : Fits table sys.1

zeros : (len : ℕ) → length {A = ℕ} (replicate len 0) ≡ len
zeros len = length-replicate {A = ℕ} len 0

-- What a memory does with a transaction within it.
forward_read :
    (port a len : ℕ) (mems : List GenericMemory) (mem : GenericMemory)
    → get_elem? mems port ≡ some mem
    → a + len ≤ length mem
    → forward port mems (record { command = read_command; address = a; bytes = replicate len 0 })
      ≡ ok (
        set mems port mem,
        record { command = read_command; address = a; bytes = load a len mem },
      )
unfolding forward GenericMemory.b_transport GenericMemory.transact
forward_read port a len mems mem at inside = rw (at, zeros len) (ground arith)

forward_write :
    (port a : ℕ) (bytes : List ℕ) (mems : List GenericMemory) (mem : GenericMemory)
    → get_elem? mems port ≡ some mem
    → a + length bytes ≤ length mem
    → forward port mems (record { command = write_command; address = a; bytes = bytes })
      ≡ ok (
        set mems port (store a bytes mem),
        record { command = write_command; address = a; bytes = bytes },
      )
unfolding forward GenericMemory.b_transport GenericMemory.transact
forward_write port a bytes mems mem at inside = rw at (ground arith)

module _ (word_size : ℕ) (table : RoutingTable) (disjoint : is_disjoint table ≡ true)
    (words : is_words table ≡ true) where
  -- Storing a memory where it was changes no byte.
  same_cell :
      {a len : ℕ} (c : Covered word_size table a len) (mems : List GenericMemory)
      (mem : GenericMemory)
      → get_elem? mems c.port ≡ some mem
      → Fits table mems
      → (x : ℕ) → cell_of table (set mems c.port mem) x ≡ cell_of table mems x
  unfolding in_entry
  same_cell c mems mem at fits x = ground (
    arith,
    cell_set c.port c.low c.high x table mems mem disjoint fits c.entry,
    cell_in c.port c.low c.high x table mems mem disjoint c.entry at,
  )

  -- A store into one memory is an overwrite of the system.
  stored_cell :
      (a : ℕ) (bytes : List ℕ) (c : Covered word_size table a (length bytes))
      (mems : List GenericMemory) (mem : GenericMemory)
      → get_elem? mems c.port ≡ some mem
      → Fits table mems
      → length mem ≡ c.high - c.low + 1
      → (x : ℕ)
      → cell_of table (set mems c.port (store (a - c.low) bytes mem)) x
        ≡ overwrite (cell_of table mems) a bytes x
  unfolding in_entry overwrite
  stored_cell a bytes c mems mem at fits long x =
      let inside : a - c.low + length bytes ≤ length mem = omega (arith, long, c.above, c.below) in
      let above = c.above in
      let below = c.below in
      let moved =
        cell_set c.port c.low c.high x table mems (store (a - c.low) bytes mem) disjoint fits
          c.entry in
      let stored = get_or-store (a - c.low) bytes mem (x - c.low) inside in
      elim (Bool-cases (leb c.low x && leb x c.high)) [
        | inl e ↦
            let low : c.low ≤ x = ground (arith, e) in
            let high : x ≤ c.high = ground (arith, e) in
            let old = cell_in c.port c.low c.high x table mems mem disjoint c.entry at low high in
            elim (Bool-cases (leb a x && ltb x (a + length bytes))) [
              | inl e' ↦
                  let first : a ≤ x = ground (arith, e') in
                  let index : x - c.low - (a - c.low) ≡ x - a = omega arith in
                  rw (e', moved, e, stored, index) (ground arith)
              | inr e' ↦ rw (e', moved, e, stored, old) (ground arith)
            ]
        | inr e ↦
            let missed : (leb a x && ltb x (a + length bytes)) ≡ false = ground arith in
            rw (moved, e, missed) refl
      ]

  -- A read that the bus passes, aligned, of at most a word and within one of the memories, succeeds,
  -- where the memories are as long as their entries, which do not overlap and end below 2 ^ 32. It
  -- leaves them so, gives the bytes of the system from that address on, and changes none.
  pub read_covered :
      (sys : System) (a len : ℕ)
      → IsSystem table sys
      → is_covered word_size table a len ≡ true
      → (sys' : System) × (read_bus word_size sys a len
          ≡ ok (cells (cell_of table sys.1) a len, sys'))
        × IsSystem table sys'
        × ((x : ℕ) → cell_of table sys'.1 x ≡ cell_of table sys.1 x)
  unfolding read_bus
  read_covered (bus, mems) a len is covered =
      let c = is_covered_inv word_size table a len covered in
      let (mem, at, long, bytes) = mem_at c.port c.low c.high table mems is.fits c.entry in
      let entry = subst (λ t. get_elem? t c.port ≡ some (c.low, c.high)) (sym is.tabled) c.entry in
      let disjoint' = subst (λ t. is_disjoint t ≡ true) (sym is.tabled) disjoint in
      let top = word_lem c.port c.low c.high table words c.entry in
      let some_bytes = c.some_bytes in
      let inside : a - c.low + len ≤ length mem = omega (arith, long, c.above, c.below) in
      let (bus', ran, tabled, r₁, r₂) =
        b_transport-routes word_size forward bus mems (set mems c.port mem)
          (record { command = read_command; address = a; bytes = replicate len 0 }) _ c.port c.low
          c.high disjoint' entry c.above (omega (arith, zeros len, c.below)) top
          (omega (arith, zeros len, some_bytes)) (omega (arith, zeros len, c.short))
          (subst (λ n. (a - c.low) % n ≡ 0) (sym (zeros len)) c.aligned)
          (forward_read c.port (a - c.low) len mems mem at inside) in
      let stretch =
        load-cells (a - c.low) len mem inside
        ∙ cells_ext _ _ (a - c.low) a len (λ i small. sym (
            cell_in c.port c.low c.high (a + i) table mems mem disjoint c.entry at
              (omega (arith, c.above)) (omega (arith, c.below, small))
            ∙ ap (λ (k : ℕ). get_or mem k 0) (omega (arith, c.above)))) in
      (
        (bus', set mems c.port mem),
        rw ran (ap (λ bs. ok (bs, (bus', set mems c.port mem))) stretch),
        record {
          tabled = tabled ∙ is.tabled;
          fits = Fits-set c.port c.low c.high table mems mem is.fits c.entry long bytes;
        },
        λ x. same_cell c mems mem at is.fits x,
      )

  -- A write that the bus passes, aligned, of at most a word and within one of the memories, succeeds,
  -- where the memories are as long as their entries, which do not overlap and end below 2 ^ 32. It
  -- leaves them so; the bytes of the system become those written there, and no others change.
  pub write_covered :
      (sys : System) (a : ℕ) (bytes : List ℕ)
      → IsSystem table sys
      → Bytes bytes
      → is_covered word_size table a (length bytes) ≡ true
      → (sys' : System) × (write_bus word_size sys a bytes ≡ ok sys')
        × IsSystem table sys'
        × ((x : ℕ) → cell_of table sys'.1 x ≡ overwrite (cell_of table sys.1) a bytes x)
  unfolding write_bus
  write_covered (bus, mems) a bytes is small covered =
      let c = is_covered_inv word_size table a (length bytes) covered in
      let (mem, at, long, old) = mem_at c.port c.low c.high table mems is.fits c.entry in
      let entry = subst (λ t. get_elem? t c.port ≡ some (c.low, c.high)) (sym is.tabled) c.entry in
      let disjoint' = subst (λ t. is_disjoint t ≡ true) (sym is.tabled) disjoint in
      let top = word_lem c.port c.low c.high table words c.entry in
      let inside : a - c.low + length bytes ≤ length mem = omega (arith, long, c.above, c.below) in
      let mem' = store (a - c.low) bytes mem in
      let (bus', ran, tabled, r₁, r₂) =
        b_transport-routes word_size forward bus mems (set mems c.port mem')
          (record { command = write_command; address = a; bytes = bytes }) _ c.port c.low c.high
          disjoint' entry c.above c.below top c.some_bytes c.short c.aligned
          (forward_write c.port (a - c.low) bytes mems mem at inside) in
      (
        (bus', set mems c.port mem'),
        rw ran refl,
        record {
          tabled = tabled ∙ is.tabled;
          fits =
              Fits-set c.port c.low c.high table mems mem' is.fits c.entry
                (length-store (a - c.low) bytes mem inside ∙ long)
                (Bytes-store (a - c.low) bytes mem small old);
        },
        stored_cell a bytes c mems mem at is.fits long,
      )

  -- The bus and its memories as the memory that an initiator relies on.
  abbrev pub bus_memory : IsMemory (bus_port word_size)
  bus_memory = record {
    IsState = IsSystem table;
    cell = λ sys. cell_of table sys.1;
    covers = is_covered word_size table;
    cell_byte = λ sys x is. cell_of-lt table sys.1 x is.fits;
    read_lem = read_covered;
    write_lem = write_covered;
  }
