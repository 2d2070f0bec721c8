-- ===== src/Bus/Memories/Cells.antt =====
-- Each byte of the memories behind the bus, before and after one of them changes.
use fused_checkmate.Base.{
  ℕ, zero, suc, ◌+◌, ◌-◌, ◌%◌, ◌<◌, ◌≤◌, ◌≡◌, inl, inr, refl, arith, true, false, ◌&&◌, Bool-cases,
  some, List, [], ◌∷◌, ◌++◌, leb, if◌then◌else◌, length, get_or, get_elem?, set, take, drop,
}
use fused_checkmate.Utilities.Packing.{Bytes}
use fused_checkmate.GenericMemory.{GenericMemory, store}
use fused_checkmate.Bus.{RoutingTable}
use fused_checkmate.Bus.Routing.{is_disjoint, is_apart}
use fused_checkmate.Bus.Memories.{in_entry, cell_of, is_covered, Fits}

-- The access that is covered.
pub record Covered (word_size : ℕ) (table : RoutingTable) (a len : ℕ) : Type 0 where
  pub port : ℕ
  pub low : ℕ
  pub high : ℕ
  pub entry : get_elem? table port ≡ some (low, high)
  pub above : low ≤ a
  pub below : a + len ≤ high + 1
  pub some_bytes : 0 < len
  pub short : len ≤ word_size
  pub aligned : (a - low) % len ≡ 0

pub is_covered_inv :
    (word_size : ℕ) (table : RoutingTable) (a len : ℕ)
    → is_covered word_size table a len ≡ true
    → Covered word_size table a len
unfolding is_covered in_entry
is_covered_inv word_size [] a len h = cc
is_covered_inv word_size ((l, r) ∷ table) a len h = elim (Bool-cases (leb l a && leb a r)) [
  | inl e ↦
      let h' = rw e at h in
      record {
        port = 0;
        low = l;
        high = r;
        entry = refl;
        above = ground (arith, e);
        below = ground (arith, h');
        some_bytes = ground (arith, h');
        short = ground (arith, h');
        aligned = ground (arith, h');
      }
  | inr e ↦
      let c = is_covered_inv word_size table a len (rw e at h) in
      record {
        port = suc c.port;
        low = c.low;
        high = c.high;
        entry = c.entry;
        above = c.above;
        below = c.below;
        some_bytes = c.some_bytes;
        short = c.short;
        aligned = c.aligned;
      }
]

apart_entry :
    (low high x k l h : ℕ) (table : RoutingTable)
    → is_apart (low, high) table ≡ true
    → get_elem? table k ≡ some (l, h)
    → l ≤ x
    → x ≤ h
    → in_entry x (low, high) ≡ false
unfolding is_apart in_entry
apart_entry low high x k l h [] apart got above below = cc
apart_entry low high x zero l h ((l', h') ∷ table) apart got above below = ground arith
apart_entry low high x (suc k) l h ((l', h') ∷ table) apart got above below =
    apart_entry low high x k l h table (ground arith) got above below

-- The memory of an entry.
pub mem_at :
    (k low high : ℕ) (table : RoutingTable) (mems : List GenericMemory)
    → Fits table mems
    → get_elem? table k ≡ some (low, high)
    → (mem : GenericMemory) × (get_elem? mems k ≡ some mem)
      × (length mem ≡ high - low + 1)
      × Bytes mem
mem_at k low high [] mems fits got = cc
mem_at k low high (entry ∷ table) [] fits got = absurd fits
mem_at zero low high ((l, h) ∷ table) (mem ∷ mems) (order, len, bytes, fits) got =
    (mem, refl, ground (arith, len, got), bytes)
mem_at (suc k) low high (entry ∷ table) (mem ∷ mems) (order, len, bytes, fits) got =
    mem_at k low high table mems fits got

pub cell_in :
    (k low high x : ℕ) (table : RoutingTable) (mems : List GenericMemory) (mem : GenericMemory)
    → is_disjoint table ≡ true
    → get_elem? table k ≡ some (low, high)
    → get_elem? mems k ≡ some mem
    → low ≤ x
    → x ≤ high
    → cell_of table mems x ≡ get_or mem (x - low) 0
unfolding cell_of is_disjoint in_entry
cell_in k low high x [] mems mem disjoint got at above below = cc
cell_in k low high x (entry ∷ table) [] mem disjoint got at above below = cc
cell_in zero low high x ((l, h) ∷ table) (m ∷ mems) mem disjoint got at above below = ground arith
cell_in (suc k) low high x ((l, h) ∷ table) (m ∷ mems) mem disjoint got at above below =
    let missed : in_entry x (l, h) ≡ false =
      apart_entry l h x k low high table (ground arith) got above below in
    rw missed (cell_in k low high x table mems mem (ground arith) got at above below)

pub cell_set :
    (k low high x : ℕ) (table : RoutingTable) (mems : List GenericMemory) (mem : GenericMemory)
    → is_disjoint table ≡ true
    → Fits table mems
    → get_elem? table k ≡ some (low, high)
    → cell_of table (set mems k mem) x
      ≡ (if in_entry x (low, high) then get_or mem (x - low) 0 else cell_of table mems x)
unfolding cell_of is_disjoint in_entry
cell_set k low high x [] mems mem disjoint fits got = cc
cell_set k low high x (entry ∷ table) [] mem disjoint fits got = absurd fits
cell_set zero low high x ((l, h) ∷ table) (m ∷ mems) mem disjoint fits got = ground arith
cell_set (suc k) low high x ((l, h) ∷ table) (m ∷ mems) mem disjoint (order, len, bytes, fits) got =
    elim (Bool-cases (in_entry x (low, high))) [
      | inl e ↦
          let missed : in_entry x (l, h) ≡ false =
            apart_entry l h x k low high table (ground arith) got (ground (arith, e))
              (ground (arith, e)) in
          let rest = cell_set k low high x table mems mem (ground arith) fits got in
          rw (missed, rest)
      | inr e ↦
          let rest = cell_set k low high x table mems mem (ground arith) fits got in rw (rest, e)
    ]

pub Fits-set :
    (k low high : ℕ) (table : RoutingTable) (mems : List GenericMemory) (mem : GenericMemory)
    → Fits table mems
    → get_elem? table k ≡ some (low, high)
    → length mem ≡ high - low + 1
    → Bytes mem
    → Fits table (set mems k mem)
Fits-set k low high [] mems mem fits got len bytes = tt
Fits-set k low high (entry ∷ table) [] mem fits got len bytes = absurd fits
Fits-set zero low high ((l, h) ∷ table) (m ∷ mems) mem (order, old, olds, fits) got len bytes =
    (order, ground (arith, len, got), bytes, fits)
Fits-set (suc k) low high (entry ∷ table) (m ∷ mems) mem (order, old, olds, fits) got len bytes =
    (order, old, olds, Fits-set k low high table mems mem fits got len bytes)

byte_lem : (bs : List ℕ) (i : ℕ) → Bytes bs → get_or bs i 0 < 256
byte_lem [] i h = omega arith
byte_lem (b ∷ bs) zero (hb, h) = hb
byte_lem (b ∷ bs) (suc i) (hb, h) = byte_lem bs i h

pub cell_of-lt :
    (table : RoutingTable) (mems : List GenericMemory) (x : ℕ)
    → Fits table mems
    → cell_of table mems x < 256
unfolding cell_of
cell_of-lt [] mems x fits = omega arith
cell_of-lt (entry ∷ table) [] x fits = omega arith
cell_of-lt ((l, h) ∷ table) (m ∷ mems) x (order, len, bytes, fits) =
    ground (arith, byte_lem m (x - l) bytes, cell_of-lt table mems x fits)

Bytes-append : (xs ys : List ℕ) → Bytes xs → Bytes ys → Bytes (xs ++ ys)
Bytes-append [] ys hx hy = hy
Bytes-append (x ∷ xs) ys (h, hx) hy = (h, Bytes-append xs ys hx hy)

Bytes-take : (n : ℕ) (xs : List ℕ) → Bytes xs → Bytes (take n xs)
Bytes-take zero xs h = tt
Bytes-take (suc n) [] h = tt
Bytes-take (suc n) (x ∷ xs) (hx, h) = (hx, Bytes-take n xs h)

Bytes-drop : (n : ℕ) (xs : List ℕ) → Bytes xs → Bytes (drop n xs)
Bytes-drop zero xs h = h
Bytes-drop (suc n) [] h = tt
Bytes-drop (suc n) (x ∷ xs) (hx, h) = Bytes-drop n xs h

pub Bytes-store :
    (a : ℕ) (bytes : List ℕ) (mem : GenericMemory)
    → Bytes bytes
    → Bytes mem
    → Bytes (store a bytes mem)
unfolding store
Bytes-store a bytes mem hb hm =
    Bytes-append _ _ (Bytes-take a mem hm)
      (Bytes-append bytes _ hb (Bytes-drop (a + length bytes) mem hm))
