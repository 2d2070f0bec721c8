-- ===== src/Bus/Routing.antt =====
-- Where a transaction goes, and which transactions pass.
use mathlib.Core.Option
use native.Mathlib.Nat.{mod-eq_of_lt}
use fused_checkmate.Base.{
  ℕ, zero, suc, ◌+◌, ◌-◌, ◌%◌, ◌^◌, ◌<◌, ◌≤◌, ◌≡◌, ◌≢◌, inl, inr, refl, sym, subst, ◌∙◌, ap, arith,
  Bool, true, false, ◌&&◌, ◌||◌, Bool-cases, Option, Option-cases, none, some, [], ◌∷◌, ltb, length,
  get_or, get_elem?, Result, Fault, >>=-eq-ok, ok, fatal, or_fault,
}
use fused_checkmate.BusTarget.{Payload}
use fused_checkmate.Bus.{
  Bus, RoutingTable, in_range, find_port, route_forward, check_transaction, update_trace,
  b_transport,
}

-- The entry shares no address with those of the table.
unfoldable pub is_apart : ℕ × ℕ → RoutingTable → Bool
is_apart (low, high) [] = true
is_apart (low, high) ((low', high') ∷ table) =
    (ltb high low' || ltb high' low) && is_apart (low, high) table

-- No two entries share an address.
unfoldable pub is_disjoint : RoutingTable → Bool
is_disjoint [] = true
is_disjoint (entry ∷ table) = is_apart entry table && is_disjoint table

pub in_range_lem :
    (a low high : ℕ) → low ≤ a → a ≤ high → high < 2 ^ 32 → in_range a (low, high) ≡ true
unfolding in_range
in_range_lem a low high above below top =
    rw (mod-eq_of_lt {n = a} {m = 2 ^ 32} (omega arith)) (ground arith)

apart_lem :
    (low high a k : ℕ) (table : RoutingTable) (l h : ℕ)
    → is_apart (low, high) table ≡ true
    → get_elem? table k ≡ some (l, h)
    → in_range a (l, h) ≡ true
    → in_range a (low, high) ≡ false
unfolding is_apart in_range
apart_lem low high a k [] l h apart got inside = cc
apart_lem low high a zero ((l', h') ∷ table) l h apart got inside = ground arith
apart_lem low high a (suc k) ((l', h') ∷ table) l h apart got inside =
    apart_lem low high a k table l h (ground arith) got inside

-- In a table without overlaps an address goes to the port whose entry contains it.
pub find_port_unique :
    (a k low high : ℕ) (table : RoutingTable)
    → is_disjoint table ≡ true
    → get_elem? table k ≡ some (low, high)
    → in_range a (low, high) ≡ true
    → find_port a table ≡ some k
unfolding is_disjoint find_port
find_port_unique a k low high [] disjoint got inside = cc
find_port_unique a zero low high ((l, h) ∷ table) disjoint got inside = ground arith
find_port_unique a (suc k) low high ((l, h) ∷ table) disjoint got inside =
    let missed : in_range a (l, h) ≡ false =
      apart_lem l h a k table low high (ground arith) got inside in
    rw (missed, find_port_unique a k low high table (ground arith) got inside)

map-suc_inv :
    (o : Option ℕ) (n : ℕ) → Option.map suc o ≡ some n → (m : ℕ) × (o ≡ some m) × (suc m ≡ n)
map-suc_inv none n h = cc
map-suc_inv (some m) n h = (m, refl, cc)

pub find_port_inv :
    (a k : ℕ) (table : RoutingTable)
    → find_port a table ≡ some k
    → (low : ℕ) × (high : ℕ) × (get_elem? table k ≡ some (low, high))
      × (in_range a (low, high) ≡ true)
unfolding find_port
find_port_inv a k [] h = cc
find_port_inv a zero ((l, r) ∷ table) h = elim (Bool-cases (in_range a (l, r))) [
  | inl e ↦ (l, r, refl, e)
  | inr e ↦
      let (m, found, same) = map-suc_inv (find_port a table) zero (rw e at h) in
      absurd (omega (arith, same))
]
find_port_inv a (suc k) ((l, r) ∷ table) h = elim (Bool-cases (in_range a (l, r))) [
  | inl e ↦ absurd (some_zero (rw e at h))
  | inr e ↦
      let (m, found, same) = map-suc_inv (find_port a table) (suc k) (rw e at h) in
      let e' : m ≡ k = omega (arith, same) in find_port_inv a k table (found ∙ ap some e')
]
  where
    some_zero : some 0 ≢ some (suc k)
    some_zero e = cc

pub get_or-get_elem? :
    (k : ℕ) (table : RoutingTable) (e d : ℕ × ℕ) → get_elem? table k ≡ some e → get_or table k d ≡ e
get_or-get_elem? k [] e d h = cc
get_or-get_elem? zero (x ∷ table) e d h = cc
get_or-get_elem? (suc k) (x ∷ table) e d h = get_or-get_elem? k table e d h

route_lem :
    (table : RoutingTable) (trans : Payload) (port low high : ℕ)
    → find_port trans.address table ≡ some port
    → get_elem? table port ≡ some (low, high)
    → route_forward table trans
      ≡ some (port, low, high, record trans { address = trans.address - low })
unfolding route_forward
route_lem table trans port low high found entry =
    rw (found, route_forward) (rw (get_or-get_elem? port table (low, high) (0, 0) entry))

-- Addresses are uint32_t.
unfoldable pub is_words : RoutingTable → Bool
is_words [] = true
is_words ((low, high) ∷ table) = ltb high (2 ^ 32) && is_words table

pub word_lem :
    (k low high : ℕ) (table : RoutingTable)
    → is_words table ≡ true
    → get_elem? table k ≡ some (low, high)
    → high < 2 ^ 32
unfolding is_words
word_lem k low high [] words got = cc
word_lem zero low high ((l, h) ∷ table) words got = ground arith
word_lem (suc k) low high ((l, h) ∷ table) words got = word_lem k low high table (ground arith) got

in_range_inv :
    (a low high : ℕ) → a < 2 ^ 32 → in_range a (low, high) ≡ true → (low ≤ a) × (a ≤ high)
unfolding in_range
in_range_inv a low high small h = ground arith

check_lem :
    (word_size low high : ℕ) (trans : Payload)
    → low ≤ high
    → high < 2 ^ 32
    → trans.address + length trans.bytes ≤ high - low + 1
    → 0 < length trans.bytes
    → trans.address % length trans.bytes ≡ 0
    → length trans.bytes ≤ word_size
    → check_transaction word_size low high trans ≡ ok tt
unfolding check_transaction
check_lem word_size low high trans order top below some_bytes aligned short =
    rw aligned (ground arith)

check_inv :
    (word_size low high : ℕ) (trans : Payload)
    → low ≤ high
    → high < 2 ^ 32
    → trans.address < 2 ^ 32
    → length trans.bytes < 2 ^ 32
    → check_transaction word_size low high trans ≡ ok tt
    → (trans.address + length trans.bytes ≤ high - low + 1)
      × (0 < length trans.bytes)
      × (trans.address % length trans.bytes ≡ 0)
      × (length trans.bytes ≤ word_size)
unfolding check_transaction
check_inv word_size low high trans order top small len h = ground arith

some_inj : {A : Type 0} {a b : A} → some a ≡ some b → a ≡ b
some_inj e = cc

ok_inj : {A : Type 0} {a b : A} → ok a ≡ ok b → a ≡ b
ok_inj e = cc

or_fault_inv : {A : Type 0} (o : Option A) (e : Fault) (a : A) → or_fault o e ≡ ok a → o ≡ some a
or_fault_inv none e a h = cc
or_fault_inv (some x) e a h = cc

route_inv :
    (table : RoutingTable) (trans : Payload) (port low high : ℕ) (inside : Payload)
    → route_forward table trans ≡ some (port, low, high, inside)
    → (get_elem? table port ≡ some (low, high))
      × (in_range trans.address (low, high) ≡ true)
      × (inside ≡ record trans { address = trans.address - low })
unfolding route_forward
route_inv table trans port low high inside h = elim (Option-cases (find_port trans.address table)) [
  | inl e ↦
      let nothing : route_forward table trans ≡ none = rw (e, route_forward) refl in
      absurd (none_ne (sym nothing ∙ h))
  | inr (k, e) ↦
      let (l, r, entry, within) = find_port_inv trans.address k table e in
      let same = some_inj (sym (route_lem table trans k l r e entry) ∙ h) in
      subst
        (λ t.
          (get_elem? table t.0 ≡ some (t.1, t.2))
          × (in_range trans.address (t.1, t.2) ≡ true)
          × (t.3 ≡ record trans { address = trans.address - t.1 }))
        same (entry, within, refl)
]
  where
    none_ne : {A : Type 0} {a : A} → none ≢ some a
    none_ne e = cc

module _ {T : Type 0} (word_size : ℕ) (forward : ℕ → T → Payload → Result (T × Payload)) where
  -- On a bus whose targets do not overlap, an access of some bytes and at most a word, aligned in its
  -- target and within it, where the target ends below 2 ^ 32 and succeeds, is forwarded to the port of that target with the address inside it; the bus gives
  -- what the target gives, keeps its routing table, and traces the original address.
  pub b_transport-routes :
      (bus : Bus) (targets targets' : T) (trans done : Payload) (port low high : ℕ)
      → is_disjoint bus.routing_table ≡ true
      → get_elem? bus.routing_table port ≡ some (low, high)
      → low ≤ trans.address
      → trans.address + length trans.bytes ≤ high + 1
      → high < 2 ^ 32
      → 0 < length trans.bytes
      → length trans.bytes ≤ word_size
      → (trans.address - low) % length trans.bytes ≡ 0
      → forward port targets (record trans { address = trans.address - low }) ≡ ok (targets', done)
      → (bus' : Bus) × (b_transport word_size forward bus targets trans ≡ ok (bus', targets', done))
        × (bus'.routing_table ≡ bus.routing_table)
        × (bus'.address_trace ≡ trans.address)
        × (bus'.size_trace ≡ length done.bytes)
  unfolding b_transport update_trace
  b_transport-routes bus targets targets' trans done port low high disjoint entry above below top
        some_bytes short aligned ran =
      let len = length trans.bytes in
      let inside : in_range trans.address (low, high) ≡ true =
        in_range_lem trans.address low high above (omega arith) (omega arith) in
      (
        update_trace done trans.address bus,
        rw
            (
              route_lem bus.routing_table trans port low high
                  (find_port_unique trans.address port low high bus.routing_table disjoint entry
                    inside)
                  entry,
              check_lem word_size low high (record trans { address = trans.address - low })
                  (omega arith) (omega arith) (omega arith) some_bytes aligned short,
              ran,
            )
            refl,
        refl,
        mod-eq_of_lt (omega arith),
        refl,
      )

  -- Where the ends of the entries, the address and the length are below 2 ^ 32, and whatever the
  -- entries are otherwise, a transaction that passes the bus lies within the entry of the port that
  -- it is forwarded to, first and last byte, is aligned there, and is at most a word long; the
  -- target gets its address relative to that entry.
  pub b_transport-within :
      (bus bus' : Bus) (targets targets' : T) (trans done : Payload)
      → is_words bus.routing_table ≡ true
      → trans.address < 2 ^ 32
      → length trans.bytes < 2 ^ 32
      → b_transport word_size forward bus targets trans ≡ ok (bus', targets', done)
      → (port : ℕ) × (low : ℕ) × (high : ℕ) × (get_elem? bus.routing_table port ≡ some (low, high))
        × (low ≤ trans.address)
        × (trans.address + length trans.bytes ≤ high + 1)
        × (0 < length trans.bytes)
        × (length trans.bytes ≤ word_size)
        × ((trans.address - low) % length trans.bytes ≡ 0)
        × (forward port targets (record trans { address = trans.address - low })
            ≡ ok (targets', done))
  unfolding b_transport
  b_transport-within bus bus' targets targets' trans done words small len h =
      let (x, routed, h₁) =
        >>=-eq-ok (or_fault (route_forward bus.routing_table trans) fatal) _ h in
      let (port, low, high, inside) = x in
      let (entry, within, same) =
        route_inv bus.routing_table trans port low high inside (or_fault_inv _ fatal _ routed) in
      let (u, checked, h₂) = >>=-eq-ok (check_transaction word_size low high inside) _ h₁ in
      let (y, ran, h₃) = >>=-eq-ok (forward port targets inside) _ h₂ in
      let (above, below) = in_range_inv trans.address low high small within in
      let relative : Payload = record trans { address = trans.address - low } in
      let checked' = subst (λ p. check_transaction word_size low high p ≡ ok tt) same checked in
      let ran' = subst (λ p. forward port targets p ≡ ok y) same ran in
      let (fits, some_bytes, aligned, short) =
        check_inv word_size low high relative (omega (arith, above, below))
          (word_lem port low high bus.routing_table words entry) (omega arith) len checked' in
      (
        port,
        low,
        high,
        entry,
        above,
        omega (arith, above, below, fits),
        some_bytes,
        short,
        aligned,
        ran' ∙ ap (λ t. ok (t.1, t.2)) (ok_inj h₃),
      )
