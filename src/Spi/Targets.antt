-- ===== src/Spi/Targets.antt =====
-- The targets of a transaction, when one device is selected.
use fused_checkmate.Base.{
  ℕ, zero, suc, ◌+◌, ◌≤◌, ◌<◌, ◌≡◌, ◌≢◌, inl, inr, refl, sym, subst, ◌∙◌, ap, arith, Bool, true,
  false, ◌&&◌, leb, some, none, Option-cases, List, [], ◌∷◌, get_elem?, get_or, set, set_same, ok,
}
use fused_checkmate.SpiDevice.{SpiDevice, Transaction, enabled}
use fused_checkmate.SpiDevice
use fused_checkmate.Spi.{SpiPort, call_targets}

-- Target i of a list of devices.
unfoldable pub target : ℕ → List SpiDevice → Transaction → List SpiDevice × Transaction
target i ds t = elim (get_elem? ds i) [
  | none ↦ (ds, t)
  | some d ↦ let (d', t') = SpiDevice.b_transport d t in (set ds i d', t')
]

abbrev pub devices : ℕ → SpiPort (List SpiDevice)
devices n = record { size = n; b_transport = target }

abbrev pub answers : SpiDevice → Bool
answers d = enabled d && d.n_reset

-- A transaction that has no answer yet.
abbrev pub open_transaction : Transaction → Transaction
open_transaction t = record t { is_response_ok = false }

-- Device k answers, and no other.
pub record OnlyAnswer (ds : List SpiDevice) (k : ℕ) (d : SpiDevice) : Type 0 where
  pub there : get_elem? ds k ≡ some d
  pub answering : answers d ≡ true
  pub others : (j : ℕ) (e : SpiDevice) → get_elem? ds j ≡ some e → j ≢ k → answers e ≡ false

silent :
    (i : ℕ) (ds : List SpiDevice) (t : Transaction)
    → ((e : SpiDevice) → get_elem? ds i ≡ some e → answers e ≡ false)
    → target i ds t ≡ (ds, t)
unfolding target SpiDevice.b_transport
silent i ds t quiet = elim (Option-cases (get_elem? ds i)) [
  | inl e ↦ rw (e, target) refl
  | inr (d, e) ↦ rw (e, target, quiet d e, set_same ds i d e) refl
]

speaks :
    (i : ℕ) (ds : List SpiDevice) (t : Transaction) (d : SpiDevice)
    → get_elem? ds i ≡ some d
    → answers d ≡ true
    → target i ds t ≡ (
      set ds i (record d { slave_in = get_or t.bytes 0 0 }),
      record t { response = d.slave_out; is_response_ok = true },
    )
unfolding target SpiDevice.b_transport
speaks i ds t d e answering = rw (e, target, answering) refl

-- The targets that do not answer change nothing.
rest_lem :
    (left n i r : ℕ) (ds : List SpiDevice) (t : Transaction)
    → r ≤ 1
    → ((j : ℕ) (e : SpiDevice) → i ≤ j → get_elem? ds j ≡ some e → answers e ≡ false)
    → call_targets ⦃port = devices n⦄ left i r ds (open_transaction t)
      ≡ ok (ds, open_transaction t, r)
unfolding call_targets
rest_lem zero n i r ds t small quiet = refl
rest_lem (suc left) n i r ds t small quiet =
    let low : leb r 1 ≡ true = ground (arith, small) in
    rw (silent i ds (open_transaction t) (λ e at. quiet i e (omega arith) at), low)
      (rest_lem left n (i + 1) r ds t small (λ j e h at. quiet j e (omega (arith, h)) at))

-- What the answer of device k leaves.
abbrev pub answered : List SpiDevice → ℕ → SpiDevice → Transaction → List SpiDevice
answered ds k d t = set ds k (record d { slave_in = get_or t.bytes 0 0 })

get_elem?-set_ne :
    (ds : List SpiDevice) (k j : ℕ) (d : SpiDevice)
    → k ≢ j
    → get_elem? (set ds k d) j ≡ get_elem? ds j
get_elem?-set_ne [] k j d ne = refl
get_elem?-set_ne (x ∷ ds) zero zero d ne = absurd (ne refl)
get_elem?-set_ne (x ∷ ds) zero (suc j) d ne = refl
get_elem?-set_ne (x ∷ ds) (suc k) zero d ne = refl
get_elem?-set_ne (x ∷ ds) (suc k) (suc j) d ne = get_elem?-set_ne ds k j d (λ e. ne (ap suc e))

first_answers :
    (left n i : ℕ) (ds : List SpiDevice) (t : Transaction) (d : SpiDevice)
    → OnlyAnswer ds i d
    → call_targets ⦃port = devices n⦄ (suc left) i 0 ds (open_transaction t)
      ≡ ok (answered ds i d t, open_transaction (record t { response = d.slave_out }), 1)
unfolding call_targets
first_answers left n i ds t d only =
    rw (speaks i ds (open_transaction t) d only.there only.answering) (
      rest_lem left n (i + 1) 1 (answered ds i d t) (record t { response = d.slave_out })
        (omega arith) quiet)
  where
    quiet :
        (j : ℕ) (e : SpiDevice)
        → i + 1 ≤ j
        → get_elem? (answered ds i d t) j ≡ some e
        → answers e ≡ false
    quiet j e h at =
        only.others j e
          (sym (
              get_elem?-set_ne ds i j (record d { slave_in = get_or t.bytes 0 0 })
                (λ same. absurd (omega (arith, h, same))))
            ∙ at)
          (λ same. absurd (omega (arith, h, same)))

next_target :
    (left n i : ℕ) (ds : List SpiDevice) (t : Transaction)
    → ((e : SpiDevice) → get_elem? ds i ≡ some e → answers e ≡ false)
    → call_targets ⦃port = devices n⦄ (suc left) i 0 ds (open_transaction t)
      ≡ call_targets ⦃port = devices n⦄ left (i + 1) 0 ds (open_transaction t)
unfolding call_targets
next_target left n i ds t quiet = rw (silent i ds (open_transaction t) quiet) refl

-- The one device that answers is m targets ahead.
pub call_targets_lem :
    (m left n i k : ℕ) (ds : List SpiDevice) (t : Transaction) (d : SpiDevice)
    → i + m ≡ k
    → m < left
    → OnlyAnswer ds k d
    → call_targets ⦃port = devices n⦄ left i 0 ds (open_transaction t)
      ≡ ok (answered ds k d t, open_transaction (record t { response = d.slave_out }), 1)
call_targets_lem m zero n i k ds t d at h only = elim h [ ]
call_targets_lem zero (suc left) n i k ds t d at h only =
    let same : k ≡ i = omega (arith, at) in
    rw same (first_answers left n i ds t d (subst (λ j. OnlyAnswer ds j d) same only))
call_targets_lem (suc m) (suc left) n i k ds t d at h only =
    next_target left n i ds t
      (λ e here. only.others i e here (λ same. absurd (omega (arith, at, same))))
    ∙ call_targets_lem m left n (i + 1) k ds t d (omega (arith, at)) (omega (arith, h)) only
