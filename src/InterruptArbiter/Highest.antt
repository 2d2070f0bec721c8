-- ===== src/InterruptArbiter/Highest.antt =====
-- The request that the arbiter forwards.
use fused_checkmate.Base.{
  ℕ, zero, suc, ◌+◌, ◌≤◌, ◌≡◌, ◌≢◌, ◌⊎◌, inl, inr, refl, sym, subst, ◌∙◌, arith, Bool, true, false,
  Option, none, some, List, [], ◌∷◌, get_or, get_elem?, ok,
}
use fused_checkmate.InterruptArbiter.{Arbiter, Inputs, scan, write_ira, next, process}

-- What a scan finds: no request, or the last one.
pub record Last (requests : List (Option Bool)) (k : ℕ) : Type 0 where
  pub pending : get_elem? requests k ≡ some (some true)
  pub greatest : (k' : ℕ) → get_elem? requests k' ≡ some (some true) → k' ≤ k

abbrev NoneOf : List (Option Bool) → Type 0
NoneOf requests = (k : ℕ) → get_elem? requests k ≢ some (some true)

Last-cons :
    (r : Option Bool) (requests : List (Option Bool)) (k : ℕ)
    → Last requests k
    → Last (r ∷ requests) (suc k)
Last-cons r requests k last = record { pending = last.pending; greatest = go }
  where
    go : (k' : ℕ) → get_elem? (r ∷ requests) k' ≡ some (some true) → k' ≤ suc k
    go zero h = omega arith
    go (suc k') h = omega (arith, last.greatest k' h)

Last-here : (requests : List (Option Bool)) → NoneOf requests → Last (some true ∷ requests) 0
Last-here requests empty = record { pending = refl; greatest = go }
  where
    go : (k' : ℕ) → get_elem? (some true ∷ requests) k' ≡ some (some true) → k' ≤ 0
    go zero h = omega arith
    go (suc k') h = absurd (empty k' h)

none-cons :
    (r : Option Bool) (requests : List (Option Bool))
    → r ≢ some true
    → NoneOf requests
    → NoneOf (r ∷ requests)
none-cons r requests ne empty zero h = ne (same h)
  where
    same : some r ≡ some (some true) → r ≡ some true
    same e = cc
none-cons r requests ne empty (suc k) h = empty k h

-- The result of a scan.
abbrev Scanned : List (Option Bool) → ℕ → Arbiter → Bool → Arbiter × Bool → Type 0
Scanned requests i a pending (a', pending') =
    (NoneOf requests × (a'.idx ≡ a.idx) × (pending' ≡ pending))
    ⊎ ((k : ℕ) × Last requests k × (a'.idx ≡ i + k) × (pending' ≡ true))

scan_skip :
    (r : Option Bool) (requests : List (Option Bool)) (i : ℕ) (a : Arbiter) (pending : Bool)
    (result : Arbiter × Bool)
    → r ≢ some true
    → Scanned requests (i + 1) a pending result
    → Scanned (r ∷ requests) i a pending result
scan_skip r requests i a pending result ne (inl (empty, same, same')) =
    inl (none-cons r requests ne empty, same, same')
scan_skip r requests i a pending result ne (inr (k, last, idx, found)) =
    inr (suc k, Last-cons r requests k last, omega (arith, idx), found)

scan_take :
    (requests : List (Option Bool)) (i : ℕ) (a a₁ : Arbiter) (pending : Bool)
    (result : Arbiter × Bool)
    → a₁.idx ≡ i
    → Scanned requests (i + 1) a₁ true result
    → Scanned (some true ∷ requests) i a pending result
scan_take requests i a a₁ pending result at (inl (empty, same, same')) =
    inr (0, Last-here requests empty, omega (arith, same, at), same')
scan_take requests i a a₁ pending result at (inr (k, last, idx, found)) =
    inr (suc k, Last-cons (some true) requests k last, omega (arith, idx), found)

scan_lem :
    (requests : List (Option Bool)) (i : ℕ) (connected : Bool) (a : Arbiter) (pending : Bool)
    → Scanned requests i a pending (scan requests i connected a pending)
unfolding scan
scan_lem [] i connected a pending = inl (λ k h. cc, refl, refl)
scan_lem (some true ∷ requests) i connected a pending =
    let a₁ : Arbiter = record a { idx = i; ira_connected = connected } in
    scan_take requests i a a₁ pending (scan requests (i + 1) connected a₁ true) refl
      (scan_lem requests (i + 1) connected a₁ true)
scan_lem (some false ∷ requests) i connected a pending =
    scan_skip (some false) requests i a pending (scan requests (i + 1) connected a pending)
      (λ h. cc) (scan_lem requests (i + 1) connected a pending)
scan_lem (none ∷ requests) i connected a pending =
    scan_skip none requests i a pending (scan requests (i + 1) connected a pending) (λ h. cc)
      (scan_lem requests (i + 1) connected a pending)

-- The index does not change when the acknowledge line is written.
write_ira-idx : (level : Bool) (req : Inputs) (a : Arbiter) → (write_ira level req a).idx ≡ a.idx
unfolding write_ira
write_ira-idx level req a = ground arith

-- While the CPU accepts no request, the arbiter succeeds. It asks for an interrupt exactly when some
-- bound request is pending, and then forwards the greatest index of a pending one; otherwise the
-- index stays.
pub process-Last :
    (req : Inputs) (a : Arbiter)
    → req.ira_in ≡ false
    → (a' : Arbiter) × (process req a ≡ ok a')
      × ((a'.irq ≡ true) × Last req.irq_in a'.idx
          ⊎ (a'.irq ≡ false)
            × (a'.idx ≡ a.idx)
            × ((k : ℕ) → get_elem? req.irq_in k ≢ some (some true)))
unfolding process next
process-Last req a idle =
    let start = write_ira false req a in
    let connected = get_or req.ira_bound a.idx false in
    let result = scan req.irq_in 0 connected start false in
    (
      record result.0 { irq = result.1 },
      rw idle refl,
      elim (scan_lem req.irq_in 0 connected start false) [
        | inl (empty, same, same') ↦ inr (same', same ∙ write_ira-idx false req a, empty)
        | inr (k, last, idx, found) ↦
            let at : result.0.idx ≡ k = omega (arith, idx) in
            inl (found, subst (Last req.irq_in) (sym at) last)
      ],
    )
