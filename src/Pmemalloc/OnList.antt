-- ===== src/Pmemalloc/OnList.antt =====
-- The list `on` of a clump: the assignments that `activate`, `free` and the recovery make.
use linux_examples.Base.{
  ℕ, zero, suc, ◌+◌, ◌≤◌, ◌<◌, ◌≡◌, ◌∙◌, refl, ◌⊎◌, inl, inr, Bool, arith, ◌==◌, if◌then◌else◌,
  Bool-cases,
}
use linux_examples.Pmem.{Mem, write}
use linux_examples.Pmem.Ends.{Ends}
use linux_examples.Pmem.Cache.{Cache}
use linux_examples.Pmem.Safe.{Safe}
use linux_examples.Pmem.Settle.{Settled, atomic_store}
use linux_examples.Pmemalloc.Layout.{on_off, on_ptr}
use linux_examples.Pmemalloc.Ops.Recover.{run_on}

-- Outside of the header of the clump at `c`.
abbrev pub Outside : ℕ → ℕ → Type 0
Outside c x = (x < c) ⊎ (c + 64 ≤ x)

-- The memory `m` after `n` assignments of the list that the clump at `c` has in `h`, from entry `i`
-- on; the list ends at an offset of 0.
unfoldable pub applied : Mem → ℕ → ℕ → ℕ → Mem → Mem
applied h c zero i m = m
applied h c (suc n) i m =
    let rest = applied h c n (i + 1) (write m (h (on_off c i)) (h (on_ptr c i))) in
    if h (on_off c i) == 0 then m else rest

-- `m` has the header of `h`.
abbrev pub SameHeader : ℕ → Mem → Mem → Type 0
SameHeader c h m = (x : ℕ) → c < x → x < c + 64 → m x ≡ h x

-- The assignments go to words outside of the header.
abbrev pub Leaves : ℕ → Mem → Type 0
Leaves c h = (i : ℕ) → i < 3 → Outside c (h (on_off c i))

-- The executed list does what `applied` says.
pub run_on-applied :
    (flags n i c : ℕ) (h m end : Mem)
    → applied h c n i m ≡ end
    → i + n ≤ 3
    → SameHeader c h m
    → Leaves c h
    → Ends (λ _ m'. m' ≡ end) (run_on flags c n i) m
unfolding run_on applied
run_on-applied flags zero i c h m end a b s l = a
run_on-applied flags (suc n) i c h m end a b s l =
    rw (s (on_off c i) (omega arith) (omega arith), Ends)
      (elim (Bool-cases (h (on_off c i) == 0)) [
        | inl e ↦ rw e (rw e at a)
        | inr e ↦
            rw (e, s (on_ptr c i) (omega arith) (omega arith))
              (run_on-applied flags n (i + 1) c h _ end (rw e at a) (omega arith)
                (λ x lo hi. ground (arith, s x lo hi, l i)) l)
      ])

-- With every assignment persisted, a crash finds the memory after some number of them.
pub run_on-Safe :
    (e : Bool) (P : Mem → Type 0) (n i c : ℕ) (h m end : Mem) (cache : Cache)
    → applied h c n i m ≡ end
    → i + n ≤ 3
    → SameHeader c h m
    → Leaves c h
    → ((k : ℕ) → k ≤ n → P (applied h c k i m))
    → Settled m cache
    → Safe e P (λ _ cache'. Settled end cache') (run_on 0 c n i) cache
unfolding run_on applied
run_on-Safe e P zero i c h m end cache a b s l p settled = rw a at settled
run_on-Safe e P (suc n) i c h m end cache a b s l p settled =
    let off : cache.mem (on_off c i) ≡ h (on_off c i) =
      settled _ _ (inl refl) ∙ s (on_off c i) (omega arith) (omega arith) in
    let ptr : cache.mem (on_ptr c i) ≡ h (on_ptr c i) =
      settled _ _ (inl refl) ∙ s (on_ptr c i) (omega arith) (omega arith) in
    rw (off, Safe)
      (elim (Bool-cases (h (on_off c i) == 0)) [
        | inl t ↦ rw t (let same : m ≡ end = rw t at a in rw same at settled)
        | inr t ↦
            let dest = h (on_off c i) in
            let m' = write m dest (h (on_ptr c i)) in
            rw (t, ptr)
              (atomic_store e P (λ _ cache'. Settled end cache') (run_on 0 c n (i + 1)) m dest
                (h (on_ptr c i)) dest 8 cache (ground arith) settled (p 0 (omega arith))
                (rw t at (p 1 (omega arith)))
                λ cache' settled'.
                  run_on-Safe e P n (i + 1) c h m' end cache' (rw t at a) (omega arith)
                    (λ x lo hi. ground (arith, s x lo hi, l i)) l
                    (λ k le. rw t at (p (suc k) (omega arith))) settled')
      ])
