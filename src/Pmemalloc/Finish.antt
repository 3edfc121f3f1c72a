-- ===== src/Pmemalloc/Finish.antt =====
-- The part that `pmemalloc_activate`, `pmemalloc_free` and the recovery share: it runs the list,
-- clears it and sets the clump's last state. It may be cut off anywhere and run again.
use linux_examples.Base.{
  ℕ, zero, suc, ◌+◌, ◌%◌, ◌≤◌, ◌<◌, ◌≡◌, ◌≢◌, ◌∙◌, fun_ext, refl, ◌⊎◌, inl, inr, Bool, ◌||◌, arith,
  ◌==◌, Bool-cases,
}
use linux_examples.Pmem.{Mem, write, ◌>>◌, persist, store}
use linux_examples.Pmem.Ends
use linux_examples.Pmem.Ends.{Ends}
use linux_examples.Pmem.Cache.{Cache}
use linux_examples.Pmem.Safe
use linux_examples.Pmem.Safe.{Safe, Durable}
use linux_examples.Pmem.Settle.{Settled}
use linux_examples.Pmemalloc.Layout.{on_off, on_ptr, num_on, with_state}
use linux_examples.Pmemalloc.Ops.Recover.{run_on, clear_on, finish}
use linux_examples.Pmemalloc.OnList.{applied, Leaves, run_on-applied, run_on-Safe}
use linux_examples.Pmemalloc.Clear.{cleared, Clearing, clear_on-Safe}
use linux_examples.Pmemalloc.Redo.{Distinct, Whole, IsMid, redo, applied_partly}

-- A word that is neither the clump's size nor an offset of its list.
abbrev pub Other : ℕ → ℕ → Type 0
Other c x = (x ≢ c) × (x ≢ on_off c 0) × (x ≢ on_off c 1) × (x ≢ on_off c 2)

-- The memory `m` with the list of the clump at `c` run and cleared, and its size word set to `v`.
abbrev pub finished : Mem → ℕ → ℕ → Mem
finished m c v = write (cleared c (applied m c 3 0 m)) c v

-- The image `img` of a crash that cut the work on `m` off.
pub record Cut (m : Mem) (c : ℕ) (img : Mem) : Type 0 where
  pub mid : IsMid m img c
  pub rest : (x : ℕ) → Other c x → (img x ≡ applied m c 3 0 m x) ⊎ ((img x ≡ m x) × Whole m img c)

-- What the list must satisfy.
pub record IsList (m : Mem) (c : ℕ) : Type 0 where
  pub positive : 0 < c
  pub leaves : Leaves c m
  pub distinct : Distinct m c

pub IsList-write : (m : Mem) (c u : ℕ) → IsList m c → IsList (write m c u) c
IsList-write m c u l = record {
  positive = l.positive;
  leaves = λ i h. ground (arith, l.leaves i h);
  distinct = λ i j a b. ground (arith, l.distinct i j a b);
}

-- Nothing of the work is done yet.
pub Cut-self : (m : Mem) (c : ℕ) → Cut m c m
Cut-self m c = record {
  mid = record {
    ptr₀ = refl;
    ptr₁ = refl;
    ptr₂ = refl;
    off₀ = inl refl;
    off₁ = inl refl;
    off₂ = inl refl;
  };
  rest = λ x other. inr (refl, (refl, refl, refl));
}

Leaves-img : (m : Mem) (c : ℕ) (img : Mem) → IsList m c → IsMid m img c → Leaves c img
Leaves-img m c img l mid zero h =
    let out = l.leaves 0 (omega arith) in let pos = l.positive in let o = mid.off₀ in ground arith
Leaves-img m c img l mid (suc zero) h =
    let out = l.leaves 1 (omega arith) in let pos = l.positive in let o = mid.off₁ in ground arith
Leaves-img m c img l mid (suc (suc zero)) h =
    let out = l.leaves 2 (omega arith) in let pos = l.positive in let o = mid.off₂ in ground arith
Leaves-img m c img l mid (suc (suc (suc i))) h = absurd (omega arith)

redone :
    (m : Mem) (c v : ℕ) (img : Mem)
    → IsList m c
    → Cut m c img
    → write (cleared c (applied img c 3 0 img)) c v ≡ finished m c v
redone m c v img l cut = fun_ext λ x.
    elim (Bool-cases ((x == c) || (x == on_off c 0) || (x == on_off c 1) || (x == on_off c 2))) [
      | inl e ↦ ground arith
      | inr e ↦
          let other : Other c x = ground arith in
          ground (arith, redo m m img c x l.distinct cut.mid (cut.rest x other))
    ]

-- Run from any image of a cut, the work is done as if it had never been cut off.
pub finish-finished :
    (flags hflags c sz state : ℕ) (m img : Mem)
    → IsList m c
    → Cut m c img
    → Ends (λ _ m'. m' ≡ finished m c (with_state sz state)) (finish flags hflags c sz state) img
unfolding finish clear_on
finish-finished flags hflags c sz state m img l cut =
    let end = applied img c 3 0 img in
    Ends.bind (λ _ m'. m' ≡ end) (λ _ m'. m' ≡ finished m c (with_state sz state))
      (run_on flags c num_on 0)
      (λ _.
        clear_on c num_on
        >> (persist c 64 0 >> (store c (with_state sz state) >> persist c 64 hflags)))
      img
      (run_on-applied flags 3 0 c img img end refl (omega arith) (λ x lo hi. refl)
        (Leaves-img m c img l cut.mid))
      λ u m' e. rw e (redone m c (with_state sz state) img l cut)

applied-header :
    (h : Mem) (c n i : ℕ) (m : Mem) (x : ℕ)
    → Leaves c h
    → i + n ≤ 3
    → c ≤ x
    → x < c + 64
    → applied h c n i m x ≡ m x
unfolding applied
applied-header h c zero i m x l b lo hi = refl
applied-header h c (suc n) i m x l b lo hi = ground (
  arith,
  l i (omega arith),
  applied-header h c n (i + 1) (write m (h (on_off c i)) (h (on_ptr c i))) x l (omega arith) lo hi,
)

-- The images of a crash while the list is run.
applied-Cut :
    (m : Mem) (c k : ℕ)
    → IsList m c
    → k ≤ 3
    → Cut m c (applied m c k 0 m) × (applied m c k 0 m c ≡ m c)
applied-Cut m c k l le =
    let at = λ (x : ℕ) (lo : c ≤ x) (hi : x < c + 64).
      applied-header m c k 0 m x l.leaves (omega arith) lo hi in
    let o₀ = at (on_off c 0) (omega arith) (omega arith) in
    let o₁ = at (on_off c 1) (omega arith) (omega arith) in
    let o₂ = at (on_off c 2) (omega arith) (omega arith) in
    (
      record {
        mid = record {
          ptr₀ = at (on_ptr c 0) (omega arith) (omega arith);
          ptr₁ = at (on_ptr c 1) (omega arith) (omega arith);
          ptr₂ = at (on_ptr c 2) (omega arith) (omega arith);
          off₀ = inl o₀;
          off₁ = inl o₁;
          off₂ = inl o₂;
        };
        rest = λ x other. elim (applied_partly m m c x k l.distinct le) [
          | inl same ↦ inr (same, (o₀, o₁, o₂))
          | inr done ↦ inl done
        ];
      },
      at c (omega arith) (omega arith),
    )

Clearing-Cut :
    (m : Mem) (c : ℕ) (img : Mem)
    → IsList m c
    → ((x : ℕ) → Clearing (applied m c 3 0 m) c x (img x))
    → Cut m c img × (img c ≡ m c)
Clearing-Cut m c img l k =
    let at = λ (x : ℕ) (lo : c ≤ x) (hi : x < c + 64).
      applied-header m c 3 0 m x l.leaves (omega arith) lo hi in
    (
      record {
        mid = record {
          ptr₀ = ground (arith, k (on_ptr c 0), at (on_ptr c 0) (omega arith) (omega arith));
          ptr₁ = ground (arith, k (on_ptr c 1), at (on_ptr c 1) (omega arith) (omega arith));
          ptr₂ = ground (arith, k (on_ptr c 2), at (on_ptr c 2) (omega arith) (omega arith));
          off₀ = off (on_off c 0) (k (on_off c 0)) (at (on_off c 0) (omega arith) (omega arith));
          off₁ = off (on_off c 1) (k (on_off c 1)) (at (on_off c 1) (omega arith) (omega arith));
          off₂ = off (on_off c 2) (k (on_off c 2)) (at (on_off c 2) (omega arith) (omega arith));
        };
        rest = λ x other. inl (ground (arith, k x));
      },
      ground (arith, k c, at c (omega arith) (omega arith)),
    )
  where
    off :
        (x : ℕ)
        → Clearing (applied m c 3 0 m) c x (img x)
        → applied m c 3 0 m x ≡ m x
        → (img x ≡ m x) ⊎ (img x ≡ 0)
    off x (inl e) t = inl (e ∙ t)
    off x (inr z) t = inr z.1

-- The work of `finish` on the settled memory `m`, under a predicate `P` that holds of every image
-- of a cut and of the finished memory.
module _ (e : Bool) (P : Mem → Type 0) (m : Mem) (c sz state : ℕ) (l : IsList m c) (al : c % 64 ≡ 0)
    (hcut : (img : Mem) → Cut m c img → img c ≡ m c → P img)
    (hdone : P (finished m c (with_state sz state))) where
  abbrev Done : Unit {0} → Cache → Type 0
  Done _ c' = Settled (finished m c (with_state sz state)) c'

  clearing_P : (img : Mem) → ((x : ℕ) → Clearing (applied m c 3 0 m) c x (img x)) → P img
  clearing_P img k = let cut = Clearing-Cut m c img l k in hcut img cut.0 cut.1

  pub finish-Safe : (cache : Cache) → Settled m cache → Safe e P Done (finish 0 0 c sz state) cache
  unfolding finish
  finish-Safe cache settled =
      Safe.bind e P (λ _ c'. Settled (applied m c 3 0 m) c') Done (run_on 0 c num_on 0)
        (λ _.
          clear_on c num_on
          >> (persist c 64 0 >> (store c (with_state sz state) >> persist c 64 0)))
        cache
        (run_on-Safe e P 3 0 c m m (applied m c 3 0 m) cache refl (omega arith) (λ x lo hi. refl)
          l.leaves (λ k le. let cut = applied-Cut m c k l le in hcut _ cut.0 cut.1) settled)
        λ u c' s. clear_on-Safe e P (applied m c 3 0 m) c sz state al clearing_P hdone c' s
