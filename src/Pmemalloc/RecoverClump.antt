-- ===== src/Pmemalloc/RecoverClump.antt =====
-- What the recovery does with one clump, by its state.
use linux_examples.Base.{ℕ, ◌+◌, ◌≡◌, fun_ext, false, arith, ◌==◌}
use linux_examples.Pmem.{Mem, write, pure, ◌>>◌, persist, store}
use linux_examples.Pmemalloc.Layout.{num_on, size_of, state_of}
use linux_examples.Pmemalloc.Ops.Recover.{clear_on, finish, recover_clump}
use linux_examples.Pmemalloc.Redo.{applied-val, val_at, val}
use linux_examples.Pmemalloc.Finish.{finished}

module _ (c u : ℕ) where
  pub recover_clump-reserved :
      state_of u ≡ 1
      → recover_clump c u
        ≡ (clear_on c num_on >> (persist c 64 0 >> (store c (size_of u + 0) >> persist c 64 0)))
  unfolding recover_clump
  recover_clump-reserved h = rw h

  pub recover_clump-activating : state_of u ≡ 2 → recover_clump c u ≡ finish 0 0 c (size_of u) 3
  unfolding recover_clump
  recover_clump-activating h = rw h

  pub recover_clump-freeing : state_of u ≡ 4 → recover_clump c u ≡ finish 0 0 c (size_of u) 0
  unfolding recover_clump
  recover_clump-freeing h = rw h

  pub recover_clump-stable :
      (state_of u == 1) ≡ false
      → (state_of u == 2) ≡ false
      → (state_of u == 4) ≡ false
      → recover_clump c u ≡ pure tt
  unfolding recover_clump
  recover_clump-stable h h₂ h₄ = rw (h, h₂, h₄)

-- The size word that the work starts from does not matter to its result.
pub finished-write : (m : Mem) (c u v : ℕ) → finished (write m c u) c v ≡ finished m c v
unfolding val_at val
finished-write m c u v =
    fun_ext λ x. ground (arith, applied-val m m c x, applied-val (write m c u) (write m c u) c x)
