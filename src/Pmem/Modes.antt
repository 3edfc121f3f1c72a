-- ===== src/Pmem/Modes.antt =====
-- libpmem/pmem.c, pmem_msync.c and pmem_fit.c: the modes of libpmem, built with _NODATAPERSIST.
use linux_examples.Base.{
  ℕ, zero, suc, ◌+◌, ◌*◌, ◌/◌, ◌%◌, ◌^◌, Bool, not, ◌&&◌, Option, none, some, ltb, ◌==◌,
  if◌then◌else◌,
}
use linux_examples.Base.Maybe.{◌>>=◌}
use linux_examples.Pmem.Cache.{Cache, data_persist, flush_cache, persist_cl}

-- `Mode`: PMEM_CL_INDEX, PMEM_MSYNC_INDEX and PMEM_FIT_INDEX
pub data Mode : Type 0 where
  cl_mode msync_mode fit_mode : Mode

-- A call of the system that writes `n` bytes from `a` back; `none` where it fails.
abbrev pub WriteBack : Type 0
WriteBack = ℕ → ℕ → Cache → Option Cache

-- The page that an address is in.
abbrev pub page_of : ℕ → ℕ
page_of addr = addr / 4096 * 4096

-- The length that `pmem_flush_cache_msync` hands to msync.
abbrev pub page_len : ℕ → ℕ → ℕ
page_len addr len = ((len + addr % 4096) % 2 ^ 64 + 4095) % 2 ^ 64 / 4096 * 4096

-- `pmem_flush_cache_msync`; `none` is FATALSYS.
unfoldable pub flush_cache_msync : WriteBack → ℕ → ℕ → Cache → Option Cache
flush_cache_msync msync addr len c = msync (page_of addr) (page_len addr len) c

-- `pmem_persist_msync`: the fence and the drain order what is flushed.
unfoldable pub persist_msync : WriteBack → ℕ → ℕ → Cache → Option Cache
unfolding flush_cache_msync
persist_msync msync addr len c = flush_cache_msync msync addr len c

-- The loop of `pmem_flush_cache_fit`, with `rounds` chunks left at most.
unfoldable pub write_chunks : WriteBack → ℕ → ℕ → ℕ → Cache → Option Cache
write_chunks pwrite zero uptr end c = some c
write_chunks pwrite (suc rounds) uptr end c =
    if ltb uptr end
    then pwrite uptr 64 c >>= write_chunks pwrite rounds ((uptr + 64) % 2 ^ 64) end
    else some c

-- `pmem_flush_cache_fit`; `base` is `PM_base`, and `none` is FATAL and FATALSYS.
unfoldable pub flush_cache_fit : WriteBack → ℕ → ℕ → ℕ → ℕ → Cache → Option Cache
unfolding write_chunks
flush_cache_fit pwrite base addr len flags c =
    if base == 0
    then none
    else if flags == data_persist
    then some c
    else write_chunks pwrite (len / 64 + 2) (addr / 64 * 64) ((addr + len) % 2 ^ 64) c

-- `pmem_persist_fit`
unfoldable pub persist_fit : WriteBack → ℕ → ℕ → ℕ → ℕ → Cache → Option Cache
unfolding flush_cache_fit
persist_fit pwrite base addr len flags c =
    if flags == data_persist then some c else flush_cache_fit pwrite base addr len flags c

module _ (msync pwrite : WriteBack) (base : ℕ) (persist_set : Bool) where
  -- `pmem_flush_cache`
  unfoldable pub pmem_flush_cache : Mode → ℕ → ℕ → ℕ → Cache → Option Cache
  unfolding flush_cache flush_cache_msync flush_cache_fit
  pmem_flush_cache mode addr len flags c =
      if (flags == data_persist) && not persist_set then some c else elim mode [
        | cl_mode ↦ flush_cache persist_set addr len flags c
        | msync_mode ↦ flush_cache_msync msync addr len c
        | fit_mode ↦ flush_cache_fit pwrite base addr len flags c
      ]

  -- `pmem_persist`
  unfoldable pub pmem_persist : Mode → ℕ → ℕ → ℕ → Cache → Option Cache
  unfolding persist_cl persist_msync persist_fit
  pmem_persist mode addr len flags c =
      if (flags == data_persist) && not persist_set then some c else elim mode [
        | cl_mode ↦ persist_cl persist_set addr len flags c
        | msync_mode ↦ persist_msync msync addr len c
        | fit_mode ↦ persist_fit pwrite base addr len flags c
      ]
