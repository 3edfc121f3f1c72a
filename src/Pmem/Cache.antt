-- ===== src/Pmem/Cache.antt =====
-- libpmem/pmem_cl.c and libpmem/epoch.c: which words a crash may leave at an older value.
use linux_examples.Base.{
  ℕ, zero, suc, ◌+◌, ◌*◌, ◌/◌, ◌%◌, ◌^◌, ◌≡◌, ◌⊎◌, Bool, not, ◌&&◌, Option, none, some, List, [],
  ◌∷◌, leb, ltb, ◌==◌, if◌then◌else◌,
}
use linux_examples.Base.Maybe.{◌>>=◌}
use linux_examples.Pmem.{Mem, write}

-- _DATAPERSIST
abbrev pub data_persist : ℕ
data_persist = 10

-- `epoch_fn` turns `persist_set` over, every two seconds.
abbrev pub epoch_fn : Bool → Bool
epoch_fn persist_set = not persist_set

-- What the processor holds: the words as loads see them, and for each word the older values that
-- may still be the durable one, newest first.
pub record Cache : Type 0 where
  pub mem : Mem
  pub old : ℕ → List ℕ

-- The loop of `pmem_flush_cache_cl`: `clflush` at each line from `uptr` on, while below `end`, in
-- 64-bit words; `none` if `rounds` of it are not enough.
unfoldable pub flush_lines : ℕ → ℕ → ℕ → (ℕ → List ℕ) → Option (ℕ → List ℕ)
flush_lines zero uptr end old = if ltb uptr end then none else some old
flush_lines (suc rounds) uptr end old =
    let rest =
      flush_lines rounds ((uptr + 64) % 2 ^ 64) end
        (λ x. if x / 64 * 64 == uptr then [] else old x) in
    if ltb uptr end then rest else some old

-- `pmem_flush_cache_cl`, built with _NODATAPERSIST: a range that is flagged as data is flushed only
-- while the epoch's `persist_set` is on. The loop has a round for each line of the range, and one
-- more.
unfoldable pub flush_cache : Bool → ℕ → ℕ → ℕ → Cache → Option Cache
unfolding flush_lines
flush_cache persist_set addr len flags c =
    if (flags == data_persist) && (not persist_set)
    then some c
    else flush_lines (len / 64 + 2) (addr / 64 * 64) ((addr + len) % 2 ^ 64) c.old >>= λ old.
        some record c { old = old }

-- `pmem_persist_cl`: the flush, behind the same test. The fence and the drain order what is
-- flushed.
unfoldable pub persist_cl : Bool → ℕ → ℕ → ℕ → Cache → Option Cache
unfolding flush_cache
persist_cl persist_set addr len flags c =
    if (flags == data_persist) && (not persist_set)
    then some c
    else flush_cache persist_set addr len flags c

-- The word `x` stands in a line that meets the range of `n` bytes from `a`.
abbrev pub covers : ℕ → ℕ → ℕ → Bool
covers a n x = leb (a / 64 * 64) x && ltb (x / 64 * 64) (a + n)

-- What a persist comes to in the programs on the pool, whose addresses do not wrap.
unfoldable pub persist_cache : Bool → ℕ → ℕ → ℕ → Cache → Cache
persist_cache persist_set a n flags c =
    if (flags == data_persist) && (not persist_set)
    then c
    else record c { old = λ x. if covers a n x then [] else c.old x }

-- A store leaves the word's former value as a durable one until the line is flushed.
abbrev pub store_cache : ℕ → ℕ → Cache → Cache
store_cache a v c = record {
  mem = write c.mem a v;
  old = λ x. if x == a then c.mem a ∷ c.old a else c.old x;
}

abbrev pub OneOf : ℕ → List ℕ → Type 0
OneOf v [] = ⊥
OneOf v (w ∷ ws) = (v ≡ w) ⊎ OneOf v ws

-- The memory images that a crash may leave: each word has its present value or one of the older.
abbrev pub Image : Cache → Mem → Type 0
Image c img = (x : ℕ) → OneOf (img x) (c.mem x ∷ c.old x)
