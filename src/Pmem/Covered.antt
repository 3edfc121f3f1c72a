-- ===== src/Pmem/Covered.antt =====
-- What a persist makes durable in each mode of libpmem/pmem.c.
use linux_examples.Base.{
  ℕ, zero, suc, ◌+◌, ◌*◌, ◌/◌, ◌%◌, ◌^◌, ◌≤◌, ◌<◌, ◌≡◌, ◌≢◌, ◌∙◌, sym, ap, subst, refl, Bool, true,
  false, Bool-cases, ◌&&◌, not, Option, some, [], ◌⊎◌, inl, inr, arith, ltb, leb, ◌==◌,
  if◌then◌else◌,
}
use linux_examples.Pmem.Cache.{Cache, data_persist, persist_cl, flush_cache, covers}
use linux_examples.Pmem.Modes.{
  Mode, cl_mode, msync_mode, fit_mode, WriteBack, page_of, page_len, flush_cache_msync,
  persist_msync, write_chunks, flush_cache_fit, persist_fit, pmem_persist, pmem_flush_cache,
}
use linux_examples.Pmem.Settle.{persist_cl-flushes}

-- What msync with MS_SYNC, and pwrite to the file of a private mapping, do where they succeed: the
-- range is durable, the older values of other words stay possible, and loads see what they saw.
abbrev pub IsWriteBack : WriteBack → Type 0
IsWriteBack f =
    (a n : ℕ) (c : Cache)
    → (c' : Cache) × (f a n c ≡ some c')
      × (c'.mem ≡ c.mem)
      × ((x : ℕ) → c'.old x ≡ (if leb a x && ltb x (a + n) then [] else c.old x))

-- pmem_flush_cache_msync, of a range that ends at least a page below 2 ^ 64, hands msync the pages
-- that the range stands in: whole ones, all of the range, and none without a byte of it but the one
-- of its address.
pub page_len-tight :
    (addr len : ℕ)
    → addr + len + 4096 ≤ 2 ^ 64
    → (page_of addr % 4096 ≡ 0)
      × (page_len addr len % 4096 ≡ 0)
      × (page_of addr ≤ addr)
      × (addr < page_of addr + 4096)
      × (addr + len ≤ page_of addr + page_len addr len)
      × (page_of addr + page_len addr len < addr + len + 4096)
page_len-tight addr len room =
    (omega arith, omega arith, omega arith, omega arith, omega arith, omega arith)

write_chunks-covers :
    (pwrite : WriteBack) (rounds uptr end : ℕ) (c : Cache)
    → IsWriteBack pwrite
    → uptr % 64 ≡ 0
    → end ≤ uptr + 64 * rounds
    → end + 64 ≤ 2 ^ 64
    → (c' : Cache) × (write_chunks pwrite rounds uptr end c ≡ some c')
      × (c'.mem ≡ c.mem)
      × ((x : ℕ) → c'.old x ≡ (if leb uptr x && ltb (x / 64 * 64) end then [] else c.old x))
unfolding write_chunks
write_chunks-covers pwrite zero uptr end c writes al far room = (c, refl, refl, λ x. ground arith)
write_chunks-covers pwrite (suc rounds) uptr end c writes al far room =
    elim (Bool-cases (ltb uptr end)) [
      | inl go ↦
          let (c₁, e₁, mem₁, old₁) = writes uptr 64 c in
          let below : uptr < end = ground (arith, go) in
          let next : (uptr + 64) % 2 ^ 64 ≡ uptr + 64 = omega (arith, room, below) in
          let (c₂, e₂, mem₂, old₂) =
            write_chunks-covers pwrite rounds (uptr + 64) end c₁ writes (omega arith) (omega arith)
              room in
          let rest = ap (λ (u : ℕ). write_chunks pwrite rounds u end c₁) next ∙ e₂ in
          (c₂, rw (go, e₁) rest, mem₂ ∙ mem₁, λ x. ground (arith, old₁ x, old₂ x))
      | inr done ↦ (c, rw done refl, refl, λ x. ground (arith, done))
    ]

-- In the word's terms: the range is durable.
abbrev pub Flushed : ℕ → ℕ → Cache → Option Cache → Type 0
Flushed addr len c o =
    (c' : Cache) × (o ≡ some c')
    × (c'.mem ≡ c.mem)
    × (((x : ℕ) → covers addr len x ≡ true → c'.old x ≡ [])
        × ((x : ℕ) → (c'.old x ≡ []) ⊎ (c'.old x ≡ c.old x)))

-- A test decides between no older values and the former ones.
Flushed-if :
    (addr len : ℕ) (c c' : Cache) (o : Option Cache) (b : ℕ → Bool)
    → o ≡ some c'
    → c'.mem ≡ c.mem
    → ((x : ℕ) → c'.old x ≡ (if b x then [] else c.old x))
    → ((x : ℕ) → covers addr len x ≡ true → b x ≡ true)
    → Flushed addr len c o
Flushed-if addr len c c' o b e mem old all = (
  c',
  e,
  mem,
  (
    λ x h. old x ∙ rw (all x h) refl,
    λ x. elim (Bool-cases (b x)) [
      | inl t ↦ inl (old x ∙ rw t refl)
      | inr f ↦ inr (old x ∙ rw f refl)
    ],
  ),
)

persist_cl-Flushed :
    (persist_set : Bool) (addr len flags : ℕ) (c : Cache)
    → flags == data_persist ≡ false
    → addr + len + 64 ≤ 2 ^ 64
    → Flushed addr len c (persist_cl persist_set addr len flags c)
persist_cl-Flushed persist_set addr len flags c not_data room =
    let (c', eq, mem, old, rule) = persist_cl-flushes persist_set addr len flags c room in
    Flushed-if addr len c c' _ (covers addr len) eq mem (λ x. old x ∙ rw not_data refl) (λ x h. h)

-- The pages of a range hold the lines of it.
pages-cover :
    (addr len x : ℕ)
    → addr + len + 4096 ≤ 2 ^ 64
    → covers addr len x ≡ true
    → (leb (page_of addr) x && ltb x (page_of addr + page_len addr len)) ≡ true
pages-cover addr len x room h =
    let (whole, whole', below, near, above, tight) = page_len-tight addr len room in
    let low : addr / 64 * 64 ≤ x = ground (arith, h) in
    let high : x / 64 * 64 < addr + len = ground (arith, h) in
    let from : leb (page_of addr) x ≡ true = ground (arith, low) in
    let last : x < page_of addr + page_len addr len = omega (arith, high, whole, whole', above) in
    let to : ltb x (page_of addr + page_len addr len) ≡ true = ground (arith, last) in
    rw (from, to) refl

mode-Flushed :
    (msync pwrite : WriteBack) (base : ℕ) (persist_set : Bool) (mode : Mode) (addr len flags : ℕ)
    (c : Cache)
    → IsWriteBack msync
    → IsWriteBack pwrite
    → base ≢ 0
    → flags ≢ data_persist
    → addr + len + 4096 ≤ 2 ^ 64
    → Flushed addr len c (pmem_persist msync pwrite base persist_set mode addr len flags c)
unfolding pmem_persist persist_msync flush_cache_msync persist_fit flush_cache_fit
mode-Flushed msync pwrite base persist_set cl_mode addr len flags c syncs writes mapped other room =
    let not_data : flags == data_persist ≡ false = ground (arith, other) in
    let now : pmem_persist msync pwrite base persist_set cl_mode addr len flags c
        ≡ persist_cl persist_set addr len flags c =
      rw not_data refl in
    subst (Flushed addr len c) (sym now)
      (persist_cl-Flushed persist_set addr len flags c not_data (omega (arith, room)))
mode-Flushed msync pwrite base persist_set msync_mode addr len flags c syncs writes mapped other
      room =
    let not_data : flags == data_persist ≡ false = ground (arith, other) in
    let (c', e, mem, old) = syncs (page_of addr) (page_len addr len) c in
    rw not_data (
      Flushed-if addr len c c' _
        (λ x. leb (page_of addr) x && ltb x (page_of addr + page_len addr len)) e mem old
        (λ x h. pages-cover addr len x room h))
mode-Flushed msync pwrite base persist_set fit_mode addr len flags c syncs writes mapped other
      room =
    let not_data : flags == data_persist ≡ false = ground (arith, other) in
    let is_mapped : base == 0 ≡ false = ground (arith, mapped) in
    let whole : (addr + len) % 2 ^ 64 ≡ addr + len = omega (arith, room) in
    let (c', e, mem, old) =
      write_chunks-covers pwrite (len / 64 + 2) (addr / 64 * 64) (addr + len) c writes (omega arith)
        (omega arith) (omega (arith, room)) in
    rw (not_data, is_mapped, whole)
      (Flushed-if addr len c c' _ (λ x. leb (addr / 64 * 64) x && ltb (x / 64 * 64) (addr + len)) e
        mem old (λ x h. h))

-- pmem_flush_cache has the effect of pmem_persist, whose fence and drain order what is flushed.
pmem_flush_cache-pmem_persist :
    (msync pwrite : WriteBack) (base : ℕ) (persist_set : Bool) (mode : Mode) (addr len flags : ℕ)
    (c : Cache)
    → base ≢ 0
    → pmem_flush_cache msync pwrite base persist_set mode addr len flags c
      ≡ pmem_persist msync pwrite base persist_set mode addr len flags c
unfolding pmem_flush_cache pmem_persist persist_msync flush_cache_msync persist_fit flush_cache_fit
    persist_cl flush_cache
pmem_flush_cache-pmem_persist msync pwrite base persist_set cl_mode addr len flags c mapped =
    elim (Bool-cases ((flags == data_persist) && not persist_set)) [
      | inl skip ↦ rw skip refl
      | inr go ↦ rw go refl
    ]
pmem_flush_cache-pmem_persist msync pwrite base persist_set msync_mode addr len flags c mapped =
    refl
pmem_flush_cache-pmem_persist msync pwrite base persist_set fit_mode addr len flags c mapped =
    let is_mapped : base == 0 ≡ false = ground (arith, mapped) in
    elim (Bool-cases (flags == data_persist)) [
      | inl skip ↦ rw (is_mapped, skip) refl
      | inr go ↦ rw (is_mapped, go) refl
    ]

-- pmem_persist in any mode, where the calls of the system succeed, for flags other than those of
-- data and a range that ends at least a page below 2 ^ 64: it ends, loads see what they saw, every
-- word in a line that meets the range is durable, and every other word is or has the older values
-- that it had; pmem_flush_cache has the same effect.
pub pmem_persist-Flushed :
    (msync pwrite : WriteBack) (base : ℕ) (persist_set : Bool) (mode : Mode) (addr len flags : ℕ)
    (c : Cache)
    → IsWriteBack msync
    → IsWriteBack pwrite
    → base ≢ 0
    → flags ≢ data_persist
    → addr + len + 4096 ≤ 2 ^ 64
    → Flushed addr len c (pmem_persist msync pwrite base persist_set mode addr len flags c)
      × (pmem_flush_cache msync pwrite base persist_set mode addr len flags c
          ≡ pmem_persist msync pwrite base persist_set mode addr len flags c)
pmem_persist-Flushed msync pwrite base persist_set mode addr len flags c syncs writes mapped other
      room =
    (
      mode-Flushed msync pwrite base persist_set mode addr len flags c syncs writes mapped other
          room,
      pmem_flush_cache-pmem_persist msync pwrite base persist_set mode addr len flags c mapped,
    )
