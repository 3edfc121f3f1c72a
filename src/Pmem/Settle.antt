-- ===== src/Pmem/Settle.antt =====
-- What is durable: the lines that a persist covers, and the rules by which a store that is followed
-- by its persist is one atomic change of the durable memory.
use linux_examples.Base.{
  ℕ, zero, suc, ◌+◌, ◌*◌, ◌/◌, ◌%◌, ◌^◌, ◌<◌, ◌≤◌, ◌≡◌, ◌∙◌, ap, some, sym, subst, fun_ext, refl,
  ◌⊎◌, inl, inr, Bool, true, false, not, Bool-cases, ◌&&◌, List, [], ◌∷◌, arith, leb, ltb, ◌==◌,
  if◌then◌else◌,
}
use linux_examples.Pmem.{Mem, write, Prog, store_word, persist_range}
use linux_examples.Pmem.Cache.{
  Cache, data_persist, OneOf, flush_lines, flush_cache, persist_cl, covers, persist_cache,
  store_cache,
}
use linux_examples.Pmem.Safe.{Durable, Safe}

flush_lines-covers :
    (rounds uptr end : ℕ) (old : ℕ → List ℕ)
    → uptr % 64 ≡ 0
    → end ≤ uptr + 64 * rounds
    → end + 64 ≤ 2 ^ 64
    → (new : ℕ → List ℕ) × (flush_lines rounds uptr end old ≡ some new)
      × ((x : ℕ) → new x ≡ (if leb uptr x && ltb (x / 64 * 64) end then [] else old x))
unfolding flush_lines
flush_lines-covers zero uptr end old al far room =
    let done : ltb uptr end ≡ false = ground arith in (old, rw done refl, λ x. ground arith)
flush_lines-covers (suc rounds) uptr end old al far room = elim (Bool-cases (ltb uptr end)) [
  | inl go ↦
      let below : uptr < end = ground (arith, go) in
      let next : (uptr + 64) % 2 ^ 64 ≡ uptr + 64 = omega (arith, room, below) in
      let old₁ = λ (x : ℕ). if x / 64 * 64 == uptr then [] else old x in
      let (new, eq, is) =
        flush_lines-covers rounds (uptr + 64) end old₁ (omega arith) (omega arith) room in
      (
        new,
        rw go (ap (λ (u : ℕ). flush_lines rounds u end old₁) next ∙ eq),
        λ x. ground (arith, is x),
      )
  | inr done ↦ (old, rw done refl, λ x. ground (arith, done))
]

-- pmem_persist_cl, of a range that ends at least a line below 2 ^ 64: it ends, and leaves what
-- loads see as it is. Where the flags are not those of data, or the epoch persists data, it makes
-- every word that stands in a line that meets the range durable; the older values of all other
-- words stay possible. Else it changes nothing. This is the effect that the programs on the pool
-- count on.
pub persist_cl-flushes :
    (e : Bool) (a n flags : ℕ) (c : Cache)
    → a + n + 64 ≤ 2 ^ 64
    → (c' : Cache) × (persist_cl e a n flags c ≡ some c')
      × (c'.mem ≡ c.mem)
      × ((x : ℕ)
          → c'.old x ≡ (
              if (flags == data_persist) && not e
              then c.old x
              else if covers a n x
              then []
              else c.old x))
      × (c' ≡ persist_cache e a n flags c)
unfolding persist_cl flush_cache persist_cache
persist_cl-flushes e a n flags c room = elim (Bool-cases ((flags == data_persist) && not e)) [
  | inl skip ↦ rw skip (c, refl, refl, (λ x. refl), refl)
  | inr go ↦
      let whole : (a + n) % 2 ^ 64 ≡ a + n = omega (arith, room) in
      let (new, eq, is) =
        flush_lines-covers (n / 64 + 2) (a / 64 * 64) (a + n) c.old (omega arith) (omega arith)
          (omega (arith, room)) in
      rw (go, whole, eq)
        (
          record c { old = new },
          refl,
          refl,
          is,
          ap (λ (old : ℕ → List ℕ). record c { old = old }) (fun_ext is),
        )
]

flush_lines-none :
    (rounds uptr end : ℕ) (old : ℕ → List ℕ)
    → ltb uptr end ≡ false
    → flush_lines rounds uptr end old ≡ some old
unfolding flush_lines
flush_lines-none zero uptr end old done = rw done refl
flush_lines-none (suc rounds) uptr end old done = rw done refl

-- pmem_persist_cl, of a range of which the end wraps at 2 ^ 64, and then is not above the line of
-- its address: it returns and makes nothing durable, whatever the flags.
pub persist_cl_wraps :
    (e : Bool) (a n flags : ℕ) (c : Cache)
    → 2 ^ 64 ≤ a + n
    → a + n < 2 ^ 64 + (a / 64 * 64)
    → persist_cl e a n flags c ≡ some c
unfolding persist_cl flush_cache
persist_cl_wraps e a n flags c over low = elim (Bool-cases ((flags == data_persist) && not e)) [
  | inl skip ↦ rw skip refl
  | inr go ↦
      let done : ltb (a / 64 * 64) ((a + n) % 2 ^ 64) ≡ false = ground (arith, over, low) in
      rw (go, flush_lines-none (n / 64 + 2) (a / 64 * 64) ((a + n) % 2 ^ 64) c.old done) refl
]

persist_cache-covers :
    (e : Bool) (a n : ℕ) (c : Cache)
    → ((persist_cache e a n 0 c).mem ≡ c.mem)
      × ((x : ℕ) → (persist_cache e a n 0 c).old x ≡ (if covers a n x then [] else c.old x))
unfolding persist_cache
persist_cache-covers e a n c = (refl, λ x. refl)

-- `ok x v` allows the value `v` at `x`: every value that a crash may leave is allowed.
abbrev pub Vals : (ℕ → ℕ → Type 0) → Cache → Type 0
Vals ok c = (x v : ℕ) → OneOf v (c.mem x ∷ c.old x) → ok x v

-- All is durable, with the contents `m`.
abbrev pub Settled : Mem → Cache → Type 0
Settled m = Vals (λ x v. v ≡ m x)

pub Settled-mem : (m : Mem) (c : Cache) → Settled m c → c.mem ≡ m
Settled-mem m c s = fun_ext λ x. s x (c.mem x) (inl refl)

pub Vals-Durable :
    (P : Mem → Type 0) (ok : ℕ → ℕ → Type 0) (c : Cache)
    → Vals ok c
    → ((img : Mem) → ((x : ℕ) → ok x (img x)) → P img)
    → Durable P c
Vals-Durable P ok c v h img i = h img λ x. v x (img x) (i x)

pub Settled-Durable : (P : Mem → Type 0) (m : Mem) (c : Cache) → Settled m c → P m → Durable P c
Settled-Durable P m c s p =
    Vals-Durable P (λ x v. v ≡ m x) c s
      λ img e. let same : m ≡ img = fun_ext (λ x. sym (e x)) in rw same at p

pub Vals-store :
    (ok : ℕ → ℕ → Type 0) (a v : ℕ) (c : Cache) → Vals ok c → ok a v → Vals ok (store_cache a v c)
Vals-store ok a v c s o x u i = go (x == a) (sym h) i
  where
    h : (x == a) ≡ (x == a)
    h = refl

    go :
        (b : Bool)
        → b ≡ (x == a)
        → OneOf u ((if b then v else c.mem x) ∷ (if b then c.mem a ∷ c.old a else c.old x))
        → ok x u
    go true e (inl i) = let same : x ≡ a = ground arith in rw (same, i) o
    go true e (inr i) = let same : x ≡ a = ground arith in rw same (s a u i)
    go false e i = s x u i

-- A persist settles every word that it covers, and what is settled stays so.
pub Vals-persist :
    (ok : ℕ → ℕ → Type 0) (e : Bool) (a n : ℕ) (c : Cache)
    → Vals ok c
    → ((x v : ℕ) → covers a n x ≡ false → ok x v → v ≡ c.mem x)
    → Settled c.mem (persist_cache e a n 0 c)
Vals-persist ok e a n c s out x u i =
    go (covers a n x) refl (rw ((persist_cache-covers e a n c).1 x) at i')
  where
    i' : OneOf u (c.mem x ∷ (persist_cache e a n 0 c).old x)
    i' = rw (persist_cache-covers e a n c).0 at i

    go :
        (b : Bool)
        → covers a n x ≡ b
        → OneOf u (c.mem x ∷ (if b then [] else c.old x))
        → u ≡ c.mem x
    go true h (inl k) = k
    go true h (inr k) = absurd k
    go false h k = out x u h (s x u k)

-- A store that is followed by the persist of its line: a crash leaves the memory as it was before
-- the store or as it is after it, and then it is durable.
pub atomic_store :
    {A : Type 0} (e : Bool) (P : Mem → Type 0) (Q : A → Cache → Type 0) (rest : Prog A)
    → (m : Mem) (a v r n : ℕ) (c : Cache) → covers r n a ≡ true
    → Settled m c
    → P m
    → P (write m a v)
    → ((c' : Cache) → Settled (write m a v) c' → Safe e P Q rest c')
    → Safe e P Q (store_word a v (persist_range r n 0 rest)) c
atomic_store e P Q rest m a v r n c cov s before after next = (
  Settled-Durable P m c s before,
  (
    Vals-Durable P ok c' vals both,
    next (persist_cache e r n 0 c') (
        subst (λ (k : Mem). Settled k (persist_cache e r n 0 c')) mem'
          (Vals-persist ok e r n c' vals settled)),
  ),
)
  where
    c' : Cache
    c' = store_cache a v c

    ok : ℕ → ℕ → Type 0
    ok x u = (u ≡ m x) ⊎ ((x ≡ a) × (u ≡ v))

    mem' : c'.mem ≡ write m a v
    mem' = rw (Settled-mem m c s)

    vals : Vals ok c'
    vals = Vals-store ok a v c (λ x u i. inl (s x u i)) (inr (refl, refl))

    settled : (x u : ℕ) → covers r n x ≡ false → ok x u → u ≡ c'.mem x
    settled x u h k =
        let now : c.mem x ≡ m x = s x (c.mem x) (inl refl) in
        elim k [ inl old ↦ ground arith | inr new ↦ (let at : x ≡ a = new.0 in ground arith) ]

    both : (img : Mem) → ((x : ℕ) → ok x (img x)) → P img
    both img k = elim (k a) [
      | inl old ↦ (let same : m ≡ img = fun_ext λ x. ground (arith, k x) in rw same at before)
      | inr new ↦
          (let same : write m a v ≡ img = fun_ext λ x. ground (arith, k x) in rw same at after)
    ]
