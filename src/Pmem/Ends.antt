-- ===== src/Pmem/Ends.antt =====
-- Total correctness of a run without a crash.
use linux_examples.Pmem.{
  Mem, write, Prog, pure, fatal, stuck, load_word, store_word, persist_range, ◌>>=◌,
}

-- The program runs to its end from `m`, without an abort and within its fuel, and what it returns
-- and leaves in memory satisfies `Q`.
abbrev pub Ends : {A : Type 0} → (A → Mem → Type 0) → Prog A → Mem → Type 0
Ends Q (pure a) m = Q a m
Ends Q fatal m = ⊥
Ends Q stuck m = ⊥
Ends Q (load_word a k) m = Ends Q (k (m a)) m
Ends Q (store_word a v p) m = Ends Q p (write m a v)
Ends Q (persist_range a n flags p) m = Ends Q p m

module _ {A B : Type 0} (R : A → Mem → Type 0) (Q : B → Mem → Type 0) where
  pub bind :
      (p : Prog A) (f : A → Prog B) (m : Mem)
      → Ends R p m
      → ((a : A) (m' : Mem) → R a m' → Ends Q (f a) m')
      → Ends Q (p >>= f) m
  bind (pure a) f m s next = next a m s
  bind fatal f m s next = absurd s
  bind stuck f m s next = absurd s
  bind (load_word a k) f m s next = bind (k (m a)) f m s next
  bind (store_word a v p) f m s next = bind p f _ s next
  bind (persist_range a n flags p) f m s next = bind p f m s next

module _ {A : Type 0} (R Q : A → Mem → Type 0) where
  pub mono :
      (p : Prog A) (m : Mem) → Ends R p m → ((a : A) (m' : Mem) → R a m' → Q a m') → Ends Q p m
  mono (pure a) m s next = next a m s
  mono fatal m s next = s
  mono stuck m s next = s
  mono (load_word a k) m s next = mono (k (m a)) m s next
  mono (store_word a v p) m s next = mono p _ s next
  mono (persist_range a n flags p) m s next = mono p m s next

module _ {A B : Type 0} (Q : B → Mem → Type 0) where
  -- A sequence that ends has ended its first part.
  pub unbind :
      (p : Prog A) (f : A → Prog B) (m : Mem)
      → Ends Q (p >>= f) m
      → Ends (λ a m'. Ends Q (f a) m') p m
  unbind (pure a) f m s = s
  unbind fatal f m s = s
  unbind stuck f m s = s
  unbind (load_word a k) f m s = unbind (k (m a)) f m s
  unbind (store_word a v p) f m s = unbind p f _ s
  unbind (persist_range a n flags p) f m s = unbind p f m s

module _ {A : Type 0} (R Q : A → Mem → Type 0) where
  pub both : (p : Prog A) (m : Mem) → Ends R p m → Ends Q p m → Ends (λ a m'. R a m' × Q a m') p m
  both (pure a) m r q = (r, q)
  both fatal m r q = r
  both stuck m r q = r
  both (load_word a k) m r q = both (k (m a)) m r q
  both (store_word a v p) m r q = both p _ r q
  both (persist_range a n flags p) m r q = both p m r q

module _ {A : Type 0} (R : A → Mem → Type 0) where
  -- What a program that ends returns and leaves.
  pub outcome : (p : Prog A) (m : Mem) → Ends R p m → (a : A) × (m' : Mem) × R a m'
  outcome (pure a) m r = (a, m, r)
  outcome fatal m r = absurd r
  outcome stuck m r = absurd r
  outcome (load_word a k) m r = outcome (k (m a)) m r
  outcome (store_word a v p) m r = outcome p _ r
  outcome (persist_range a n flags p) m r = outcome p m r
