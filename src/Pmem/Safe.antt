-- ===== src/Pmem/Safe.antt =====
-- A logic for programs that may crash at any access.
use linux_examples.Base.{Bool}
use linux_examples.Pmem.{Mem, Prog, pure, fatal, stuck, load_word, store_word, persist_range, ◌>>=◌}
use linux_examples.Pmem.Cache.{Cache, Image, store_cache, persist_cache}

-- Every image that a crash in this state may leave satisfies `P`.
abbrev pub Durable : (Mem → Type 0) → Cache → Type 0
Durable P c = (img : Mem) → Image c img → P img

-- The program ends in a state that satisfies `Q`, and every image that a crash before each of its
-- stores and persists may leave satisfies `P`.
abbrev pub Safe :
    {A : Type 0} → Bool → (Mem → Type 0) → (A → Cache → Type 0) → Prog A → Cache → Type 0
Safe e P Q (pure a) c = Q a c
Safe e P Q fatal c = ⊥
Safe e P Q stuck c = ⊥
Safe e P Q (load_word a k) c = Safe e P Q (k (c.mem a)) c
Safe e P Q (store_word a v p) c = Durable P c × Safe e P Q p (store_cache a v c)
Safe e P Q (persist_range a n flags p) c = Durable P c × Safe e P Q p (persist_cache e a n flags c)

module _ (e : Bool) (P : Mem → Type 0) {A B : Type 0} (R : A → Cache → Type 0)
    (Q : B → Cache → Type 0) where
  pub bind :
      (p : Prog A) (f : A → Prog B) (c : Cache)
      → Safe e P R p c
      → ((a : A) (c' : Cache) → R a c' → Safe e P Q (f a) c')
      → Safe e P Q (p >>= f) c
  bind (pure a) f c s next = next a c s
  bind fatal f c s next = absurd s
  bind stuck f c s next = absurd s
  bind (load_word a k) f c s next = bind (k (c.mem a)) f c s next
  bind (store_word a v p) f c s next = (s.0, bind p f _ s.1 next)
  bind (persist_range a n flags p) f c s next = (s.0, bind p f _ s.1 next)

module _ (e : Bool) (P P' : Mem → Type 0) (f : (img : Mem) → P img → P' img) {A : Type 0}
    (Q Q' : A → Cache → Type 0) where
  pub mono :
      (p : Prog A) (c : Cache)
      → Safe e P Q p c
      → ((a : A) (c' : Cache) → Q a c' → Q' a c')
      → Safe e P' Q' p c
  mono (pure a) c s g = g a c s
  mono fatal c s g = s
  mono stuck c s g = s
  mono (load_word a k) c s g = mono (k (c.mem a)) c s g
  mono (store_word a v p) c s g = ((λ img i. f img (s.0 img i)), mono p _ s.1 g)
  mono (persist_range a n flags p) c s g = ((λ img i. f img (s.0 img i)), mono p _ s.1 g)
