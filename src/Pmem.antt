-- ===== src/Pmem.antt =====
-- libpmem: the persistent memory that a process maps, and the loads, stores and persists that the
-- library's clients make. Words are 8 bytes; an address is a byte offset from the mapping's start,
-- and every address used is a multiple of 8, so that distinct words do not overlap.
pub mod Cache
pub mod Ends
pub mod Safe
pub mod Settle
pub mod Modes
pub mod Covered
use linux_examples.Base.{ℕ, ◌==◌, if◌then◌else◌}

abbrev pub Mem : Type 0
Mem = ℕ → ℕ

abbrev pub write : Mem → ℕ → ℕ → Mem
write m a v x = if x == a then v else m x

-- A program as the sequence of its accesses to the mapping. `fatal` is FATAL and a failed ASSERT;
-- `stuck` is a loop that has used up its fuel.
pub data Prog (A : Type 0) : Type 0 where
  pure : A → Prog A
  fatal : Prog A
  stuck : Prog A
  load_word : ℕ → (ℕ → Prog A) → Prog A
  store_word : ℕ → ℕ → Prog A → Prog A
  persist_range : ℕ → ℕ → ℕ → Prog A → Prog A

infixl 5 ◌>>=◌ ◌>>◌
abbrev pub ◌>>=◌ : {A B : Type 0} → Prog A → (A → Prog B) → Prog B
pure a >>= f = f a
fatal >>= f = fatal
stuck >>= f = stuck
load_word a k >>= f = load_word a (λ v. k v >>= f)
store_word a v p >>= f = store_word a v (p >>= f)
persist_range a n flags p >>= f = persist_range a n flags (p >>= f)

abbrev pub ◌>>◌ : {B : Type 0} → Prog (Unit {0}) → Prog B → Prog B
m >> k = m >>= λ _. k

-- `*a`
abbrev pub load : ℕ → Prog ℕ
load a = load_word a pure

-- `*a = v`
abbrev pub store : ℕ → ℕ → Prog (Unit {0})
store a v = store_word a v (pure tt)

-- `pmem_persist(a, n, flags)`
abbrev pub persist : ℕ → ℕ → ℕ → Prog (Unit {0})
persist a n flags = persist_range a n flags (pure tt)

pub data Run (A : Type 0) : Type 0 where
  ok : A → Mem → Run A
  abort : Run A
  out_of_fuel : Run A

-- What a program does when power does not fail: a persist changes nothing that a load can see.
abbrev pub run : {A : Type 0} → Prog A → Mem → Run A
run (pure a) m = ok a m
run fatal m = abort
run stuck m = out_of_fuel
run (load_word a k) m = run (k (m a)) m
run (store_word a v p) m = run p (write m a v)
run (persist_range a n flags p) m = run p m
