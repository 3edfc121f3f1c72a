-- ===== src/Pmemalloc/Blocks.antt =====
-- The clumps of a pool as the list of their size words, in the order of their addresses.
use linux_examples.Base.{ℕ, ◌+◌, ◌≤◌, ◌<◌, ◌≡◌, ◌≢◌, ◌⊎◌, List, [], ◌∷◌, arith}
use linux_examples.Pmem.{Mem}
use linux_examples.Pmemalloc.Layout.{size_of}

-- From `c` on the memory holds clumps with the size words `ws`, and then the end mark, a size of 0.
-- Each clump has room for its header.
abbrev pub Blocks : Mem → ℕ → List ℕ → Type 0
Blocks m c [] = m c ≡ 0
Blocks m c (w ∷ ws) = (m c ≡ w) × (64 ≤ size_of w) × Blocks m (c + size_of w) ws

-- `x` is not a word of the header of one of the clumps from `c` on.
abbrev pub NotHeader : ℕ → List ℕ → ℕ → Type 0
NotHeader c [] x = x ≢ c
NotHeader c (w ∷ ws) x = ((x < c) ⊎ (c + 64 ≤ x)) × NotHeader (c + size_of w) ws x

abbrev pub SameFrom : ℕ → Mem → Mem → Type 0
SameFrom c m m' = (x : ℕ) → c ≤ x → m' x ≡ m x

abbrev pub SameBelow : ℕ → Mem → Mem → Type 0
SameBelow c m m' = (x : ℕ) → x < c → m' x ≡ m x

-- A change below the first clump leaves the clumps as they are.
pub Blocks-frame :
    (ws : List ℕ) (c : ℕ) (m m' : Mem) → SameFrom c m m' → Blocks m c ws → Blocks m' c ws
Blocks-frame [] c m m' same b = ground (arith, same c)
Blocks-frame (w ∷ ws) c m m' same b = (
  ground (arith, same c),
  b.1,
  Blocks-frame ws (c + size_of w) m m' (λ x h. same x (omega arith)) b.2,
)
