-- ===== src/Pmemalloc/Stats.antt =====
-- The statistics that `pmemalloc_check` of libpmemalloc/pmemalloc.c keeps, one clump after the other.
use linux_examples.Base.{
  ℕ, ◌+◌, ◌%◌, ◌^◌, ◌≤◌, ◌<◌, ◌≡◌, refl, ◌⊎◌, inl, inr, ◌||◌, List, [], ◌∷◌, All, arith, ltb, ◌==◌,
  if◌then◌else◌, length, Bool-cases,
}
use linux_examples.Pmem.Cache.{OneOf}
use linux_examples.Pmemalloc.Layout.{size_of, state_of}
use linux_examples.Pmemalloc.Ops.Check.{Stat, no_stat, count_clump}

-- The sizes of the clumps in the state `kind`, or of all of them for 5.
unfoldable pub sizes : ℕ → List ℕ → List ℕ
sizes kind [] = []
sizes kind (w ∷ ws) =
    let rest = sizes kind ws in
    if (kind == 5) || (state_of w == kind) then size_of w ∷ rest else rest

unfoldable pub sum : List ℕ → ℕ
sum [] = 0
sum (x ∷ xs) = x + sum xs

-- `s` has the number, the sum, the maximum and the minimum of `xs`.
pub record IsStat (xs : List ℕ) (s : Stat) : Type 0 where
  pub count : s.count ≡ length xs % 2 ^ 32
  pub bytes : s.bytes ≡ sum xs % 2 ^ 64
  pub above : All (λ x. x ≤ s.largest) xs
  pub below : All (λ x. s.smallest ≤ x) xs
  pub reached :
      ((xs ≡ []) × (s.largest ≡ 0) × (s.smallest ≡ 0)) ⊎ (OneOf s.largest xs × OneOf s.smallest xs)

-- `s'` is `s` with the sizes `xs`.
pub record Adds (xs : List ℕ) (s s' : Stat) : Type 0 where
  count : s'.count ≡ (s.count + length xs) % 2 ^ 32
  bytes : s'.bytes ≡ (s.bytes + sum xs) % 2 ^ 64
  above : All (λ x. x ≤ s'.largest) xs
  below : All (λ x. s'.smallest ≤ x) xs
  larger : s.largest ≤ s'.largest
  smaller : (s.smallest ≡ 0) ⊎ ((s'.smallest ≤ s.smallest) × (0 < s'.smallest))
  from_large : (s'.largest ≡ s.largest) ⊎ OneOf s'.largest xs
  from_small : (s'.smallest ≡ s.smallest) ⊎ OneOf s'.smallest xs
  not_zero : (xs ≡ []) ⊎ (0 < s'.smallest)

pub Adds-nil : (s : Stat) → s.count < 2 ^ 32 → s.bytes < 2 ^ 64 → Adds [] s s
unfolding sum
Adds-nil s c b = record {
  count = omega arith;
  bytes = omega arith;
  above = tt;
  below = tt;
  larger = omega arith;
  smaller = elim (Bool-cases (s.smallest == 0)) [
    | inl z ↦ inl (ground arith)
    | inr p ↦ inr (omega arith, ground arith)
  ];
  from_large = inl refl;
  from_small = inl refl;
  not_zero = inl refl;
}

pub count_clump-bounds :
    (sz : ℕ) (s : Stat) → ((count_clump sz s).count < 2 ^ 32) × ((count_clump sz s).bytes < 2 ^ 64)
unfolding count_clump
count_clump-bounds sz s = (omega arith, omega arith)

pub Adds-cons :
    (x : ℕ) (xs : List ℕ) (s s' : Stat) → 0 < x → Adds xs (count_clump x s) s' → Adds (x ∷ xs) s s'
unfolding count_clump sum
Adds-cons x xs s s' pos a =
    let less : s'.smallest ≤ x = elim a.smaller [
      | inl z ↦ ground (arith, z)
      | inr p ↦ ground (arith, p)
    ] in
    record {
      count = omega (arith, a.count);
      bytes = omega (arith, a.bytes);
      above = (ground (arith, a.larger), a.above);
      below = (less, a.below);
      larger = ground (arith, a.larger);
      smaller = elim a.smaller [
        | inl z ↦ inl (ground (arith, z))
        | inr p ↦ elim (Bool-cases (s.smallest == 0)) [
          | inl z ↦ inl (ground arith)
          | inr n ↦ inr (ground (arith, p.0, n), p.1)
        ]
      ];
      from_large = elim a.from_large [
        | inr i ↦ inr (inr i)
        | inl e ↦ elim (Bool-cases (ltb s.largest x)) [
          | inl t ↦ inr (inl (ground (arith, e, t)))
          | inr f ↦ inl (ground (arith, e, f))
        ]
      ];
      from_small = elim a.from_small [
        | inr i ↦ inr (inr i)
        | inl e ↦ elim (Bool-cases ((s.smallest == 0) || ltb x s.smallest)) [
          | inl t ↦ inr (inl (ground (arith, e, t)))
          | inr f ↦ inl (ground (arith, e, f))
        ]
      ];
      not_zero = elim a.smaller [ inl z ↦ absurd (ground (arith, z)) | inr p ↦ inr p.1 ];
    }

pub Adds-IsStat : (xs : List ℕ) (s : Stat) → All (λ x. 0 < x) xs → Adds xs no_stat s → IsStat xs s
Adds-IsStat [] s pos a = record {
  count = omega (arith, a.count);
  bytes = omega (arith, a.bytes);
  above = tt;
  below = tt;
  reached = inl (
    refl,
    elim a.from_large [ inl e ↦ e | inr i ↦ absurd i ],
    elim a.from_small [ inl e ↦ e | inr i ↦ absurd i ],
  );
}
Adds-IsStat (x ∷ xs) s pos a = record {
  count = omega (arith, a.count);
  bytes = omega (arith, a.bytes);
  above = a.above;
  below = a.below;
  reached = inr (
    elim a.from_large [ inl e ↦ absurd (omega (arith, e, a.above.0, pos.0)) | inr i ↦ i ],
    elim a.from_small [
      | inl e ↦ elim a.not_zero [
        | inl none_added ↦ absurd (ground (arith, none_added))
        | inr p ↦ absurd (omega (arith, e, p))
      ]
      | inr i ↦ i
    ],
  );
}
