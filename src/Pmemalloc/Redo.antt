-- ===== src/Pmemalloc/Redo.antt =====
-- Running the list of a clump again after a crash.
use linux_examples.Base.{
  ℕ, zero, suc, ◌≤◌, ◌<◌, ◌≡◌, ◌≢◌, refl, ◌⊎◌, inl, inr, arith, ◌==◌, if◌then◌else◌, Bool-cases,
}
use linux_examples.Pmem.{Mem}
use linux_examples.Pmemalloc.Layout.{on_off, on_ptr}
use linux_examples.Pmemalloc.OnList.{applied}

-- The value at `x` after the assignments of a list of three entries, where it was `base`.
unfoldable pub val : (x o₀ p₀ o₁ p₁ o₂ p₂ base : ℕ) → ℕ
val x o₀ p₀ o₁ p₁ o₂ p₂ base =
    if o₀ == 0
    then base
    else if o₁ == 0
    then (if x == o₀ then p₀ else base)
    else if o₂ == 0
    then (if x == o₁ then p₁ else if x == o₀ then p₀ else base)
    else if x == o₂
    then p₂
    else if x == o₁
    then p₁
    else if x == o₀
    then p₀
    else base

unfoldable pub val_at : Mem → ℕ → ℕ → ℕ → ℕ
val_at h c x base =
    val x (h (on_off c 0)) (h (on_ptr c 0)) (h (on_off c 1)) (h (on_ptr c 1)) (h (on_off c 2))
      (h (on_ptr c 2)) base

pub applied-val : (h m : Mem) (c x : ℕ) → applied h c 3 0 m x ≡ val_at h c x (m x)
unfolding applied val val_at
applied-val h m c x = ground arith

-- The entries assign to distinct words.
abbrev pub Distinct : Mem → ℕ → Type 0
Distinct h c = (i j : ℕ) → i < j → j < 3 → (h (on_off c j) ≡ 0) ⊎ (h (on_off c i) ≢ h (on_off c j))

pub applied_partly :
    (h m : Mem) (c x k : ℕ)
    → Distinct h c
    → k ≤ 3
    → (applied h c k 0 m x ≡ m x) ⊎ (applied h c k 0 m x ≡ applied h c 3 0 m x)
unfolding applied
applied_partly h m c x zero d le = inl refl
applied_partly h m c x (suc zero) d le =
    let d₀₁ = d 0 1 (omega arith) (omega arith) in
    let d₀₂ = d 0 2 (omega arith) (omega arith) in
    elim (Bool-cases (x == h (on_off c 0))) [
      | inl e ↦ inr (ground arith)
      | inr e ↦ inl (ground arith)
    ]
applied_partly h m c x (suc (suc zero)) d le =
    let d₁₂ = d 1 2 (omega arith) (omega arith) in
    let d₀₂ = d 0 2 (omega arith) (omega arith) in
    elim (Bool-cases (x == h (on_off c 2))) [
      | inl e ↦ inl (ground arith)
      | inr e ↦ inr (ground arith)
    ]
applied_partly h m c x (suc (suc (suc zero))) d le = inr refl
applied_partly h m c x (suc (suc (suc (suc k)))) d le = absurd (omega arith)

-- An image of a crash while the list is run or cleared: an offset is the list's or 0 already, and a
-- word elsewhere is assigned, or the list is whole and the word may have its value from before.
abbrev pub Whole : Mem → Mem → ℕ → Type 0
Whole h img c =
    (img (on_off c 0) ≡ h (on_off c 0))
    × (img (on_off c 1) ≡ h (on_off c 1))
    × (img (on_off c 2) ≡ h (on_off c 2))

pub record IsMid (h img : Mem) (c : ℕ) : Type 0 where
  pub ptr₀ : img (on_ptr c 0) ≡ h (on_ptr c 0)
  pub ptr₁ : img (on_ptr c 1) ≡ h (on_ptr c 1)
  pub ptr₂ : img (on_ptr c 2) ≡ h (on_ptr c 2)
  pub off₀ : (img (on_off c 0) ≡ h (on_off c 0)) ⊎ (img (on_off c 0) ≡ 0)
  pub off₁ : (img (on_off c 1) ≡ h (on_off c 1)) ⊎ (img (on_off c 1) ≡ 0)
  pub off₂ : (img (on_off c 2) ≡ h (on_off c 2)) ⊎ (img (on_off c 2) ≡ 0)

pub redo :
    (h m img : Mem) (c x : ℕ)
    → Distinct h c
    → IsMid h img c
    → (img x ≡ applied h c 3 0 m x) ⊎ ((img x ≡ m x) × Whole h img c)
    → applied img c 3 0 img x ≡ applied h c 3 0 m x
unfolding val_at val
redo h m img c x d mid k =
    let d₀₁ = d 0 1 (omega arith) (omega arith) in
    let d₁₂ = d 1 2 (omega arith) (omega arith) in
    let d₀₂ = d 0 2 (omega arith) (omega arith) in
    rw (applied-val h m c x, applied-val img img c x) (ground (arith, applied-val h m c x))
