-- ===== src/Hashtable.antt =====
-- c-hashtable/hashtable.c, hashtable_private.h and hashtable_utility.c: a hash table with chains
-- and prime sizes. A pointer to an entry is the entry; `none` of an operation is an access outside
-- of the table's array. The allocator's answer is an argument, `false` where it returns NULL.
pub mod Values
pub mod Primes
pub mod Expand
pub mod Create
pub mod Search
pub mod Insert
pub mod Remove
pub mod Iterator
pub mod Iterate
pub mod RemoveHere
pub mod SearchPlace
use Prim.Native.Nat.{bit_or, bit_xor}
use linux_examples.Base.{
  ℕ, zero, suc, ◌+◌, ◌-◌, ◌*◌, ◌/◌, ◌%◌, ◌^◌, ◌≡◌, ◌↔◌, Bool, true, false, ◌&&◌, Option, none, some,
  List, [], ◌∷◌, leb, ltb, ◌==◌, if◌then◌else◌, length, get_or, get_elem?, set, replicate,
}
use linux_examples.Base.Maybe.{◌>>=◌}

-- What the caller passes to `create_hashtable`, and what the code relies on: `eqfn` is an
-- equivalence that `hashfn` respects.
pub record KeyFns (K : Type 0) : Type 0 where
  pub hashfn : K → ℕ
  pub eqfn : K → K → Bool
  pub eqfn_refl : (a : K) → eqfn a a ≡ true
  pub eqfn_symm : (a b : K) → eqfn a b ≡ eqfn b a
  pub eqfn_trans : (a b c : K) → eqfn a b ≡ true → eqfn b c ≡ true → eqfn a c ≡ true
  pub hashfn-eqfn : (a b : K) → eqfn a b ≡ true → hashfn a ≡ hashfn b

abbrev pub primes : List ℕ
primes =
    53 ∷ 97 ∷ 193 ∷ 389 ∷ 769 ∷ 1543 ∷ 3079 ∷ 6151 ∷ 12289 ∷ 24593 ∷ 49157 ∷ 98317 ∷ 196613 ∷ 393241
    ∷ 786433 ∷ 1572869 ∷ 3145739 ∷ 6291469 ∷ 12582917 ∷ 25165843 ∷ 50331653 ∷ 100663319 ∷ 201326611
    ∷ 402653189 ∷ 805306457 ∷ 1610612741 ∷ []

abbrev pub prime_table_length : ℕ
prime_table_length = 26

-- `struct entry`, less its `next`
pub record Entry (K V : Type 0) : Type 0 where
  pub k : K
  pub v : V
  pub h : ℕ

abbrev pub Chain : Type 0 → Type 0 → Type 0
Chain K V = List (Entry K V)

-- What an operation hands back to the allocator: the memory of a key, of a value or
-- of an entry.
pub data Freed (K V : Type 0) : Type 0 where
  key : K → Freed K V
  value : V → Freed K V
  entry : Entry K V → Freed K V

-- How a call that frees memory ends: it returns, or the program stops in the call that is to free
-- that memory, with the table as it is at that time.
pub data Outcome (K V A Table : Type 0) : Type 0 where
  returns : A → Table → Outcome K V A Table
  stops : Freed K V → Table → Outcome K V A Table

-- `struct hashtable`, less the two functions
pub record Hashtable (K V : Type 0) : Type 0 where
  pub tablelength : ℕ
  pub table : List (Chain K V)
  pub entrycount : ℕ
  pub loadlimit : ℕ
  pub primeindex : ℕ

abbrev pub word : ℕ
word = 2 ^ 32

-- The mixing in `hash`, on 32-bit words: `i += ~(i << 9)` and the three lines after it.
unfoldable pub mix₁ : ℕ → ℕ
mix₁ i = (i + (word - 1 - i * 2 ^ 9 % word)) % word

unfoldable pub mix₂ : ℕ → ℕ
mix₂ i = bit_xor i (bit_or (i / 2 ^ 14) (i * 2 ^ 18 % word))

unfoldable pub mix₃ : ℕ → ℕ
mix₃ i = (i + i * 2 ^ 4 % word) % word

unfoldable pub mix₄ : ℕ → ℕ
mix₄ i = bit_xor i (bit_or (i / 2 ^ 10) (i * 2 ^ 22 % word))

-- `hash`, of the value of `hashfn`
unfoldable pub hash : ℕ → ℕ
unfolding mix₁ mix₂ mix₃ mix₄
hash i = mix₄ (mix₃ (mix₂ (mix₁ i)))

-- `indexFor`
abbrev pub index_for : ℕ → ℕ → ℕ
index_for tablelength hashvalue = hashvalue % tablelength

-- `--` on an `unsigned int`
abbrev pub decrement : ℕ → ℕ
decrement n = (n + (word - 1)) % word

-- The search for a size in `create_hashtable`: the first prime above `minsize` from index `i` on,
-- and the first prime of all, with the index past the end, if there is none.
unfoldable pub pick_size : ℕ → List ℕ → ℕ → ℕ × ℕ
pick_size minsize [] i = (53, i)
pick_size minsize (p ∷ ps) i = if ltb minsize p then (p, i) else pick_size minsize ps (i + 1)

module _ {K V : Type 0} where
  -- `create_hashtable`; `load_limit size` is `(unsigned int) ceil(size * max_load_factor)`
  unfoldable pub create : (ℕ → ℕ) → Bool → ℕ → Option (Hashtable K V)
  create load_limit allocated minsize =
      let (size, pindex) = pick_size minsize primes 0 in
      if ltb (2 ^ 30) minsize
      then none
      else if allocated
      then some record {
        tablelength = size;
        table = replicate size [];
        entrycount = 0;
        loadlimit = load_limit size;
        primeindex = pindex;
      }
      else none

  -- `e->next = table[index]; table[index] = e`
  unfoldable pub push : ℕ → Entry K V → List (Chain K V) → Option (List (Chain K V))
  push index e table = get_elem? table index >>= λ c. some (set table index (e ∷ c))

  -- The `while` loop of `hashtable_expand`: each entry of the chain goes to the front of its chain
  -- in the new table.
  unfoldable pub transfer_chain : ℕ → Chain K V → List (Chain K V) → Option (List (Chain K V))
  transfer_chain newsize [] newtable = some newtable
  transfer_chain newsize (e ∷ c) newtable =
      push (index_for newsize e.h) e newtable >>= transfer_chain newsize c

  -- Its `for` loop, over the next `n` chains.
  unfoldable pub transfer : ℕ → ℕ → List (Chain K V) → List (Chain K V) → Option (List (Chain K V))
  transfer newsize zero chains newtable = some newtable
  transfer newsize (suc n) [] newtable = none
  transfer newsize (suc n) (c ∷ chains) newtable =
      transfer_chain newsize c newtable >>= transfer newsize n chains

  -- The part of `hashtable_expand` that runs if there is a larger prime. Where the new array is not
  -- allocated the old one stays, under the new length.
  unfoldable pub grow : (ℕ → ℕ) → Bool → ℕ → Hashtable K V → Option (Hashtable K V)
  grow load_limit allocated newsize h = do
    newtable ←
        if allocated
        then transfer newsize h.tablelength h.table (replicate newsize [])
        else some h.table
    some (record h {
      table = newtable;
      tablelength = newsize;
      loadlimit = load_limit newsize;
      primeindex = h.primeindex + 1;
    })

  -- `hashtable_expand`
  unfoldable pub expand : (ℕ → ℕ) → Bool → Hashtable K V → Option (Hashtable K V)
  expand load_limit allocated h =
      if h.primeindex == prime_table_length - 1
      then some h
      else get_elem? primes (h.primeindex + 1) >>= λ newsize. grow load_limit allocated newsize h

  module _ (keys : KeyFns K) where
    -- The loop of `hashtable_search`.
    unfoldable pub search_chain : K → ℕ → Chain K V → Option V
    search_chain k hashvalue [] = none
    search_chain k hashvalue (e ∷ c) =
        if (hashvalue == e.h) && keys.eqfn k e.k then some e.v else search_chain k hashvalue c

    -- `hashtable_search`
    unfoldable pub search : Hashtable K V → K → Option (Option V)
    search h k = do
      let hashvalue = hash (keys.hashfn k)
      c ← get_elem? h.table (index_for h.tablelength hashvalue)
      some (search_chain k hashvalue c)

    -- The rest of `hashtable_insert`, from the allocation of the entry on.
    unfoldable pub add_entry : Bool → Hashtable K V → K → V → Option (Bool × Hashtable K V)
    add_entry allocated h k v =
        let hashvalue = hash (keys.hashfn k) in
        let e : Entry K V = record { k = k; v = v; h = hashvalue } in
        if allocated
        then (push (index_for h.tablelength hashvalue) e h.table >>= λ table.
            some (true, record h { table = table }))
        else some (false, record h { entrycount = decrement h.entrycount })

    -- `hashtable_insert`: whether it succeeded, and the table. The count wraps past 2 ^ 32 - 1.
    unfoldable pub insert :
        (ℕ → ℕ) → Bool → Bool → Hashtable K V → K → V → Option (Bool × Hashtable K V)
    insert load_limit allocated_table allocated h k v = do
      let h₁ = record h { entrycount = (h.entrycount + 1) % word }
      h₂ ← if ltb h₁.loadlimit h₁.entrycount then expand load_limit allocated_table h₁ else some h₁
      add_entry allocated h₂ k v

    -- The loop of `hashtable_remove`: the first match, and the chain without it.
    unfoldable pub unlink : K → ℕ → Chain K V → Option (Entry K V × Chain K V)
    unlink k hashvalue [] = none
    unlink k hashvalue (e ∷ c) =
        if (hashvalue == e.h) && keys.eqfn k e.k
        then some (e, c)
        else elim (unlink k hashvalue c) [ none ↦ none | some (e', c') ↦ some (e', e ∷ c') ]

    -- `hashtable_remove`: what it returns. For a key that is there it goes no further than
    -- `pmemalloc_free_local` of that key: the pointer is an absolute one, as the hash function
    -- reads it, to which pmemalloc_free adds the pool's address, and its first access is outside of
    -- the pool.
    unfoldable pub remove : Hashtable K V → K → Option (Outcome K V (Option V) (Hashtable K V))
    remove h k = do
      let hashvalue = hash (keys.hashfn k)
      let index = index_for h.tablelength hashvalue
      c ← get_elem? h.table index
      some (elim (unlink k hashvalue c) [
        | none ↦ returns none h
        | some (e, c') ↦
            stops (key e.k)
              (record h { table = set h.table index c'; entrycount = decrement h.entrycount })
      ])

    -- The loop of `hashtable_change`: the value that is replaced, and the chain with the new one.
    unfoldable pub change_chain : K → ℕ → V → Chain K V → Option (V × Chain K V)
    change_chain k hashvalue v [] = none
    change_chain k hashvalue v (e ∷ c) =
        if (hashvalue == e.h) && keys.eqfn k e.k
        then some (e.v, record e { v = v } ∷ c)
        else elim (change_chain k hashvalue v c) [ none ↦ none | some (w, c') ↦ some (w, e ∷ c') ]

    -- `hashtable_change`: whether the key was there, what is freed, and the table
    unfoldable pub change : Hashtable K V → K → V → Option (Bool × List (Freed K V) × Hashtable K V)
    change h k v = do
      let hashvalue = hash (keys.hashfn k)
      let index = index_for h.tablelength hashvalue
      c ← get_elem? h.table index
      some (elim (change_chain k hashvalue v c) [
        | none ↦ (false, [], h)
        | some (w, c') ↦ (true, value w ∷ [], record h { table = set h.table index c' })
      ])
