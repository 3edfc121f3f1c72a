-- ===== src/Tests/Table.antt =====
-- c-hashtable/hashtable.c at a concrete table of numbers.
use linux_examples.Base.{
  ℕ, suc, ap, ◌+◌, ◌*◌, ◌/◌, ◌%◌, ◌^◌, ◌∙◌, ◌<◌, ◌≡◌, ◌≤◌, refl, ◌⊎◌, inl, inr, true, false, some,
  none, [], ◌∷◌, arith, ◌==◌, if◌then◌else◌, set, replicate, length, length-set, length-replicate,
  get_or-set, get_or-replicate, Bool-cases,
}
use linux_examples.Hashtable.{
  KeyFns, Entry, key, value, returns, stops, Chain, Hashtable, hash, create, expand, insert, search,
  remove, change,
}
use linux_examples.Hashtable.Values.{IsHome, head?, replace_head, count, count-set, count-replicate}
use linux_examples.Hashtable.Expand.{IsLaid, IsValid, lookup, order, expand-lookup}
use linux_examples.Hashtable.Create.{create-IsValid}
use linux_examples.Hashtable.Search.{search-lookup}
use linux_examples.Hashtable.Insert.{before, insert-lookup}
use linux_examples.Hashtable.Remove.{remove-lookup, change-lookup}

-- Numbers as keys, each its own hash.
abbrev pub numbers : KeyFns ℕ
numbers = record {
  hashfn = λ k. k;
  eqfn = λ a b. a == b;
  eqfn_refl = λ a. ground arith;
  eqfn_symm = λ a b. ground arith;
  eqfn_trans = λ a b c h k. ground arith;
  hashfn-eqfn = λ a b h. ground arith;
}

-- The value of `hash` at 5, as a 32-bit C compiler has it.
hash_5 : hash 5 ≡ 3427074689
unfolding hash
hash_5 = refl

-- `(unsigned int) ceil(size * 0.65)`
abbrev pub load_limit : ℕ → ℕ
load_limit size = (size * 65 + 99) / 100

-- A table of 53 chains with the value 50 at the key 5.
abbrev pub one_entry : Hashtable ℕ ℕ
one_entry = record {
  tablelength = 53;
  table = set (replicate 53 []) (hash 5 % 53) (record { k = 5; v = 50; h = hash 5 } ∷ []);
  entrycount = 1;
  loadlimit = 35;
  primeindex = 0;
}

one_entry-IsHome : IsHome numbers 53 one_entry.table
one_entry-IsHome i =
    let chain : Chain ℕ ℕ = record { k = 5; v = 50; h = hash 5 } ∷ [] in
    rw (get_or-set (replicate 53 []) (hash 5 % 53) i chain [] (omega arith))
      (elim (Bool-cases (hash 5 % 53 == i)) [
        | inl hit ↦ (let same : hash 5 % 53 ≡ i = ground arith in rw hit ((refl, same), tt))
        | inr miss ↦ rw miss (rw (get_or-replicate {A = Chain ℕ ℕ} 53 i []) tt)
      ])

one_entry-IsLaid : IsLaid numbers one_entry
one_entry-IsLaid =
    let chain : Chain ℕ ℕ = record { k = 5; v = 50; h = hash 5 } ∷ [] in
    record {
      sized = refl;
      positive = omega arith;
      len =
          length-set (replicate 53 []) (hash 5 % 53) chain ∙ length-replicate {A = Chain ℕ ℕ} 53 [];
      at = one_entry-IsHome;
    }

pub one_entry-IsValid : IsValid numbers one_entry
one_entry-IsValid = record { laid = one_entry-IsLaid; total = counted; bounded = omega arith }
  where
    chain : Chain ℕ ℕ
    chain = record { k = 5; v = 50; h = hash 5 } ∷ []

    inside : hash 5 % 53 < length {A = Chain ℕ ℕ} (replicate 53 [])
    inside = omega arith

    counted : count one_entry.table ≡ 1
    counted = omega (
      arith,
      count-set (replicate 53 []) (hash 5 % 53) chain inside,
      count-replicate (Entry ℕ ℕ) 53,
      ap length (get_or-replicate {A = Chain ℕ ℕ} 53 (hash 5 % 53) []),
    )

create-IsValid_example :
    ((2 ^ 30 < 60) × (create {K = ℕ} {V = ℕ} load_limit true 60 ≡ none))
    ⊎ ((h : Hashtable ℕ ℕ) × (create load_limit true 60 ≡ some h)
        × (60 < h.tablelength)
        × (h.loadlimit ≡ load_limit h.tablelength)
        × (h.entrycount ≡ 0)
        × IsValid numbers h
        × ((q : ℕ) → lookup numbers h q ≡ []))
create-IsValid_example = create-IsValid numbers load_limit 60

search-lookup_example : search numbers one_entry 5 ≡ some (head? (lookup numbers one_entry 5))
search-lookup_example = search-lookup numbers one_entry 5 one_entry-IsValid

insert-lookup_example :
    (h' : Hashtable ℕ ℕ) × (insert numbers load_limit true true one_entry 5 51 ≡ some (true, h'))
    × IsValid numbers h'
    × (h'.entrycount ≡ one_entry.entrycount + 1)
    × ((q : ℕ)
        → lookup numbers h' q
          ≡ (if q == 5 then 51 ∷ before numbers one_entry q else before numbers one_entry q))
insert-lookup_example =
    insert-lookup numbers load_limit one_entry 5 51 one_entry-IsValid (omega arith)

expand-lookup_example :
    (h' : Hashtable ℕ ℕ) × (expand load_limit true one_entry ≡ some h')
    × IsLaid numbers h'
    × (count h'.table ≡ count one_entry.table)
    × (h'.entrycount ≡ one_entry.entrycount)
    × (one_entry.tablelength ≤ h'.tablelength)
    × ((q : ℕ) → lookup numbers h' q ≡ order numbers one_entry (lookup numbers one_entry q))
expand-lookup_example = expand-lookup numbers load_limit one_entry one_entry-IsLaid

remove-lookup_example :
    ((lookup numbers one_entry 5 ≡ [])
      × (remove numbers one_entry 5 ≡ some (returns none one_entry)))
    ⊎ ((e : Entry ℕ ℕ) × (h' : Hashtable ℕ ℕ) × (remove numbers one_entry 5
          ≡ some (stops (key e.k) h'))
        × ((5 == e.k) ≡ true)
        × IsValid numbers h'
        × (one_entry.entrycount ≡ suc h'.entrycount)
        × ((q : ℕ)
            → ((q == 5) ≡ true → lookup numbers one_entry q ≡ e.v ∷ lookup numbers h' q)
              × ((q == 5) ≡ false → lookup numbers one_entry q ≡ lookup numbers h' q)))
remove-lookup_example = remove-lookup numbers one_entry 5 one_entry-IsValid

change-lookup_example :
    ((lookup numbers one_entry 5 ≡ [])
      × (change numbers one_entry 5 52 ≡ some (false, [], one_entry)))
    ⊎ ((w : ℕ) × (h' : Hashtable ℕ ℕ) × (change numbers one_entry 5 52
          ≡ some (true, value w ∷ [], h'))
        × (head? (lookup numbers one_entry 5) ≡ some w)
        × IsValid numbers h'
        × ((q : ℕ)
            → ((q == 5) ≡ true → lookup numbers h' q ≡ replace_head 52 (lookup numbers one_entry q))
              × ((q == 5) ≡ false → lookup numbers one_entry q ≡ lookup numbers h' q)))
change-lookup_example = change-lookup numbers one_entry 5 52 one_entry-IsValid
