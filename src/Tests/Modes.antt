-- ===== src/Tests/Modes.antt =====
-- libpmem in its three modes, at a concrete range.
use linux_examples.Base.{
  ◌+◌, ◌%◌, ◌≤◌, ◌<◌, ◌≡◌, refl, ◌&&◌, true, some, [], ◌∷◌, leb, ltb, if◌then◌else◌, arith,
}
use linux_examples.Pmem.Cache.{Cache}
use linux_examples.Pmem.Covered.{Flushed, IsWriteBack, page_len-tight, pmem_persist-Flushed}
use linux_examples.Pmem.Modes.{
  WriteBack, fit_mode, page_of, page_len, pmem_persist, pmem_flush_cache,
}

-- A call that writes exactly its range back.
abbrev written : WriteBack
written a n c = some record c { old = λ x. if leb a x && ltb x (a + n) then [] else c.old x }

written-IsWriteBack : IsWriteBack written
written-IsWriteBack a n c = (
  record c { old = λ x. if leb a x && ltb x (a + n) then [] else c.old x },
  refl,
  refl,
  λ x. refl,
)

-- Each word has been 0.
abbrev changed : Cache
changed = record { mem = λ x. 1; old = λ x. 0 ∷ [] }

pmem_persist-Flushed_example :
    Flushed 4160 100 changed (pmem_persist written written 4096 true fit_mode 4160 100 0 changed)
    × (pmem_flush_cache written written 4096 true fit_mode 4160 100 0 changed
        ≡ pmem_persist written written 4096 true fit_mode 4160 100 0 changed)
pmem_persist-Flushed_example =
    pmem_persist-Flushed written written 4096 true fit_mode 4160 100 0 changed written-IsWriteBack
      written-IsWriteBack (ground arith) (ground arith) (omega arith)

page_len-tight_example :
    (page_of 4190 % 4096 ≡ 0)
    × (page_len 4190 5000 % 4096 ≡ 0)
    × (page_of 4190 ≤ 4190)
    × (4190 < page_of 4190 + 4096)
    × (4190 + 5000 ≤ page_of 4190 + page_len 4190 5000)
    × (page_of 4190 + page_len 4190 5000 < 4190 + 5000 + 4096)
page_len-tight_example = page_len-tight 4190 5000 (omega arith)
