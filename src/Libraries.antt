-- ===== src/Libraries.antt =====
-- vmkit/src/platform/dynload.rs: the writable segments of the loaded libraries. `dl_iterate_phdr` is
-- a parameter. The second loop of the callback, over the segments that become read-only, computes
-- two addresses and drops them; it has no effect and is left out.
mod Segments
mod Roots
mod Tests
use Prim.Native.Nat.{bit_and}
use vmkit_core.Prelude.{
  ℕ, ◌+◌, ◌≡◌, Bool, true, false, not, ◌&&◌, if◌then◌else◌, ◌==◌, ltb, List, [], ◌∷◌,
}
use vmkit_core.Prelude.Words.{wrap}
use vmkit_core.Prelude.Sets.{insert}
use vmkit_core.Roots.{Range, same_range}

-- `ElfPhdr`.
pub record Phdr : Type 0 where
  pub p_type : ℕ
  pub p_flags : ℕ
  pub p_vaddr : ℕ
  pub p_memsz : ℕ

-- `dl_phdr_info`, with its `dlpi_phnum` program headers, and the size that is passed beside it.
pub record Info : Type 0 where
  pub size : ℕ
  pub dlpi_addr : ℕ
  pub dlpi_phdr : List Phdr

-- PT_LOAD, PF_W, and the end of the field `dlpi_phnum`.
abbrev pub pt_load : ℕ
pt_load = 1

abbrev pub pf_w : ℕ
pf_w = 2

abbrev pub end_of_phnum : ℕ
end_of_phnum = 26

pub segment : ℕ → Phdr → Range
segment addr p =
    let my_start = wrap (p.p_vaddr + addr) in
    record { low = my_start; high = wrap (my_start + p.p_memsz) }

-- The first loop.
pub register_segments : ℕ → List Phdr → List Range → List Range
unfolding segment insert
register_segments addr [] ranges = ranges
register_segments addr (p ∷ ps) ranges = register_segments addr ps (
    if p.p_type == pt_load
    then (if bit_and p.p_flags pf_w == 0
        then ranges
        else (insert same_range ranges (segment addr p)).1)
    else ranges)

pub register_dynlib_callback : Info → List Range → ℕ × List Range
unfolding register_segments
register_dynlib_callback info ranges =
    if ltb info.size end_of_phnum
    then (1, ranges)
    else (0, register_segments info.dlpi_addr info.dlpi_phdr ranges)

-- A callback of `dl_iterate_phdr`, with the data that it changes.
abbrev pub Callback : Type 0
Callback = Info → List Range → ℕ × List Range

pub dynamic_libraries_sections : (dl_iterate_phdr : Callback → List Range → List Range) → List Range
unfolding register_dynlib_callback
dynamic_libraries_sections dl_iterate_phdr = dl_iterate_phdr register_dynlib_callback []

-- The callback is called for one object after the other, until it returns a number that is not 0.
abbrev pub each_object : Callback → List Info → List Range → List Range
each_object callback [] ranges = ranges
each_object callback (o ∷ os) ranges =
    let rest = each_object callback os (callback o ranges).1 in
    if (callback o ranges).0 == 0 then rest else (callback o ranges).1

-- What libc documents, for the objects that are loaded.
abbrev pub Iterates : (Callback → List Range → List Range) → List Info → Type 0
Iterates dl_iterate_phdr objects =
    (callback : Callback) (ranges : List Range)
    → dl_iterate_phdr callback ranges ≡ each_object callback objects ranges
