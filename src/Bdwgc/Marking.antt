-- ===== src/Bdwgc/Marking.antt =====
-- The tracing callback of bdwgc_shim.rs: the objects that it gives to the tracer, in their order.
-- `none` is a panic, or a loop that has not ended on its fuel. The collector looks at objects while
-- memory does not change; what mmtk knows of the heap is a parameter.
pub mod Ranges
pub mod Bitmaps
use Prim.Native.Nat.{bit_and}
use vmkit_core.Prelude.{
  ℕ, zero, suc, ◌+◌, ◌-◌, ◌*◌, ◌/◌, ◌%◌, ◌^◌, Bool, true, false, not, ◌&&◌, if◌then◌else◌, ◌==◌,
  ltb, leb, List, [], ◌∷◌, ◌++◌, Option, none, some, ◌>>=◌, get_elem?,
}
use vmkit_core.Prelude.Words.{wrap, wrapping_sub}
use vmkit_core.Memory.{Mem, load_word}
use vmkit_core.Header.{BitFields, metadata}
use vmkit_core.Object.{ObjectVm, object_start, bytes_used}
use vmkit_core.Bdwgc.Words.{ObjectKind, composite, with_descr, object_size, object_kind, is_atomic}
use vmkit_core.Bdwgc.Registry.{ObjKind, Table, proc, env}

-- mmtk, the mark procedures of the client (what they trace for an object and an environment), and
-- the registries.
pub record Collector : Type 0 where
  pub bit_fields : BitFields
  pub address_based_hashing : Bool
  pub raw_align_up : ℕ → ℕ → ℕ
  pub find_object_from_internal_pointer : ℕ → ℕ → Option ℕ
  pub starting_heap_address : ℕ
  pub last_heap_address : ℕ
  pub run_proc : ℕ → ℕ → ℕ → List ℕ
  pub obj_kinds : Table ObjKind
  pub mark_procs : Table ℕ

-- BDWGC as a VM, whose metadata is CONSERVATIVE_METADATA.
abbrev pub bdwgc_vm : Collector → ObjectVm
bdwgc_vm c = record {
  bit_fields = c.bit_fields;
  address_based_hashing = c.address_based_hashing;
  gc_metadata = λ bits. record {
    instance_size = 0;
    compute_size = some (λ m o. object_size c.bit_fields bits);
    alignment = 8;
    compute_alignment = none;
  };
  compute_hashcode = λ m o. o;
  max_alignment = 32;
  raw_align_up = c.raw_align_up;
}

abbrev pub to_list : Option ℕ → List ℕ
to_list none = []
to_list (some x) = x ∷ []

-- SIGNB
abbrev pub signb : ℕ
signb = 2 ^ 63

module _ (c : Collector) where
  -- `mark_range_conservative`. The distance to `end` is enough fuel.
  pub mark_range_loop : ℕ → Mem → ℕ → ℕ → List ℕ
  mark_range_loop zero m cursor end = []
  mark_range_loop (suc fuel) m cursor end =
      let rest = mark_range_loop fuel m (cursor + 8) end in
      if ltb cursor end
      then to_list (c.find_object_from_internal_pointer (load_word m cursor) 128) ++ rest
      else []

  pub mark_range_conservative : Mem → ℕ → ℕ → List ℕ
  unfolding mark_range_loop
  mark_range_conservative m start end = mark_range_loop (end - start) m start end

  -- What one set bit of a bitmap traces.
  pub mark_word : Mem → ℕ → List ℕ
  mark_word m p =
      let q = load_word m p in
      if leb c.starting_heap_address q && leb q c.last_heap_address
      then to_list (c.find_object_from_internal_pointer q 128)
      else []

  -- The `while descr != 0` loop. `continue` skips the shift.
  pub bitmap_loop : ℕ → Mem → ℕ → ℕ → Option (List ℕ)
  unfolding mark_word
  bitmap_loop zero m descr p = if descr == 0 then some [] else none
  bitmap_loop (suc fuel) m descr p =
      let skipped = bitmap_loop fuel m descr p in
      let shifted = bitmap_loop fuel m (wrap (descr * 2)) (p + 8) in
      if descr == 0
      then some []
      else (if ltb descr signb then skipped else shifted >>= λ rest. some (mark_word m p ++ rest))

  -- The `'retry` loop for the descriptor of a kind, which each round reads again; `fuel` bounds both
  -- loops.
  unfoldable pub descr_loop : ℕ → Mem → ℕ → ℕ → Option (List ℕ)
  unfolding mark_range_conservative bitmap_loop proc env
  descr_loop zero m object descr = none
  descr_loop (suc fuel) m object descr =
      let again = descr_loop fuel m object descr in
      let tag = bit_and descr 3 in
      if tag == 0
      then some (mark_range_conservative m object (wrap (object + descr)))
      else (if tag == 1
          then bitmap_loop fuel m (bit_and descr (2 ^ 64 - 4)) object
          else (if tag == 2
              then (do
                entry ← proc c.mark_procs descr
                some (elim entry [ none ↦ [] | some p ↦ c.run_proc p object (env descr) ]))
              else (if ltb descr signb
                  then again
                  else (if load_word m object == 0
                      then some []
                      else (if load_word m (wrapping_sub (load_word m object) (wrap (descr + 13)))
                            == 0
                          then some []
                          else again)))))

  -- The callback. An index of a kind beyond the table panics.
  unfoldable pub trace : ℕ → Mem → ℕ → Option (List ℕ)
  unfolding mark_range_conservative descr_loop
  trace fuel m object = metadata c.bit_fields c.address_based_hashing m object >>= λ meta.
      if is_atomic c.bit_fields meta
      then some []
      else (bytes_used (bdwgc_vm c) m object >>= λ size. elim (object_kind c.bit_fields meta) [
        | composite ↦ object_start (bdwgc_vm c) m object >>= λ start.
            some (mark_range_conservative m start (start + size))
        | with_descr k ↦ get_elem? c.obj_kinds.slots k >>= λ slot. elim slot [
          | none ↦ some []
          | some kind ↦ descr_loop fuel m object kind.ok_descriptor
        ]
      ])
