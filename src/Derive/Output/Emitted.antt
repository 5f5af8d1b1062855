-- ===== src/Derive/Output/Emitted.antt =====
-- What the macro emits comes from attributes that were accepted.
use vmkit_core.Prelude.{◌≡◌, inl, inr, List, Option, some, arith, Option-cases}
use vmkit_core.Derive.{Syn, ArrayLike, GcMetadata, Field, Structure}
use vmkit_core.Derive.Outcome.{Result-cases, ok}
use vmkit_core.Derive.Attributes.{find_arraylike, find_gcmetadata}
use vmkit_core.Derive.Output.{
  Filter, Output, trace_code, instance_size, compute_size, alignment, emit, derive_gcmetadata,
}

pub derive_gcmetadata-emit :
    {syn : Syn} (filter : Filter) (s : Structure syn) (o : Output syn)
    → derive_gcmetadata syn filter s ≡ some (ok o)
    → (gc : GcMetadata syn) × (array : Option (ArrayLike syn)) × (find_gcmetadata syn s.attrs
        ≡ ok gc)
      × (find_arraylike syn s.attrs ≡ ok array)
      × (emit syn filter s.variants array gc ≡ some o)
unfolding derive_gcmetadata
derive_gcmetadata-emit {syn} filter s o e = elim (Result-cases (find_gcmetadata syn s.attrs)) [
  | inr (b, eg) ↦ absurd (ground (arith, e, eg))
  | inl (gc, eg) ↦ elim (Result-cases (find_arraylike syn s.attrs)) [
    | inr (b, ea) ↦ absurd (ground (arith, e, eg, ea))
    | inl (array, ea) ↦ elim (Option-cases (emit syn filter s.variants array gc)) [
      | inl p ↦ absurd (ground (arith, e, eg, ea, p))
      | inr (o', p) ↦ (gc, array, eg, ea, ground (arith, e, eg, ea, p))
    ]
  ]
]

-- The same, for the attributes that are known to be found.
pub derive_gcmetadata-emit_of :
    {syn : Syn} (filter : Filter) (s : Structure syn) (o : Output syn) (gc : GcMetadata syn)
    (array : Option (ArrayLike syn))
    → find_gcmetadata syn s.attrs ≡ ok gc
    → find_arraylike syn s.attrs ≡ ok array
    → derive_gcmetadata syn filter s ≡ some (ok o)
    → emit syn filter s.variants array gc ≡ some o
derive_gcmetadata-emit_of filter s o gc array eg ea e =
    let (gc', array', eg', ea', p) = derive_gcmetadata-emit filter s o e in
    ground (arith, eg, ea, eg', ea', p)

pub derive_gcmetadata-of_emit :
    {syn : Syn} (filter : Filter) (s : Structure syn) (o : Output syn) (gc : GcMetadata syn)
    (array : Option (ArrayLike syn))
    → find_gcmetadata syn s.attrs ≡ ok gc
    → find_arraylike syn s.attrs ≡ ok array
    → emit syn filter s.variants array gc ≡ some o
    → derive_gcmetadata syn filter s ≡ some (ok o)
unfolding derive_gcmetadata
derive_gcmetadata-of_emit filter s o gc array eg ea e = ground (arith, eg, ea, e)

-- The parts of what is emitted.
pub emit-parts :
    {syn : Syn} (filter : Filter) (variants : List (List Field)) (array : Option (ArrayLike syn))
    (gc : GcMetadata syn) (o : Output syn)
    → emit syn filter variants array gc ≡ some o
    → (trace_code syn filter variants array gc.trace ≡ some (o.trace_impl, o.trace))
      × (o.instance_size ≡ instance_size syn array gc.size)
      × (compute_size syn array gc.size ≡ some o.compute_size)
      × (o.alignment ≡ alignment syn gc.alignment)
unfolding emit
emit-parts {syn} filter variants array gc o e =
    elim (Option-cases (trace_code syn filter variants array gc.trace)) [
      | inl n ↦ absurd (ground (arith, e, n))
      | inr (t, n) ↦ elim (Option-cases (compute_size syn array gc.size)) [
        | inl k ↦ absurd (ground (arith, e, n, k))
        | inr (c, k) ↦ ground (arith, e, n, k)
      ]
    ]
