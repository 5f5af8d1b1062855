-- ===== src/Object/CopyTo/Tests.antt =====
-- An object of 72 bytes at 64, which is moved to a place whose memory is zero.
use vmkit_core.Prelude.{
  ℕ, ◌+◌, ◌≤◌, ◌<◌, ◌≡◌, ◌⊎◌, ltb, refl, true, some, none, arith, ◌==◌, if◌then◌else◌,
}
use vmkit_core.Memory.{Mem, load_bytes}
use vmkit_core.Header.{from_bitfield, hash_state, metadata}
use vmkit_core.Header.Digits.{digits, digits-BitFieldLaws, decode, low}
use vmkit_core.Tlab.Multiples.{multiple_from}
use vmkit_core.Object.{ObjectVm, bytes_used, object_start, bytes_required_when_copied}
use vmkit_core.Object.Hashing.{IsHashed}
use vmkit_core.Object.CopyTo.{copy_to}
use vmkit_core.Object.CopyTo.Compaction.{FillsGap, copy_to-in_place, copy_to-target_size}

-- Fills the gap with the byte 255.
abbrev fill : Mem → ℕ → ℕ → Mem
fill m start end x = if ltb x start then m x else if ltb x end then 255 else m x

fill-FillsGap : FillsGap fill
fill-FillsGap m start end x h o = ground arith

abbrev vm : ObjectVm
vm = record {
  bit_fields = digits;
  address_based_hashing = true;
  gc_metadata = λ bits. record {
    instance_size = if bits == 0 then 16 else 64;
    compute_size = none;
    alignment = 8;
    compute_alignment = none;
  };
  compute_hashcode = λ m o. o;
  max_alignment = 32;
  raw_align_up = multiple_from;
}

-- The metadata of the object at 64 is 1.
abbrev memory : Mem
memory a = if a == 56 then 1 else 0

object-IsHashed : IsHashed vm memory 64
unfolding load_bytes
object-IsHashed = record {
  hashing = refl;
  laws = digits-BitFieldLaws;
  low = omega arith;
  high = omega arith;
  word = omega arith;
}

size_of_object : bytes_required_when_copied vm memory 64 ≡ some 72
unfolding bytes_required_when_copied decode low load_bytes metadata hash_state
size_of_object = refl

size_of_target : bytes_required_when_copied vm memory 208 ≡ some 24
unfolding bytes_required_when_copied decode low load_bytes metadata hash_state
size_of_target = refl

used_by_object : bytes_used vm memory 64 ≡ some 72
unfolding bytes_used decode low load_bytes metadata hash_state
used_by_object = refl

start_of_object : object_start vm memory 64 ≡ some 56
unfolding object_start decode low load_bytes hash_state
start_of_object = refl

copy_to-target_size_example :
    (m' : Mem) × (copy_to vm fill memory 64 208 196 ≡ some (224, m'))
    × ((i : ℕ) → i + 8 < 24 → m' (208 + i) ≡ memory (64 + i))
    × ((x : ℕ) → 224 ≤ x → m' x ≡ memory x)
unfolding from_bitfield decode low load_bytes
copy_to-target_size_example =
    copy_to-target_size vm fill fill-FillsGap memory 64 196 208 object-IsHashed (λ e. omega arith)
      24 refl size_of_target (omega arith) (omega arith) (omega arith)

stays :
    (m' : Mem) × (copy_to vm fill memory 64 64 48 ≡ some (128, m'))
    × ((x : ℕ) → (x < 48) ⊎ (56 ≤ x) → m' x ≡ memory x)
stays =
    copy_to-in_place vm fill fill-FillsGap memory 64 48 72 56 used_by_object start_of_object
      (omega arith) (omega arith)
