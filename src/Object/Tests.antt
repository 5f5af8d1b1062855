-- ===== src/Object/Tests.antt =====
-- An object of sixteen bytes at 64, whose header shows each hash state.
use vmkit_core.Prelude.{
  ℕ, ◌+◌, ◌-◌, ◌/◌, ◌^◌, ◌<◌, ◌≡◌, refl, true, some, none, arith, ◌==◌, if◌then◌else◌,
}
use vmkit_core.Memory.{Mem, load_word, load_bytes}
use vmkit_core.Header.{unhashed, hashed, hashed_and_moved, from_bitfield}
use vmkit_core.Header.Digits.{digits, digits-BitFieldLaws, decode, low}
use vmkit_core.Tlab.Multiples.{multiple_from}
use vmkit_core.Object.{ObjectVm, hashcode}
use vmkit_core.Object.Move.{to_address, move_object, get_reference_when_copied_to}
use vmkit_core.Object.Hashing.{IsHashed, StateIs, metadata_of, move_object-hashed}
use vmkit_core.Object.Hashing.Again.{move_object-hashed_and_moved}
use vmkit_core.Object.Sizes.{get_reference_when_copied_to-move_object}

abbrev vm : ObjectVm
vm = record {
  bit_fields = digits;
  address_based_hashing = true;
  gc_metadata = λ bits. record {
    instance_size = 16;
    compute_size = none;
    alignment = 8;
    compute_alignment = none;
  };
  compute_hashcode = λ m o. o;
  max_alignment = 32;
  raw_align_up = multiple_from;
}

-- The highest byte of the header is `top`.
abbrev memory : ℕ → Mem
memory top a = if a == 63 then top else 0

never-IsHashed : IsHashed vm (memory 0) 64
unfolding load_bytes
never-IsHashed = record {
  hashing = refl;
  laws = digits-BitFieldLaws;
  low = omega arith;
  high = omega arith;
  word = omega arith;
}

once-IsHashed : IsHashed vm (memory 64) 64
unfolding load_bytes
once-IsHashed = record {
  hashing = refl;
  laws = digits-BitFieldLaws;
  low = omega arith;
  high = omega arith;
  word = omega arith;
}

twice-IsHashed : IsHashed vm (memory 128) 64
unfolding load_bytes
twice-IsHashed = record {
  hashing = refl;
  laws = digits-BitFieldLaws;
  low = omega arith;
  high = omega arith;
  word = omega arith;
}

is_unhashed : StateIs vm (memory 0) 64 unhashed
unfolding decode low load_bytes from_bitfield
is_unhashed = refl

is_hashed : StateIs vm (memory 64) 64 hashed
unfolding decode low load_bytes from_bitfield
is_hashed = refl

is_moved : StateIs vm (memory 128) 64 hashed_and_moved
unfolding decode low load_bytes from_bitfield
is_moved = refl

move_object-hashed_example :
    (m' : Mem) × (move_object vm (memory 64) 64 (to_address 1024) 32 ≡ some (1024 + 16, m'))
    × StateIs vm m' (1024 + 16) hashed_and_moved
    × (hashcode vm m' (1024 + 16) ≡ some (64 / 2 ^ 3, m'))
    × (metadata_of vm m' (1024 + 16) ≡ metadata_of vm (memory 64) 64)
    × ((i : ℕ) → i + 16 < 32 → m' (1024 + 16 + i) ≡ memory 64 (64 + i))
move_object-hashed_example =
    move_object-hashed vm (memory 64) 64 1024 32 once-IsHashed is_hashed (omega arith) (omega arith)

move_object-hashed_and_moved_example :
    (m' : Mem) × (m'' : Mem) × (hashcode vm (memory 128) 64
      ≡ some (load_word (memory 128) (64 - 16), memory 128))
    × (move_object vm (memory 128) 64 (to_address 1024) 32 ≡ some (1024 + 16, m'))
    × StateIs vm m' (1024 + 16) hashed
    × (hashcode vm m' (1024 + 16) ≡ some ((1024 + 16) / 2 ^ 3, m''))
    × (metadata_of vm m' (1024 + 16) ≡ metadata_of vm (memory 128) 64)
    × ((i : ℕ) → i + 16 < 32 → m' (1024 + 16 + i) ≡ memory 128 (64 + i))
move_object-hashed_and_moved_example =
    move_object-hashed_and_moved vm (memory 128) 64 1024 32 twice-IsHashed is_moved (omega arith)
      (omega arith)

get_reference_when_copied_to-move_object_example :
    (to : ℕ) × (m' : Mem) × (get_reference_when_copied_to vm (memory 64) 64 1024 ≡ some to)
    × (move_object vm (memory 64) 64 (to_address 1024) 32 ≡ some (to, m'))
get_reference_when_copied_to-move_object_example =
    get_reference_when_copied_to-move_object vm (memory 64) 64 1024 32 once-IsHashed hashed
      is_hashed (omega arith) (omega arith)
