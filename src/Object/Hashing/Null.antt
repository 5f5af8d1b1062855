-- ===== src/Object/Hashing/Null.antt =====
-- Hash codes of the null object, and without address-based hashing.
use vmkit_core.Prelude.{ℕ, ◌≡◌, true, false, none, some, arith}
use vmkit_core.Memory.{Mem}
use vmkit_core.Header.{header, hash_state}
use vmkit_core.Object.{ObjectVm, hashcode}

pub hashcode-null :
    (vm : ObjectVm) (m : Mem) → vm.address_based_hashing ≡ true → hashcode vm m 0 ≡ none
unfolding hashcode hash_state header
hashcode-null vm m h = ground (arith, h)

pub hashcode-by_vm :
    (vm : ObjectVm) (m : Mem) (object : ℕ)
    → vm.address_based_hashing ≡ false
    → hashcode vm m object ≡ some (vm.compute_hashcode m object, m)
unfolding hashcode
hashcode-by_vm vm m object h = ground (arith, h)
