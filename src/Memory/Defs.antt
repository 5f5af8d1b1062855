-- ===== src/Memory/Defs.antt =====
-- Loads, stores and copies of bytes.
use vmkit_core.Prelude.{ℕ, zero, suc, ◌+◌, ◌-◌, ◌*◌, ◌/◌, ◌%◌, ◌&&◌, leb, ltb, ◌==◌, if◌then◌else◌}

abbrev pub Mem : Type 0
Mem = ℕ → ℕ

abbrev pub put : Mem → ℕ → ℕ → Mem
put m a v x = if a == x then v else m x

-- The number in the `n` bytes from `a` on.
unfoldable pub load_bytes : ℕ → Mem → ℕ → ℕ
load_bytes zero m a = 0
load_bytes (suc n) m a = m a + 256 * load_bytes n m (a + 1)

-- The `n` low bytes of `v`, written from `a` on.
unfoldable pub store_bytes : ℕ → Mem → ℕ → ℕ → Mem
store_bytes zero m a v = m
store_bytes (suc n) m a v = put (store_bytes n m (a + 1) (v / 256)) a (v % 256)

abbrev pub load_word : Mem → ℕ → ℕ
load_word = load_bytes 8

abbrev pub store_word : Mem → ℕ → ℕ → Mem
store_word = store_bytes 8

-- `std::ptr::copy`: the two ranges may overlap.
unfoldable pub copy : Mem → ℕ → ℕ → ℕ → Mem
copy m src dst bytes x = if leb dst x && ltb x (dst + bytes) then m (src + (x - dst)) else m x
