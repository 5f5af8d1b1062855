-- ===== src/Memory/Laws.antt =====
-- What a load sees after a store or a copy.
use vmkit_core.Memory.Defs.{Mem, put, load_bytes, store_bytes, copy}
use native.Mathlib.Nat.{pow-suc}
use vmkit_core.Prelude.{ℕ, zero, suc, ◌+◌, ◌/◌, ◌%◌, ◌^◌, ◌≤◌, ◌<◌, ◌≡◌, refl, ◌⊎◌, arith}

-- A load reads the bytes of its range and no other.
pub load_bytes_ext :
    (n : ℕ) (m k : Mem) (a b : ℕ)
    → ((i : ℕ) → i < n → m (a + i) ≡ k (b + i))
    → load_bytes n m a ≡ load_bytes n k b
unfolding load_bytes
load_bytes_ext zero m k a b h = refl
load_bytes_ext (suc n) m k a b h =
    ground (arith, h 0, load_bytes_ext n m k (a + 1) (b + 1) (λ i lt. ground (arith, h (i + 1))))

pub store_bytes-outside :
    (n : ℕ) (m : Mem) (a v x : ℕ) → (x < a) ⊎ (a + n ≤ x) → store_bytes n m a v x ≡ m x
unfolding store_bytes
store_bytes-outside zero m a v x h = refl
store_bytes-outside (suc n) m a v x h = ground (arith, store_bytes-outside n m (a + 1) (v / 256) x)

pub load_bytes-store_bytes :
    (n : ℕ) (m : Mem) (a v : ℕ) → v < 256 ^ n → load_bytes n (store_bytes n m a v) a ≡ v
unfolding load_bytes store_bytes
load_bytes-store_bytes zero m a v h = omega arith
load_bytes-store_bytes (suc n) m a v h = ground (
  arith,
  load_bytes_ext n (put (store_bytes n m (a + 1) (v / 256)) a (v % 256))
      (store_bytes n m (a + 1) (v / 256)) (a + 1) (a + 1) (λ i lt. ground arith),
  load_bytes-store_bytes n m (a + 1) (v / 256) (omega (arith, pow-suc 256 n)),
)

-- A store leaves a load of a range that it does not touch.
pub load_bytes-store_bytes_apart :
    (n k : ℕ) (m : Mem) (a b v : ℕ)
    → (b + n ≤ a) ⊎ (a + k ≤ b)
    → load_bytes n (store_bytes k m a v) b ≡ load_bytes n m b
load_bytes-store_bytes_apart n k m a b v h =
    load_bytes_ext n (store_bytes k m a v) m b b
      λ i lt. store_bytes-outside k m a v (b + i) (omega arith)

-- A load inside the target of a copy reads the source.
pub load_bytes-copy :
    (n : ℕ) (m : Mem) (src dst bytes i : ℕ)
    → i + n ≤ bytes
    → load_bytes n (copy m src dst bytes) (dst + i) ≡ load_bytes n m (src + i)
unfolding copy
load_bytes-copy n m src dst bytes i h =
    load_bytes_ext n (copy m src dst bytes) m (dst + i) (src + i) λ j lt. ground arith

-- A load outside the target of a copy is unchanged.
pub load_bytes-copy_apart :
    (n : ℕ) (m : Mem) (src dst bytes a : ℕ)
    → (a + n ≤ dst) ⊎ (dst + bytes ≤ a)
    → load_bytes n (copy m src dst bytes) a ≡ load_bytes n m a
unfolding copy
load_bytes-copy_apart n m src dst bytes a h =
    load_bytes_ext n (copy m src dst bytes) m a a λ j lt. ground arith

pub copy-inside :
    (m : Mem) (src dst bytes i : ℕ) → i < bytes → copy m src dst bytes (dst + i) ≡ m (src + i)
unfolding copy
copy-inside m src dst bytes i h = ground arith
