-- ===== src/Cache/Bloom.antt =====
-- shared/cache/bloom.go: a Bloom filter with two hash functions in a Redis bitmap.
pub mod Laws
use mygo_microservices.Prelude.{
  ℕ, ◌*◌, ◌%◌, ◌^◌, bit_xor, String, ◌≡◌, refl, Bool, true, false, List, [], ◌∷◌, ◌&&◌, ◌=ℕ=◌, ◌==◌,
  if◌then◌else◌, is_empty, trim_space, bytes,
}
use mygo_microservices.Go.{Error, message, Result, ok, err, Exec, pure, fail, ◌>>=◌, ◌>>◌}
use mygo_microservices.Redis.{Client, is_nil}

-- SETBIT key offset 1, and GETBIT key offset.
pub data BitCommand : Type 0 where
  set_bit get_bit : String → ℕ → BitCommand

-- The bitmaps of a server: whether the bit at an offset under a key is set.
abbrev pub Bitmaps : Type 0
Bitmaps = String → ℕ → Bool

abbrev pub write_bit : String → ℕ → Bitmaps → Bitmaps
write_bit k i b j n = if k == j then (if i =ℕ= n then true else b j n) else b j n

-- The replies to a pipeline, and the bitmaps after it. SETBIT replies with the old bit.
unfoldable pub replies : List BitCommand → Bitmaps → List Bool
replies [] b = []
replies (set_bit k i ∷ cs) b = b k i ∷ replies cs (write_bit k i b)
replies (get_bit k i ∷ cs) b = b k i ∷ replies cs b

unfoldable pub effect : List BitCommand → Bitmaps → Bitmaps
effect [] b = b
effect (set_bit k i ∷ cs) b = effect cs (write_bit k i b)
effect (get_bit k i ∷ cs) b = effect cs b

-- The server, through a pipeline of bit commands.
pub record Bits : Type 1 where
  pub State : Type 0
  pub IsUp : State → Type 0
  pub bit : State → Bitmaps
  pub exec : List BitCommand → Exec State (List Bool)

module _ (bits : Bits) where
  open bits use {State, IsUp, bit, exec}

  -- A pipeline that answers has run; one that does not may have run in part, and clears no bit.
  pub record BitsLaws : Type 0 where
    pub exec_ok :
        (cs : List BitCommand) (s : State) (rs : List Bool)
        → (exec cs s).0 ≡ ok rs
        → rs ≡ replies cs (bit s)
    pub exec_effect :
        (cs : List BitCommand) (k : String) (i : ℕ) (s : State) (rs : List Bool)
        → (exec cs s).0 ≡ ok rs
        → bit (exec cs s).1 k i ≡ effect cs (bit s) k i
    pub exec_keeps :
        (cs : List BitCommand) (k : String) (i : ℕ) (s : State)
        → bit s k i ≡ true
        → bit (exec cs s).1 k i ≡ true
    pub up_exec :
        (cs : List BitCommand) (s : State) → IsUp s → (exec cs s).0 ≡ ok (replies cs (bit s))
    pub exec-IsUp : (cs : List BitCommand) (s : State) → IsUp s → IsUp (exec cs s).1

abbrev pub bloom_size : ℕ
bloom_size = 10_000_000

-- hash/fnv: FNV-1a and FNV-1 on 32 bits.
fnv32a_from : ℕ → List ℕ → ℕ
fnv32a_from hash [] = hash
fnv32a_from hash (c ∷ cs) = fnv32a_from (bit_xor hash c * 16777619 % 2 ^ 32) cs

fnv32_from : ℕ → List ℕ → ℕ
fnv32_from hash [] = hash
fnv32_from hash (c ∷ cs) = fnv32_from (bit_xor (hash * 16777619 % 2 ^ 32) c) cs

unfoldable pub bloom_hash1 : String → ℕ
unfolding fnv32a_from
bloom_hash1 item = fnv32a_from 2166136261 (bytes item) % bloom_size

unfoldable pub bloom_hash2 : String → ℕ
unfolding fnv32_from
bloom_hash2 item = bit_xor (fnv32_from 2166136261 (bytes item)) 0x9e3779b9 % bloom_size

-- The published test vectors of the text `a`.
fnv_a :
    (fnv32a_from 2166136261 (97 ∷ []) ≡ 0xe40c292c) × (fnv32_from 2166136261 (97 ∷ []) ≡ 0x050c5d7e)
unfolding fnv32a_from fnv32_from
fnv_a = (refl, refl)

-- `bit1.Val() == 1 && bit2.Val() == 1`
unfoldable pub both_set : List Bool → Bool
both_set (b ∷ c ∷ []) = b && c
both_set bs = false

module _ (bits : Bits) where
  unfoldable pub bloom_add : Client → String → String → Exec bits.State (Unit {0})
  bloom_add rdb filter_key item =
      let trimmed_filter_key = trim_space filter_key in
      let trimmed_item = trim_space item in
      if is_nil rdb
      then fail (message "redis client is required for bloom add")
      else if is_empty trimmed_filter_key
      then fail (message "filterKey is required for bloom add")
      else if is_empty trimmed_item
      then fail (message "item is required for bloom add")
      else (bits.exec (
            set_bit trimmed_filter_key (bloom_hash1 trimmed_item)
            ∷ set_bit trimmed_filter_key (bloom_hash2 trimmed_item)
            ∷ [])
          >> pure tt)

  unfoldable pub bloom_exists : Client → String → String → Exec bits.State Bool
  unfolding both_set
  bloom_exists rdb filter_key item =
      let trimmed_filter_key = trim_space filter_key in
      let trimmed_item = trim_space item in
      if is_nil rdb
      then fail (message "redis client is required for bloom exists")
      else if is_empty trimmed_filter_key
      then fail (message "filterKey is required for bloom exists")
      else if is_empty trimmed_item
      then fail (message "item is required for bloom exists")
      else do
        bs ← bits.exec (
            get_bit trimmed_filter_key (bloom_hash1 trimmed_item)
            ∷ get_bit trimmed_filter_key (bloom_hash2 trimmed_item)
            ∷ [])
        pure (both_set bs)
