-- ===== src/Cache/Bloom/Laws.antt =====
-- The filter never forgets.
use mygo_microservices.Prelude.{
  String, ◌≡◌, Bool, true, false, List, [], ◌∷◌, arith, eq_refl, inl, inr, is_empty, trim_space,
}
use mygo_microservices.Go.{ok, Result-cases}
use mygo_microservices.Redis.{client}
use mygo_microservices.Cache.Bloom.{
  Bits, BitsLaws, BitCommand, set_bit, get_bit, replies, effect, bloom_hash1, bloom_hash2,
  bloom_add, bloom_exists, both_set,
}

module _ (bits : Bits) (laws : BitsLaws bits) (filter_key item : String) where
  open bits use {State, IsUp, bit}

  -- Both bits of the item are set.
  pub record IsMember (s : State) : Type 0 where
    pub first : bit s (trim_space filter_key) (bloom_hash1 (trim_space item)) ≡ true
    pub second : bit s (trim_space filter_key) (bloom_hash2 (trim_space item)) ≡ true

  add_commands : List BitCommand
  add_commands =
      set_bit (trim_space filter_key) (bloom_hash1 (trim_space item))
      ∷ set_bit (trim_space filter_key) (bloom_hash2 (trim_space item))
      ∷ []

  pub add-IsMember :
      (s : State)
      → (bloom_add bits client filter_key item s).0 ≡ ok tt
      → IsMember (bloom_add bits client filter_key item s).1
  unfolding bloom_add effect add_commands
  add-IsMember s h = elim (Result-cases (bits.exec add_commands s).0) [
    | inr (e, p) ↦ absurd (ground (arith, p))
    | inl (rs, p) ↦ record {
      first = ground (
        arith,
        eq_refl (trim_space filter_key),
        laws.exec_effect add_commands (trim_space filter_key) (bloom_hash1 (trim_space item)) s rs
            p,
      );
      second = ground (
        arith,
        eq_refl (trim_space filter_key),
        laws.exec_effect add_commands (trim_space filter_key) (bloom_hash2 (trim_space item)) s rs
            p,
      );
    }
  ]

  -- No addition of any item, whether it answers or not, takes a member away.
  pub IsMember-add :
      (key other : String) (s : State) → IsMember s → IsMember (bloom_add bits client key other s).1
  unfolding bloom_add
  IsMember-add key other s m =
      let cs : List BitCommand =
        set_bit (trim_space key) (bloom_hash1 (trim_space other))
        ∷ set_bit (trim_space key) (bloom_hash2 (trim_space other))
        ∷ [] in
      record {
        first =
            ground
              (arith, laws.exec_keeps cs (trim_space filter_key) (bloom_hash1 (trim_space item)) s);
        second =
            ground
              (arith, laws.exec_keeps cs (trim_space filter_key) (bloom_hash2 (trim_space item)) s);
      }

  exists_commands : List BitCommand
  exists_commands =
      get_bit (trim_space filter_key) (bloom_hash1 (trim_space item))
      ∷ get_bit (trim_space filter_key) (bloom_hash2 (trim_space item))
      ∷ []

  pub exists-IsMember :
      (s : State) (b : Bool)
      → IsMember s
      → (bloom_exists bits client filter_key item s).0 ≡ ok b
      → b ≡ true
  unfolding bloom_exists both_set replies exists_commands
  exists-IsMember s b m h = elim (Result-cases (bits.exec exists_commands s).0) [
    | inr (e, p) ↦ absurd (ground (arith, p))
    | inl (rs, p) ↦ ground (arith, laws.exec_ok exists_commands s rs p)
  ]

  pub up_exists-IsMember :
      (s : State)
      → IsUp s
      → IsMember s
      → is_empty (trim_space filter_key) ≡ false
      → is_empty (trim_space item) ≡ false
      → (bloom_exists bits client filter_key item s).0 ≡ ok true
  unfolding bloom_exists both_set replies exists_commands
  up_exists-IsMember s up m k i = ground (arith, laws.up_exec exists_commands s up)

  pub exists_keeps :
      (key other : String) (s : State)
      → IsMember s
      → IsMember (bloom_exists bits client key other s).1
  unfolding bloom_exists
  exists_keeps key other s m =
      let cs : List BitCommand =
        get_bit (trim_space key) (bloom_hash1 (trim_space other))
        ∷ get_bit (trim_space key) (bloom_hash2 (trim_space other))
        ∷ [] in
      record {
        first =
            ground
              (arith, laws.exec_keeps cs (trim_space filter_key) (bloom_hash1 (trim_space item)) s);
        second =
            ground
              (arith, laws.exec_keeps cs (trim_space filter_key) (bloom_hash2 (trim_space item)) s);
      }

-- Additions to any filters, one after the other.
unfoldable pub add_all : (bits : Bits) → List (String × String) → bits.State → bits.State
add_all bits [] s = s
add_all bits ((key, item) ∷ rest) s = add_all bits rest (bloom_add bits client key item s).1

module _ (bits : Bits) (laws : BitsLaws bits) (filter_key item : String) where
  add_all-IsMember :
      (adds : List (String × String)) (s : bits.State)
      → IsMember bits laws filter_key item s
      → IsMember bits laws filter_key item (add_all bits adds s)
  unfolding add_all
  add_all-IsMember [] s m = m
  add_all-IsMember ((key, other) ∷ rest) s m =
      add_all-IsMember rest (bloom_add bits client key other s).1
        (IsMember-add bits laws filter_key item key other s m)

  -- No false negative: once an addition of the item has answered, every check of it that answers
  -- says that it may exist, after any further additions, whether those answer or not.
  pub no_false_negative :
      (adds : List (String × String)) (s : bits.State) (b : Bool)
      → (bloom_add bits client filter_key item s).0 ≡ ok tt
      → let s' = add_all bits adds (bloom_add bits client filter_key item s).1 in
        (bloom_exists bits client filter_key item s').0 ≡ ok b → b ≡ true
  no_false_negative adds s b added =
      exists-IsMember bits laws filter_key item _ b
        (add_all-IsMember adds _ (add-IsMember bits laws filter_key item s added))
