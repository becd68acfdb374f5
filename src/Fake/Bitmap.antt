-- ===== src/Fake/Bitmap.antt =====
-- The bitmaps of a Redis server that answers exactly while it is up.
use mygo_microservices.Prelude.{
  ℕ, String, ◌≡◌, Bool, true, false, List, [], ◌∷◌, if◌then◌else◌, arith,
}
use mygo_microservices.Go.{external, ok, err, Exec}
use mygo_microservices.Cache.Bloom.{
  BitCommand, set_bit, get_bit, Bitmaps, write_bit, replies, effect, Bits, BitsLaws,
}

pub record Store : Type 0 where
  pub maps : Bitmaps
  pub up : Bool

abbrev exec : List BitCommand → Exec Store (List Bool)
exec cs s =
    if s.up
    then (ok (replies cs s.maps), record s { maps = effect cs s.maps })
    else (err (external "connection refused"), s)

abbrev pub bitmap : Bits
bitmap = record { State = Store; IsUp = λ s. s.up ≡ true; bit = λ s. s.maps; exec = exec }

-- No command clears a bit.
effect_keeps :
    (cs : List BitCommand) (k : String) (i : ℕ) (b : Bitmaps)
    → b k i ≡ true
    → effect cs b k i ≡ true
unfolding effect
effect_keeps [] k i b h = h
effect_keeps (set_bit j n ∷ cs) k i b h = effect_keeps cs k i (write_bit j n b) (ground (arith, h))
effect_keeps (get_bit j n ∷ cs) k i b h = effect_keeps cs k i b h

pub bitmap_laws : BitsLaws bitmap
bitmap_laws = record {
  exec_ok = λ cs s rs. ground arith;
  exec_effect = λ cs k i s rs. ground arith;
  exec_keeps = λ cs k i s h. ground (arith, effect_keeps cs k i s.maps h);
  up_exec = λ cs s. ground arith;
  exec-IsUp = λ cs s. ground arith;
}

-- A replica, which answers GETBIT and refuses SETBIT.
abbrev pub writes : List BitCommand → Bool
writes [] = false
writes (set_bit k i ∷ cs) = true
writes (get_bit k i ∷ cs) = writes cs

abbrev pub replica : Bits
replica = record {
  State = Store;
  IsUp = λ s. s.up ≡ true;
  bit = λ s. s.maps;
  exec = λ cs s. if writes cs then (err (external "READONLY"), s) else exec cs s;
}
