-- ===== src/Examples/Inputs.antt =====
-- A concrete C++ runtime: a fresh array is zeros, and a copy inside an array is the copy between
-- arrays.
use new_happy_server.Base.{◌+◌, refl, none, [], ◌∷◌, replicate, length-replicate, arith}
use new_happy_server.Base.Slices.{slice, splice}
use new_happy_server.Buffer.{Runtime, Buffer, IsValid}

abbrev pub zero_runtime : Runtime
zero_runtime = record {
  new_chars = λ n. replicate n 0;
  memcpy_within = λ a dst src n. splice a dst (slice src (src + n) a);
  length-new_chars = λ n. length-replicate n 0;
  memcpy_disjoint = λ a dst src n h k apart. refl;
}

-- A small buffer with three readable bytes behind two that are free.
abbrev pub three_bytes : Buffer
three_bytes = record {
  flag = 0;
  headreserved = 2;
  capacity = 8;
  readpos = 2;
  writepos = 5;
  heap_data = none;
  stack_data = 0 ∷ 0 ∷ 1 ∷ 2 ∷ 3 ∷ 0 ∷ 0 ∷ 0 ∷ [];
}

pub three_bytes-IsValid : IsValid three_bytes
three_bytes-IsValid = record {
  storage = refl;
  read_le_write = omega arith;
  write_le_capacity = omega arith;
  head_le_capacity = omega arith;
  small = omega arith;
}
